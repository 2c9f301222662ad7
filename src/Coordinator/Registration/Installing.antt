-- ===== src/Coordinator/Registration/Installing.antt =====
-- What the polls of a job of coordinator/registration.rs do to the registry.
use omarchy_harbormaster.Common.{
  ℕ, ◌≡◌, ◌⊎◌, inl, inr, refl, sym, subst, ◌∙◌, true, List, [], ◌∷◌, Option, none, some, ok, arith,
}
use omarchy_harbormaster.Protocol.Identity.{ProducerGeneration, Revision}
use omarchy_harbormaster.Ingestion.Registry.Types.{Registry}
use omarchy_harbormaster.Ingestion.Registry.{install_committed, invalidate_generation}
use omarchy_harbormaster.Storage.Types.{Request, Response, is_verified}
use omarchy_harbormaster.Coordinator.Operation.{Reply, SubmitFailure, answered}
use omarchy_harbormaster.Coordinator.Operation.Polling.{unsent}
use omarchy_harbormaster.Coordinator.Registration.{
  ReconciliationInput, ReconciliationJob, ReconciliationProgress, baseline, installs, job, new,
  poll, reconciliation,
}
use omarchy_harbormaster.Coordinator.Registration.Made.{new-IsMade}
use omarchy_harbormaster.Coordinator.Registration.Polls.{
  IsWaiting, installs_it, poll-Next, stops, waits,
}

-- Polls, one for each outcome of the submission and state of the channel.
unfoldable pub poll_all :
    List (Option SubmitFailure × Reply) → ReconciliationJob → Option ReconciliationJob
poll_all [] j = some j
poll_all ((failure, reply) ∷ polls) j = elim (poll failure reply j) [
  | none ↦ none
  | some (progress, j') ↦ poll_all polls j'
]

-- One of the answers says that the generation is registered.
abbrev pub Registers : ProducerGeneration → List (Option SubmitFailure × Reply) → Type 0
Registers generation [] = ⊥
Registers generation ((failure, reply) ∷ polls) =
    ((r : Revision) × (reply ≡ answered (ok (Response.registered generation r))))
    ⊎ Registers generation polls

-- The registry that a job leaves is the one it was given, or has the generation installed that the
-- database has registered for verified evidence.
pub data Leaves (input : ReconciliationInput) (registry : Registry)
    (polls : List (Option SubmitFailure × Reply)) (left : Registry) : Type 0 where
  untouched : left ≡ registry → Leaves input registry polls left
  install :
      (generation : ProducerGeneration)
      → Registers generation polls
      → is_verified (baseline input) ≡ true
      → left ≡ (install_committed (installs input generation) registry).1
      → Leaves input registry polls left

poll_all_done :
    (polls : List (Option SubmitFailure × Reply)) (j : ReconciliationJob)
    → j.done ≡ true
    → poll_all polls j ≡ some j
unfolding poll_all poll
poll_all_done [] j h = refl
poll_all_done ((failure, reply) ∷ polls) j h = ground (arith, poll_all_done polls j h)

poll_all_next :
    (failure : Option SubmitFailure) (reply : Reply) (polls : List (Option SubmitFailure × Reply))
    (j : ReconciliationJob) (out : ReconciliationProgress × ReconciliationJob)
    → poll failure reply j ≡ some out
    → poll_all ((failure, reply) ∷ polls) j ≡ poll_all polls out.1
unfolding poll_all
poll_all_next failure reply polls j out h = ground arith

module _ (input : ReconciliationInput) (request : Request) (registry : Registry) where
  later-Leaves :
      (p : Option SubmitFailure × Reply) (polls : List (Option SubmitFailure × Reply))
      (left : Registry)
      → Leaves input registry polls left
      → Leaves input registry (p ∷ polls) left
  later-Leaves p polls left (untouched e) = untouched e
  later-Leaves p polls left (install generation registers v e) =
      install generation (inr registers) v e

  waiting-Leaves :
      (polls : List (Option SubmitFailure × Reply)) (j : ReconciliationJob)
      → IsWaiting input request registry j
      → (left : ReconciliationJob) × (poll_all polls j ≡ some left)
        × Leaves input registry polls left.registry
  unfolding poll_all
  waiting-Leaves [] j w = (j, refl, untouched w.kept)
  waiting-Leaves ((failure, reply) ∷ polls) j w =
      let (out, e, next) = poll-Next input request registry failure reply j w in
      let first = poll_all_next failure reply polls j out e in
      elim next [
        | waits w' ↦
            let (left, all, leaves) = waiting-Leaves polls out.1 w' in
            (left, first ∙ all, later-Leaves (failure, reply) polls left.registry leaves)
        | stops done kept ↦ (out.1, first ∙ poll_all_done polls out.1 done, untouched kept)
        | installs_it generation r done answer v changed ↦ (
          out.1,
          first ∙ poll_all_done polls out.1 done,
          install generation (inl (r, answer)) v changed,
        )
      ]

job-IsWaiting :
    (input : ReconciliationInput) (discarded : ℕ) (registry : Registry)
    → IsWaiting input
        (Request.reconcile (reconciliation input discarded))
        registry
        (job input discarded registry)
job-IsWaiting input discarded registry = record {
  undone = refl;
  holds = unsent refl;
  kept = refl;
  about = refl;
  proof = refl;
}

-- However a reconciliation's operation is refused, delayed, lost or answered, polling it never
-- panics, and leaves the registry as the revocation of the previous generation did, or with one
-- generation installed on that: one that the database has said is registered, for evidence verified.
pub installed_once :
    (registry after : Registry) (input : ReconciliationInput) (j : ReconciliationJob)
    (polls : List (Option SubmitFailure × Reply))
    → new registry input ≡ (ok j, after)
    → (discarded : ℕ) × (left : ReconciliationJob) × (invalidate_generation
          input.registration.producer_id input.registration.previous_generation registry
        ≡ (ok discarded, after))
      × (poll_all polls j ≡ some left)
      × Leaves input after polls left.registry
installed_once registry after input j polls h =
    let made = new-IsMade registry input j after h in
    let (left, all, leaves) =
      waiting-Leaves input _ after polls (job input made.discarded after)
        (job-IsWaiting input made.discarded after) in
    (
      made.discarded,
      left,
      made.revoked,
      subst (λ i. poll_all polls i ≡ some left) (sym made.made) all,
      leaves,
    )
