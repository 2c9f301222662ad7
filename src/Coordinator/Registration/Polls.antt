-- ===== src/Coordinator/Registration/Polls.antt =====
-- What one poll of a job of coordinator/registration.rs does to the registry.
use omarchy_harbormaster.Common.{
  ◌≡◌, ◌⊎◌, inl, inr, refl, sym, ap, subst, ◌∙◌, true, false, Option, some, Result, ok, err, arith,
  Bool-cases,
}
use omarchy_harbormaster.Protocol.Identity.{ProducerGeneration, Revision}
use omarchy_harbormaster.Ingestion.Registry.Types.{Registry}
use omarchy_harbormaster.Ingestion.Registry.{install_committed}
use omarchy_harbormaster.Storage.{StorageError}
use omarchy_harbormaster.Storage.Types.{Request, Response, is_verified}
use omarchy_harbormaster.Coordinator.Operation.{Operation, Poll, Reply, SubmitFailure, answered}
use omarchy_harbormaster.Coordinator.Operation.Polling.{
  Holds, Polled, got, lost, poll-Polled, quiet, unqueued,
}
use omarchy_harbormaster.Coordinator.Registration.{
  ReconciliationInput, ReconciliationJob, ReconciliationProgress, baseline, installs, poll, react,
  received, shows,
}

-- A job that waits has the registry it was given.
pub record IsWaiting (input : ReconciliationInput) (request : Request) (registry : Registry)
    (j : ReconciliationJob) : Type 0 where
  pub undone : j.done ≡ false
  pub holds : Holds request j.operation
  pub kept : j.registry ≡ registry
  pub about : j.input ≡ input
  pub proof : j.verified ≡ is_verified (baseline input)

module _ (input : ReconciliationInput) (request : Request) (registry : Registry) where
  pub data Next (reply : Reply) (j : ReconciliationJob) : Type 0 where
    waits : IsWaiting input request registry j → Next reply j
    stops : j.done ≡ true → j.registry ≡ registry → Next reply j
    installs_it :
        (generation : ProducerGeneration) (r : Revision)
        → j.done ≡ true
        → reply ≡ answered (ok (Response.registered generation r))
        → is_verified (baseline input) ≡ true
        → j.registry ≡ (install_committed (installs input generation) registry).1
        → Next reply j

  installed :
      (generation : ProducerGeneration) (j : ReconciliationJob)
      → IsWaiting input request registry j
      → (install_committed (installs j.input generation) j.registry).1
        ≡ (install_committed (installs input generation) registry).1
  installed generation j w =
      ap (λ i. (install_committed (installs i generation) j.registry).1) w.about
      ∙ ap (λ g. (install_committed (installs input generation) g).1) w.kept

  still :
      (operation : Operation) (j : ReconciliationJob)
      → Holds request operation
      → IsWaiting input request registry j
      → (progress : ReconciliationProgress)
      → IsWaiting input request registry (record j { operation = operation; progress = progress })
  still operation j holds w progress = record {
    undone = w.undone;
    holds = holds;
    kept = w.kept;
    about = w.about;
    proof = w.proof;
  }

  registered-Next :
      (reply : Reply) (generation : ProducerGeneration) (r : Revision) (operation : Operation)
      (j : ReconciliationJob)
      → reply ≡ answered (ok (Response.registered generation r))
      → IsWaiting input request registry j
      → Next reply
          (shows (
            received
              (ok (Response.registered generation r))
              (record j { operation = operation; done = true }))).1
  unfolding received
  registered-Next reply generation r operation j e w = elim (Bool-cases j.verified) [
    | inl v ↦
        let there : (received (ok (Response.registered generation r))
              (record j { operation = operation; done = true })).1.registry
            ≡ (install_committed (installs j.input generation) j.registry).1 =
          ground (arith, v) in
        installs_it generation r (ground (arith, v)) e (sym w.proof ∙ v)
          (there ∙ installed generation j w)
    | inr v ↦ stops (ground (arith, v)) (ground (arith, v, w.kept))
  ]

  received-Next :
      (reply : Reply) (a : Result StorageError Response) (operation : Operation)
      (j : ReconciliationJob)
      → (reply ≡ answered a) ⊎ ((e : StorageError) × (a ≡ err e))
      → IsWaiting input request registry j
      → Next reply (shows (received a (record j { operation = operation; done = true }))).1
  unfolding received
  received-Next reply (err e) operation j from w = stops refl w.kept
  received-Next reply (ok (Response.registered generation r)) operation j (inl e) w =
      registered-Next reply generation r operation j e w
  received-Next reply (ok (Response.registered generation r)) operation j (inr (e, h)) w = absurd cc
  received-Next reply (ok response) operation j from w = stops refl w.kept

  react-Next :
      (reply : Reply) (p : Poll) (operation : Operation) (j : ReconciliationJob)
      → Polled request reply p operation
      → IsWaiting input request registry j
      → Next reply (shows (react p (record j { operation = operation }))).1
  unfolding react
  react-Next reply p operation j (quiet (inl e) holds) w =
      subst (λ x. Next reply (shows (react x (record j { operation = operation }))).1) (sym e)
        (waits (still operation j holds w _))
  react-Next reply p operation j (quiet (inr e) holds) w =
      subst (λ x. Next reply (shows (react x (record j { operation = operation }))).1) (sym e)
        (waits (still operation j holds w _))
  react-Next reply p operation j (unqueued e h holds) w =
      subst (λ x. Next reply (shows (react x (record j { operation = operation }))).1) (sym h)
        (received-Next reply (err e) operation j (inr (e, refl)) w)
  react-Next reply p operation j (lost e) w =
      subst (λ x. Next reply (shows (react x (record j { operation = operation }))).1) (sym e)
        (stops refl w.kept)
  react-Next reply p operation j (got a e h) w =
      subst (λ x. Next reply (shows (react x (record j { operation = operation }))).1) (sym h)
        (received-Next reply a operation j (inl e) w)

  pub poll-Next :
      (failure : Option SubmitFailure) (reply : Reply) (j : ReconciliationJob)
      → IsWaiting input request registry j
      → (out : ReconciliationProgress × ReconciliationJob) × (poll failure reply j ≡ some out)
        × Next reply out.1
  unfolding poll
  poll-Next failure reply j w =
      let ((p, operation), e, polled) = poll-Polled failure reply request j.operation w.holds in
      (
        shows (react p (record j { operation = operation })),
        ground (arith, w.undone, e),
        react-Next reply p operation j polled w,
      )
