-- ===== src/Coordinator/Commit/Progress.antt =====
-- What the methods of coordinator/commit.rs and decision.rs keep of a job that is still at work.
use omarchy_harbormaster.Common.{
  ℕ, ◌+◌, ◌*◌, ◌-◌, ◌≤◌, ◌<◌, ◌≡◌, ◌⊎◌, inl, inr, refl, sym, subst, Bool, true, false, not, ◌||◌,
  Option, none, some, ◌==◌, Result, ok, err, arith, Result-cases, if◌then◌else◌,
}
use omarchy_harbormaster.Protocol.Identity.{ident_eq, Revision}
use omarchy_harbormaster.Protocol.Event.{harness_eq}
use omarchy_harbormaster.Domain.Types.{Effects}
use omarchy_harbormaster.Domain.Policy.{DomainError}
use omarchy_harbormaster.Domain.Reducer.{reduce}
use omarchy_harbormaster.Storage.{StorageError}
use omarchy_harbormaster.Storage.Types.{
  EventReceipt, ProducerRecord, ProducerRetirement, ReducerContext, ReducerWrite, Request, Response,
}
use omarchy_harbormaster.Coordinator.{ReplayEntry}
use omarchy_harbormaster.Coordinator.Operation
use omarchy_harbormaster.Coordinator.Operation.{Operation, Poll, Reply, SubmitFailure}
use omarchy_harbormaster.Coordinator.Operation.Polling.{Holds, unsent}
use omarchy_harbormaster.Coordinator.Job.{CommitFailure, CommitJob, CommitProgress, Purpose}
use omarchy_harbormaster.Coordinator.Decision.{
  accept, decide, failure_of, freeze_entry, prepared, reduce_or_retire, reject, request_retirement,
  write,
}

-- The request that each purpose makes for the entry's event.
pub data Serves (entry : ReplayEntry) : Purpose → Request → Type 0 where
  reads : Serves entry Purpose.context (Request.context entry.event)
  writes :
      (set : ReducerWrite) → set.fact ≡ entry.event → Serves entry Purpose.apply (Request.apply set)
  retires :
      (failure : CommitFailure) (r : ProducerRetirement)
      → r.producer_id ≡ entry.event.producer_id
      → r.generation ≡ entry.event.generation
      → Serves entry (Purpose.retire failure) (Request.retire_producer r)

-- A job at work on its entry, with no receipt.
pub record IsOwner (entry : ReplayEntry) (job : CommitJob) : Type 0 where
  pub owns : job.entry ≡ some entry
  pub blank : job.receipt ≡ none
  pub undone : job.done ≡ false
  pub capped : job.retries ≤ 3

-- It holds the request that its purpose makes.
pub record IsWorking (entry : ReplayEntry) (request : Request) (job : CommitJob) : Type 0 where
  pub owner : IsOwner entry job
  pub holds : Holds request job.operation
  pub serves : Serves entry job.purpose request

-- A job that has ended, and whose receipt, if it has one, is for its event and says what it shows.
pub record IsDone (entry : ReplayEntry) (progress : CommitProgress) (job : CommitJob) : Type 0 where
  pub owns : job.entry ≡ some entry
  pub ended : job.done ≡ true
  pub limited : job.retries ≤ 3
  pub receipted :
      ((job.receipt ≡ none) × ((r : Revision) → progress ≡ CommitProgress.committed r → ⊥))
      ⊎ ((r : Revision) × (progress ≡ CommitProgress.committed r)
          × (job.receipt
              ≡ some (record { event = entry.event; harness = entry.harness; revision = r })))

abbrev pub steps_left : Purpose → ℕ
steps_left Purpose.context = 2
steps_left Purpose.apply = 1
steps_left (Purpose.retire failure) = 1

-- How many answers the job may still wait for.
abbrev pub weight : CommitJob → ℕ
weight job = 2 * (3 - job.retries) + steps_left job.purpose

-- The answer from which a revision was accepted.
pub data Earned : Purpose → Result StorageError Response → Revision → Type 0 where
  known :
      (read : ReducerContext) (r : Revision)
      → read.receipt ≡ EventReceipt.exact r
      → Earned Purpose.context (ok (Response.context read)) r
  stored :
      (r : Revision) (duplicate : Bool)
      → Earned Purpose.apply (ok (Response.committed r duplicate)) r

-- An answer leads on, with fewer to come, or ends the job; a revision is accepted only as earned.
pub data Turned (entry : ReplayEntry) (purpose : Purpose) (a : Result StorageError Response)
    (before : CommitJob) (out : CommitProgress × CommitJob) : Type 0 where
  on :
      (request : Request)
      → IsWorking entry request out.1
      → out.1.operation ≡ Operation.new request
      → out.0 ≡ CommitProgress.pending
      → weight out.1 < weight before
      → Turned entry purpose a before out
  ends :
      IsDone entry out.0 out.1
      → ((r : Revision) → out.0 ≡ CommitProgress.committed r → Earned purpose a r)
      → Turned entry purpose a before out

pub pending≢committed : (r : Revision) → CommitProgress.pending ≡ CommitProgress.committed r → ⊥
pending≢committed r h = cc

pub rejected≢committed :
    (failure : CommitFailure) (r : Revision)
    → CommitProgress.rejected failure ≡ CommitProgress.committed r
    → ⊥
rejected≢committed failure r h = cc

pub committed-injective :
    (r s : Revision) → CommitProgress.committed r ≡ CommitProgress.committed s → r ≡ s
committed-injective r s h = cc

module _ (entry : ReplayEntry) where
  prepared-Owner :
      (required : Bool) (job : CommitJob)
      → IsOwner entry job
      → IsOwner entry (prepared entry required job)
  unfolding prepared freeze_entry
  prepared-Owner true job w = record {
    owns = w.owns;
    blank = w.blank;
    undone = w.undone;
    capped = w.capped;
  }
  prepared-Owner false job w = w

  prepared-retries :
      (required : Bool) (job : CommitJob) → (prepared entry required job).retries ≡ job.retries
  unfolding prepared freeze_entry
  prepared-retries true job = refl
  prepared-retries false job = refl

module _ (entry : ReplayEntry) (purpose : Purpose) (a : Result StorageError Response)
    (before : CommitJob) where
  pub reject-Turned :
      (failure : CommitFailure) (job : CommitJob)
      → job.entry ≡ some entry
      → job.receipt ≡ none
      → job.retries ≤ 3
      → Turned entry purpose a before (reject failure job)
  unfolding reject
  reject-Turned failure job owns blank limited =
      ends
        (record {
          owns = owns;
          ended = refl;
          limited = limited;
          receipted = inl (blank, rejected≢committed failure);
        })
        (λ r h. absurd (rejected≢committed failure r h))

  pub accept-Turned :
      (r : Revision) (job : CommitJob)
      → job.entry ≡ some entry
      → job.retries ≤ 3
      → Earned purpose a r
      → Turned entry purpose a before (accept entry r job)
  unfolding accept
  accept-Turned r job owns limited earned =
      ends
        (record { owns = owns; ended = refl; limited = limited; receipted = inr (r, refl, refl) })
        (λ s h. subst (Earned purpose a) (committed-injective r s h) earned)

  request_retirement-Turned :
      (r : Revision) (failure : CommitFailure) (job : CommitJob)
      → IsOwner entry job
      → 2 * (3 - job.retries) + 1 < weight before
      → Turned entry purpose a before (request_retirement entry r failure job)
  unfolding request_retirement freeze_entry
  request_retirement-Turned r failure job w less =
      on _
        (record {
          owner = record { owns = w.owns; blank = w.blank; undone = w.undone; capped = w.capped };
          holds = unsent refl;
          serves = retires failure _ refl refl;
        })
        refl refl less

  write-Turned :
      (r : Revision) (effects : Effects) (job : CommitJob)
      → IsOwner entry job
      → 2 * (3 - job.retries) + 1 < weight before
      → Turned entry purpose a before (write entry r effects job)
  unfolding write
  write-Turned r effects job w less =
      let kept = prepared-Owner entry effects.reconciliation_required job w in
      on _
        (record {
          owner = record {
            owns = kept.owns;
            blank = kept.blank;
            undone = kept.undone;
            capped = kept.capped;
          };
          holds = unsent refl;
          serves = writes _ refl;
        })
        refl refl (omega (arith, prepared-retries entry effects.reconciliation_required job, less))

  reduce_or_retire-Turned :
      (read : ReducerContext) (job : CommitJob)
      → IsOwner entry job
      → 2 * (3 - job.retries) + 1 < weight before
      → Turned entry purpose a before (reduce_or_retire entry read job)
  unfolding reduce_or_retire
  reduce_or_retire-Turned read job w less =
      elim (Result-cases (reduce read.state entry.event job.policy)) [
        | inl (e, h) ↦
            subst (λ m. Turned entry purpose a before (reduced m)) (sym h)
              (request_retirement-Turned read.revision CommitFailure.invalid_evidence job w less)
        | inr (effects, h) ↦
            subst (λ m. Turned entry purpose a before (reduced m)) (sym h)
              (write-Turned read.revision effects job w less)
      ]
    where
      reduced : Result DomainError Effects → CommitProgress × CommitJob
      reduced m = elim m [
        | err e ↦ request_retirement entry read.revision CommitFailure.invalid_evidence job
        | ok effects ↦ write entry read.revision effects job
      ]

  pub decide-Turned :
      (read : ReducerContext) (producer : ProducerRecord) (job : CommitJob)
      → IsOwner entry job
      → 2 * (3 - job.retries) + 1 < weight before
      → Turned entry purpose a before (decide entry read producer job)
  unfolding decide
  decide-Turned read producer job w less =
      gate
        (not (producer.generation == entry.event.generation)
          || not producer.active
          || not producer.reconciled)
        (failure_of read.receipt producer entry.event)
    where
      gate :
          (bad : Bool) (failure : Option CommitFailure)
          → Turned entry purpose a before (
              if bad then reject CommitFailure.unreconciled job else elim failure [
                | some f ↦ request_retirement entry read.revision f job
                | none ↦ reduce_or_retire entry read job
              ])
      gate true failure = reject-Turned CommitFailure.unreconciled job w.owns w.blank w.capped
      gate false (some f) = request_retirement-Turned read.revision f job w less
      gate false none = reduce_or_retire-Turned read job w less
