-- ===== src/Coordinator/Commit/Turns.antt =====
-- Each answer moves a job of coordinator/commit.rs on, or ends it.
use omarchy_harbormaster.Common.{
  ◌+◌, ◌*◌, ◌-◌, ◌≤◌, ◌<◌, ◌≡◌, inl, inr, refl, sym, subst, Bool, true, false, not, ◌||◌, Option,
  none, some, ◌==◌, Result, ok, err, arith, ltb, Bool-cases, if◌then◌else◌,
}
use omarchy_harbormaster.Protocol.Identity.{ident_eq}
use omarchy_harbormaster.Protocol.Event.{harness_eq}
use omarchy_harbormaster.Storage.{StorageError}
use omarchy_harbormaster.Storage.Types.{EventReceipt, ProducerRecord, ReducerContext, Response}
use omarchy_harbormaster.Coordinator.{ReplayEntry}
use omarchy_harbormaster.Coordinator.Operation.Polling.{unsent}
use omarchy_harbormaster.Coordinator.Job.{CommitFailure, CommitJob, Purpose}
use omarchy_harbormaster.Coordinator.Decision.{
  freeze_entry, on_context, on_error, on_failure, on_response, refresh, reject, respond, settle,
}
use omarchy_harbormaster.Coordinator.Commit.Progress.{
  IsOwner, Turned, accept-Turned, decide-Turned, known, on, reads, reject-Turned, steps_left,
  stored, weight,
}

pub steps_left_pos : (purpose : Purpose) → 0 < steps_left purpose
steps_left_pos Purpose.context = omega arith
steps_left_pos Purpose.apply = omega arith
steps_left_pos (Purpose.retire failure) = omega arith

module _ (entry : ReplayEntry) where
  settle-Turned :
      (read : ReducerContext) (producer : ProducerRecord) (receipt : EventReceipt)
      (before job : CommitJob)
      → read.receipt ≡ receipt
      → IsOwner entry job
      → 2 * (3 - job.retries) + 1 < weight before
      → Turned entry Purpose.context
          (ok (Response.context read))
          before
          (settle entry read producer receipt job)
  unfolding settle
  settle-Turned read producer (EventReceipt.exact r) before job e w less =
      accept-Turned entry Purpose.context _ before r job w.owns w.capped (known read r e)
  settle-Turned read producer EventReceipt.missing before job e w less =
      decide-Turned entry Purpose.context _ before read producer job w less
  settle-Turned read producer EventReceipt.conflict before job e w less =
      decide-Turned entry Purpose.context _ before read producer job w less
  settle-Turned read producer EventReceipt.prior_sequence_unverifiable before job e w less =
      decide-Turned entry Purpose.context _ before read producer job w less

  on_context-Turned :
      (read : ReducerContext) (before job : CommitJob)
      → IsOwner entry job
      → 2 * (3 - job.retries) + 1 < weight before
      → Turned entry Purpose.context (ok (Response.context read)) before (on_context entry read job)
  unfolding on_context
  on_context-Turned read before job w less = found read.producer
    where
      gate :
          (producer : ProducerRecord) (bad : Bool)
          → Turned entry Purpose.context (ok (Response.context read)) before (
              if bad
              then reject CommitFailure.unreconciled job
              else settle entry read producer read.receipt job)
      gate producer true =
          reject-Turned entry _ _ before CommitFailure.unreconciled job w.owns w.blank w.capped
      gate producer false = settle-Turned read producer read.receipt before job refl w less

      found :
          (producer : Option ProducerRecord)
          → Turned entry Purpose.context (ok (Response.context read)) before (elim producer [
            | none ↦ reject CommitFailure.unreconciled job
            | some p ↦
                if not (p.run_id == entry.event.run_id) || not (p.harness == entry.harness)
                then reject CommitFailure.unreconciled job
                else settle entry read p read.receipt job
          ])
      found none =
          reject-Turned entry _ _ before CommitFailure.unreconciled job w.owns w.blank w.capped
      found (some p) =
          gate p (not (p.run_id == entry.event.run_id) || not (p.harness == entry.harness))

  on_error-Turned :
      (purpose : Purpose) (a : Result StorageError Response) (e : StorageError)
      (before job : CommitJob)
      → IsOwner entry job
      → Turned entry purpose a before (on_error entry e job)
  unfolding on_error freeze_entry
  on_error-Turned purpose a e before job w =
      reject-Turned entry purpose a before (CommitFailure.storage e) _ w.owns w.blank w.capped

  stale-Turned :
      (purpose : Purpose) (a : Result StorageError Response) (before job : CommitJob)
      → IsOwner entry job
      → 2 * (3 - job.retries) + steps_left purpose ≤ weight before
      → Turned entry purpose a before (
          if ltb job.retries 3
          then refresh entry job
          else on_error entry StorageError.stale_revision job)
  unfolding refresh
  stale-Turned purpose a before job w less = elim (Bool-cases (ltb job.retries 3)) [
    | inl again ↦
        subst
          (λ (b : Bool).
            Turned entry purpose a before
              (if b then refresh entry job else on_error entry StorageError.stale_revision job))
          (sym again)
          (on _
            (record {
              owner = record {
                owns = w.owns;
                blank = w.blank;
                undone = w.undone;
                capped = ground arith;
              };
              holds = unsent refl;
              serves = reads;
            })
            refl refl (ground (arith, less, steps_left_pos purpose)))
    | inr enough ↦
        subst
          (λ (b : Bool).
            Turned entry purpose a before
              (if b then refresh entry job else on_error entry StorageError.stale_revision job))
          (sym enough) (on_error-Turned purpose a StorageError.stale_revision before job w)
  ]

  unexpected :
      (purpose : Purpose) (a : Result StorageError Response) (before job : CommitJob)
      → IsOwner entry job
      → Turned entry purpose a before (reject CommitFailure.invalid_evidence job)
  unexpected purpose a before job w =
      reject-Turned entry purpose a before CommitFailure.invalid_evidence job w.owns w.blank
        w.capped

  on_response-Turned :
      (purpose : Purpose) (response : Response) (before job : CommitJob)
      → IsOwner entry job
      → 2 * (3 - job.retries) + steps_left purpose ≤ weight before
      → Turned entry purpose (ok response) before (on_response entry purpose response job)
  unfolding on_response
  on_response-Turned Purpose.context (Response.context read) before job w le =
      on_context-Turned read before job w (omega (arith, le))
  on_response-Turned Purpose.apply (Response.committed r duplicate) before job w le =
      accept-Turned entry Purpose.apply _ before r job w.owns w.capped (stored r duplicate)
  on_response-Turned (Purpose.retire failure) (Response.retired r) before job w le =
      reject-Turned entry _ _ before failure job w.owns w.blank w.capped
  on_response-Turned purpose response before job w le =
      unexpected purpose (ok response) before job w

  on_failure-Turned :
      (purpose : Purpose) (a : Result StorageError Response) (e : StorageError)
      (before job : CommitJob)
      → IsOwner entry job
      → 2 * (3 - job.retries) + steps_left purpose ≤ weight before
      → Turned entry purpose a before (on_failure entry e job)
  unfolding on_failure
  on_failure-Turned purpose a StorageError.stale_revision before job w le =
      stale-Turned purpose a before job w le
  on_failure-Turned purpose a e before job w le = on_error-Turned purpose a e before job w

  pub respond-Turned :
      (a : Result StorageError Response) (before job : CommitJob)
      → IsOwner entry job
      → weight job ≤ weight before
      → Turned entry job.purpose a before (respond entry job.purpose a job)
  unfolding respond
  respond-Turned (ok response) before job w le =
      on_response-Turned job.purpose response before job w le
  respond-Turned (err e) before job w le = on_failure-Turned job.purpose (err e) e before job w le
