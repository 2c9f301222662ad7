-- ===== src/Coordinator/Commit/Polls.antt =====
-- Polls of a job of coordinator/commit.rs until it has ended.
use omarchy_harbormaster.Common.{
  ◌≡◌, ◌⊎◌, inl, inr, refl, sym, subst, Option, some, Result, err, arith,
}
use omarchy_harbormaster.Protocol.Identity.{Revision}
use omarchy_harbormaster.Storage.{StorageError}
use omarchy_harbormaster.Storage.Types.{Request, Response}
use omarchy_harbormaster.Coordinator.{ReplayEntry}
use omarchy_harbormaster.Coordinator.Operation.{Operation, Poll, Reply, SubmitFailure, answered}
use omarchy_harbormaster.Coordinator.Operation.Polling.{
  Holds, Polled, got, lost, poll-Polled, quiet, unqueued,
}
use omarchy_harbormaster.Coordinator.Job.{CommitJob, CommitProgress, Purpose}
use omarchy_harbormaster.Coordinator.Decision.{freeze_entry, respond}
use omarchy_harbormaster.Coordinator.Commit.{poll, react, shows}
use omarchy_harbormaster.Coordinator.Commit.Progress.{IsDone, IsOwner, IsWorking, Turned, ends, on}
use omarchy_harbormaster.Coordinator.Commit.Turns.{respond-Turned}

unknown≢committed : (r : Revision) → CommitProgress.unknown_outcome ≡ CommitProgress.committed r → ⊥
unknown≢committed r h = cc

backpressure≢committed :
    (r : Revision) → CommitProgress.backpressure ≡ CommitProgress.committed r → ⊥
backpressure≢committed r h = cc

pending≢committed : (r : Revision) → CommitProgress.pending ≡ CommitProgress.committed r → ⊥
pending≢committed r h = cc

-- What a poll makes of a job at work: it waits on, it has lost its answer, or it turns on an answer,
-- the worker's or a refusal to queue.
pub data After (entry : ReplayEntry) (request : Request) (reply : Reply) (job : CommitJob)
    (out : CommitProgress × CommitJob) : Type 0 where
  waits :
      IsWorking entry request out.1
      → out.1.purpose ≡ job.purpose
      → ((r : Revision) → out.0 ≡ CommitProgress.committed r → ⊥)
      → After entry request reply job out
  gives_up :
      IsDone entry out.0 out.1
      → out.0 ≡ CommitProgress.unknown_outcome
      → After entry request reply job out
  turns :
      (a : Result StorageError Response)
      → (reply ≡ answered a) ⊎ ((e : StorageError) × (a ≡ err e))
      → Turned entry job.purpose a job out
      → After entry request reply job out

module _ (entry : ReplayEntry) (request : Request) where
  pub shown-Owner :
      (job : CommitJob) (operation : Operation) (progress : CommitProgress)
      → IsOwner entry job
      → IsOwner entry (record job { operation = operation; progress = progress })
  shown-Owner job operation progress w = record {
    owns = w.owns;
    blank = w.blank;
    undone = w.undone;
    capped = w.capped;
  }

  pub shows-Turned :
      (purpose : Purpose) (a : Result StorageError Response) (before : CommitJob)
      (out : CommitProgress × CommitJob)
      → Turned entry purpose a before out
      → Turned entry purpose a before (shows out)
  shows-Turned purpose a before out (on request' w new' e less) =
      on request'
        (record {
          owner = shown-Owner out.1 out.1.operation out.0 w.owner;
          holds = w.holds;
          serves = w.serves;
        })
        new' e less
  shows-Turned purpose a before out (ends d earned) =
      ends (record { owns = d.owns; ended = d.ended; limited = d.limited; receipted = d.receipted })
        earned

  react_waits :
      (reply : Reply) (operation : Operation) (progress : CommitProgress) (job : CommitJob)
      → IsWorking entry request job
      → Holds request operation
      → ((r : Revision) → progress ≡ CommitProgress.committed r → ⊥)
      → After entry request reply job (shows (progress, record job { operation = operation }))
  react_waits reply operation progress job w holds quiet' =
      waits
        (record {
          owner = shown-Owner job operation progress w.owner;
          holds = holds;
          serves = w.serves;
        })
        refl quiet'

  react_turns :
      (reply : Reply) (operation : Operation) (a : Result StorageError Response) (job : CommitJob)
      → IsWorking entry request job
      → (reply ≡ answered a) ⊎ ((e : StorageError) × (a ≡ err e))
      → After entry request reply job
          (shows (respond entry job.purpose a (record job { operation = operation })))
  react_turns reply operation a job w from = turns a from (
      shows-Turned job.purpose a job _ (
        respond-Turned entry a job (record job { operation = operation })
          (shown-Owner job operation job.progress w.owner) (omega arith)))

  react-After :
      (reply : Reply) (p : Poll) (operation : Operation) (job : CommitJob)
      → IsWorking entry request job
      → Polled request reply p operation
      → After entry request reply job (shows (react entry p (record job { operation = operation })))
  unfolding react freeze_entry
  react-After reply p operation job w (quiet (inl e) holds) =
      subst
        (λ x.
          After entry request reply job
            (shows (react entry x (record job { operation = operation }))))
        (sym e) (react_waits reply operation CommitProgress.pending job w holds pending≢committed)
  react-After reply p operation job w (quiet (inr e) holds) =
      subst
        (λ x.
          After entry request reply job
            (shows (react entry x (record job { operation = operation }))))
        (sym e)
        (react_waits reply operation CommitProgress.backpressure job w holds backpressure≢committed)
  react-After reply p operation job w (unqueued e r holds) =
      subst
        (λ x.
          After entry request reply job
            (shows (react entry x (record job { operation = operation }))))
        (sym r) (react_turns reply operation (err e) job w (inr (e, refl)))
  react-After reply p operation job w (lost e) =
      subst
        (λ x.
          After entry request reply job
            (shows (react entry x (record job { operation = operation }))))
        (sym e)
        (gives_up
          (record {
            owns = w.owner.owns;
            ended = refl;
            limited = w.owner.capped;
            receipted = inl (w.owner.blank, unknown≢committed);
          })
          refl)
  react-After reply p operation job w (got a e r) =
      subst
        (λ x.
          After entry request reply job
            (shows (react entry x (record job { operation = operation }))))
        (sym r) (react_turns reply operation a job w (inl e))

  -- A job at work never panics.
  pub poll-After :
      (failure : Option SubmitFailure) (reply : Reply) (job : CommitJob)
      → IsWorking entry request job
      → (out : CommitProgress × CommitJob) × (poll failure reply job ≡ some out)
        × After entry request reply job out
  unfolding poll
  poll-After failure reply job w =
      let ((p, operation), e, polled) = poll-Polled failure reply request job.operation w.holds in
      (
        shows (react entry p (record job { operation = operation })),
        ground (arith, w.owner.undone, w.owner.owns, e),
        react-After reply p operation job w polled,
      )
