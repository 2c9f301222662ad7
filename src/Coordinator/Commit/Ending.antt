-- ===== src/Coordinator/Commit/Ending.antt =====
-- A job of coordinator/commit.rs ends: it asks the database at most eight times.
use omarchy_harbormaster.Common.{
  ◌≤◌, ◌≡◌, refl, ◌∙◌, Bool, true, List, [], ◌∷◌, Option, none, some, Result, arith, length,
}
use omarchy_harbormaster.Domain.Policy.{ObservationPolicy}
use omarchy_harbormaster.Ingestion.Registry.Types.{Registry}
use omarchy_harbormaster.Storage.{StorageError}
use omarchy_harbormaster.Storage.Types.{Request, Response, Timestamp}
use omarchy_harbormaster.Coordinator.{ReplayEntry}
use omarchy_harbormaster.Coordinator.Operation.{answered}
use omarchy_harbormaster.Coordinator.Operation.Polling.{poll-answered, spent, unsent}
use omarchy_harbormaster.Coordinator.Job.{CommitJob, CommitProgress}
use omarchy_harbormaster.Coordinator.Decision.{respond}
use omarchy_harbormaster.Coordinator.Commit.{PendingCommit, new, poll, react, resume, shows}
use omarchy_harbormaster.Coordinator.Commit.Progress.{
  IsWorking, Serves, Turned, ends, on, reads, weight,
}
use omarchy_harbormaster.Coordinator.Commit.Turns.{respond-Turned, steps_left_pos}
use omarchy_harbormaster.Coordinator.Commit.Polls.{shown-Owner, shows-Turned}

pub new-IsWorking :
    (registry : Registry) (entry : ReplayEntry) (policy : ObservationPolicy)
    (accepted_at : Timestamp) (notify : Bool)
    → IsWorking entry (Request.context entry.event) (new registry entry policy accepted_at notify)
unfolding new
new-IsWorking registry entry policy accepted_at notify = record {
  owner = record { owns = refl; blank = refl; undone = refl; capped = omega arith };
  holds = unsent refl;
  serves = reads;
}

-- A pending commit that is resumed works on its unchanged request.
pub resume-IsWorking :
    (registry : Registry) (p : PendingCommit)
    → Serves p.entry p.purpose p.request
    → IsWorking p.entry p.request (resume registry p)
unfolding resume
resume-IsWorking registry p serves = record {
  owner = record { owns = refl; blank = refl; undone = refl; capped = omega arith };
  holds = unsent refl;
  serves = serves;
}

-- A job polled once for each answer of the worker.
unfoldable pub answer_all : List (Result StorageError Response) → CommitJob → Option CommitJob
answer_all [] job = some job
answer_all (a ∷ as') job = elim (poll none (answered a) job) [
  | none ↦ none
  | some (progress, job') ↦ answer_all as' job'
]

module _ (entry : ReplayEntry) where
  done_stays :
      (answers : List (Result StorageError Response)) (job : CommitJob)
      → job.done ≡ true
      → answer_all answers job ≡ some job
  unfolding answer_all poll
  done_stays [] job h = refl
  done_stays (a ∷ answers) job h = ground (arith, done_stays answers job h)

  poll-Turned :
      (a : Result StorageError Response) (request : Request) (job : CommitJob)
      → IsWorking entry request job
      → (out : CommitProgress × CommitJob) × (poll none (answered a) job ≡ some out)
        × Turned entry job.purpose a job out
  unfolding poll react
  poll-Turned a request job w =
      let operation = spent request in
      (
        shows (respond entry job.purpose a (record job { operation = operation })),
        ground (arith, w.owner.undone, w.owner.owns, poll-answered a request job.operation w.holds),
        shows-Turned entry request job.purpose a job _ (
            respond-Turned entry a job (record job { operation = operation })
              (shown-Owner entry request job operation job.progress w.owner) (omega arith)),
      )

  answer_all_next :
      (a : Result StorageError Response) (answers : List (Result StorageError Response))
      (job : CommitJob) (out : CommitProgress × CommitJob)
      → poll none (answered a) job ≡ some out
      → answer_all (a ∷ answers) job ≡ answer_all answers out.1
  unfolding answer_all
  answer_all_next a answers job out h = ground arith

  answers_end :
      (answers : List (Result StorageError Response)) (request : Request) (job : CommitJob)
      → IsWorking entry request job
      → weight job ≤ length answers
      → (left : CommitJob) × (answer_all answers job ≡ some left)
        × (left.done ≡ true)
        × (left.retries ≤ 3)
  answers_end [] request job w enough = absurd (omega (arith, steps_left_pos job.purpose, enough))
  answers_end (a ∷ answers) request job w enough =
      let (out, e, turned) = poll-Turned a request job w in
      elim turned [
        | on request' w' new' pending less ↦
            let (left, all, done, few) =
              answers_end answers request' out.1 w' (omega (arith, less, enough)) in
            (left, answer_all_next a answers job out e ∙ all, done, few)
        | ends d earned ↦ (
          out.1,
          answer_all_next a answers job out e ∙ done_stays answers out.1 d.ended,
          d.ended,
          d.limited,
        )
      ]

-- Whatever the worker answers, a new job that is polled with eight answers or more never panics, and
-- has ended with its count of stale revisions at three or less.
pub commit_ends :
    (registry : Registry) (entry : ReplayEntry) (policy : ObservationPolicy)
    (accepted_at : Timestamp) (notify : Bool) (answers : List (Result StorageError Response))
    → 8 ≤ length answers
    → (left : CommitJob) × (answer_all answers (new registry entry policy accepted_at notify)
        ≡ some left)
      × (left.done ≡ true)
      × (left.retries ≤ 3)
unfolding new
commit_ends registry entry policy accepted_at notify answers enough =
    answers_end entry answers (Request.context entry.event)
      (new registry entry policy accepted_at notify)
      (new-IsWorking registry entry policy accepted_at notify) (omega (arith, enough))
