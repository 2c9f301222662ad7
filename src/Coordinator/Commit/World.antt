-- ===== src/Coordinator/Commit/World.antt =====
-- A job of coordinator/commit.rs beside the database's thread: the thread serves the job's request
-- once it is queued, other requests and restarts come between, and the job polls as it likes.
use omarchy_harbormaster.Common.{Bool, true, false, List, [], ◌∷◌, Option, none, some, Eq, Result}
use omarchy_harbormaster.Protocol.Identity.{ProducerGeneration}
use omarchy_harbormaster.Storage.{StorageError}
use omarchy_harbormaster.Storage.Types.{Response}
use omarchy_harbormaster.Storage.Database.{Database, Json}
use omarchy_harbormaster.Storage.Engine.{execute}
use omarchy_harbormaster.Storage.Soundness.History.{Step, step}
use omarchy_harbormaster.Storage.Receipts.Growth.{Grows}
use omarchy_harbormaster.Coordinator.Operation.{
  Reply, SubmitFailure, Ticket, answered, disconnected, timeout,
}
use omarchy_harbormaster.Coordinator.Job.{CommitJob, CommitProgress}
use omarchy_harbormaster.Coordinator.Commit.{poll}

pub record World (Text : Type 0) : Type 0 where
  pub database : Database Text
  pub job : CommitJob
  -- what the reply channel of the job's ticket has
  pub reply : Reply

pub data Move : Type 0 where
  -- another request of the reducer path, or a restart
  other : Step → Move
  -- the thread serves the job's queued request; its answer is sent, or lost
  serve : Option ProducerGeneration → Bool → Move
  -- the request is lost with the sender of its answer
  lose : Move
  -- the job polls; a submission is taken, or refused
  poll_once : Option SubmitFailure → Move

-- A sender that goes leaves what it has sent.
unfoldable pub abandoned : Option Ticket → Reply → Reply
abandoned (some ticket) timeout = disconnected
abandoned _ reply = reply

unfoldable pub sent : Bool → Result StorageError Response → Reply
sent true response = answered response
sent false response = disconnected

-- A new operation has a new channel.
unfoldable pub channel : Option Ticket → Reply → Reply
channel none reply = timeout
channel (some ticket) reply = reply

module _ {Text : Type 0} where
  -- The job that a poll leaves; a panic would leave the world as it was.
  unfoldable pub polled : Option (CommitProgress × CommitJob) → World Text → World Text
  polled none w = w
  polled (some (progress, job)) w = record w {
    job = job;
    reply = channel job.operation.ticket w.reply;
  }

  module _ ⦃t : Eq Text⦄ (json : Json Text) where
    -- The thread serves a queued request that it has not answered, once.
    unfoldable pub served :
        Option ProducerGeneration → Bool → Option Ticket → Reply → World Text → World Text
    served fresh delivered (some ticket) timeout w =
        let (response, after) = execute json fresh ticket.request w.database in
        record w { database = after; reply = sent delivered response }
    served fresh delivered _ _ w = w

    unfoldable pub move : Move → World Text → World Text
    move (other s) w = record w { database = step json s w.database }
    move (serve fresh delivered) w = served fresh delivered w.job.operation.ticket w.reply w
    move lose w = record w { reply = abandoned w.job.operation.ticket w.reply }
    move (poll_once failure) w = polled (poll failure w.reply w.job) w

    unfoldable pub moves : List Move → World Text → World Text
    moves [] w = w
    moves (m ∷ ms) w = moves ms (move m w)

    -- One world leads to another by moves, and by changes of the tables that remove no fact.
    pub data Reaches (start : World Text) : World Text → Type 0 where
      begins : Reaches start start
      moves_on : {w : World Text} (m : Move) → Reaches start w → Reaches start (move m w)
      changes :
          {w : World Text} (after : Database Text)
          → Grows w.database after
          → Reaches start w
          → Reaches start (record w { database = after })

    pub moves-Reaches :
        (ms : List Move) (start w : World Text) → Reaches start w → Reaches start (moves ms w)
    unfolding moves
    moves-Reaches [] start w r = r
    moves-Reaches (m ∷ ms) start w r = moves-Reaches ms start (move m w) (moves_on m r)
