-- ===== src/Coordinator/Commit/Durable.antt =====
-- A receipt of coordinator/commit.rs is for an event that the database holds.
use omarchy_harbormaster.Common.{
  ◌≡◌, refl, sym, ap, subst, ◌∙◌, Bool, true, false, Option, none, some, Eq, Result, ok, arith,
}
use omarchy_harbormaster.Protocol.Identity.{ProducerGeneration, Revision}
use omarchy_harbormaster.Protocol.Event.{envelope_eq}
use omarchy_harbormaster.Domain.Policy.{ObservationPolicy}
use omarchy_harbormaster.Ingestion.Registry.Types.{Registry}
use omarchy_harbormaster.Storage.{StorageError}
use omarchy_harbormaster.Storage.Types.{Request, Response, Timestamp}
use omarchy_harbormaster.Storage.Database.{Database, Json, rival}
use omarchy_harbormaster.Storage.Engine.{execute}
use omarchy_harbormaster.Storage.Soundness.{IsCodec}
use omarchy_harbormaster.Storage.Soundness.History.{Step, step}
use omarchy_harbormaster.Storage.Receipts.{execute-IsStored, fact_readable, looked_up}
use omarchy_harbormaster.Coordinator.{DurableReceipt, ReplayEntry}
use omarchy_harbormaster.Coordinator.Operation.{
  Operation, Reply, Ticket, answered, disconnected, timeout,
}
use omarchy_harbormaster.Coordinator.Operation.Polling.{Holds, queued, unsent}
use omarchy_harbormaster.Coordinator.Job.{Purpose}
use omarchy_harbormaster.Coordinator.Commit.{new}
use omarchy_harbormaster.Coordinator.Commit.Progress.{Earned, Serves, known, reads, stored, writes}
use omarchy_harbormaster.Coordinator.Commit.Ending.{new-IsWorking}
use omarchy_harbormaster.Coordinator.Commit.World.{
  Reaches, begins, changes, moves_on, Move, World, lose, move, other, poll_once, sent, serve,
  served,
}
use omarchy_harbormaster.Coordinator.Commit.Standing.{
  grown-Standing, IsHeld, IsHonest, IsReceipted, Standing, at_work, IsHeld-step, lose-Standing,
  other-Standing, over, poll-Standing, unanswered,
}

ticket-request :
    (wanted : Request) (op : Operation) (ticket : Ticket)
    → Holds wanted op
    → op.ticket ≡ some ticket
    → ticket.request ≡ wanted
ticket-request wanted op ticket (unsent e) h = absurd (cc (ap (λ o. o.ticket) e, h))
ticket-request wanted op ticket (queued e) h = cc (ap (λ o. o.ticket) e, h)

module _ {Text : Type 0} ⦃t : Eq Text⦄ (json : Json Text) (codec : IsCodec json)
    (entry : ReplayEntry) where
  -- The answer of the database to the job's request is honest.
  execute-IsHeld :
      (fresh : Option ProducerGeneration) (wanted : Request) (purpose : Purpose)
      (db after : Database Text) (a : Result StorageError Response) (r : Revision)
      → Serves entry purpose wanted
      → execute json fresh wanted db ≡ (a, after)
      → Earned purpose a r
      → IsHeld json entry r after
  execute-IsHeld fresh wanted Purpose.context db after a r reads did (known read r' e) =
      let (row, found, text, dated) = looked_up json fresh db after entry.event read r' did e in
      record { row = row; found = found; read = text; dated = dated }
  execute-IsHeld fresh wanted Purpose.apply db after a r (writes set same) did (stored r' b) =
      let (valid, s) = execute-IsStored json set fresh db after r' b did in
      record {
        row = s.row;
        found = subst (λ f. rival f after.facts ≡ some s.row) same s.found;
        read = fact_readable json set s.row codec valid s.text ∙ ap ok same;
        dated = s.dated;
      }
  execute-IsHeld fresh wanted (Purpose.retire failure) db after a r serves did earned =
      elim earned [ ]

  sent-IsHonest :
      (delivered : Bool) (purpose : Purpose) (answer : Result StorageError Response)
      (db : Database Text)
      → ((r : Revision) → Earned purpose answer r → IsHeld json entry r db)
      → IsHonest json entry purpose (sent delivered answer) db
  unfolding sent
  sent-IsHonest true purpose answer db held a r e earned =
      held r (subst (λ x. Earned purpose x r) (cc e) earned)
  sent-IsHonest false purpose answer db held a r e earned = absurd (cc e)

  served-Standing :
      (fresh : Option ProducerGeneration) (delivered : Bool) (ticket : Option Ticket)
      (reply : Reply) (w : World Text)
      → w.job.operation.ticket ≡ ticket
      → w.reply ≡ reply
      → Standing json entry w
      → Standing json entry (served json fresh delivered ticket reply w)
  unfolding served step
  served-Standing fresh delivered (some ticket) timeout w e re (at_work wanted work honest) =
      at_work wanted work (
        sent-IsHonest delivered w.job.purpose _ _ (λ r earned.
          execute-IsHeld fresh ticket.request w.job.purpose w.database _ _ r
            (subst (Serves entry w.job.purpose)
              (sym (ticket-request wanted w.job.operation ticket work.holds e)) work.serves)
            refl earned))
  served-Standing fresh delivered (some ticket) timeout w e re (over ended receipted) =
      over ended (λ receipt h.
        let was = receipted receipt h in
        record {
          event = was.event;
          harness = was.harness;
          held =
              IsHeld-step json entry (Step.request fresh ticket.request) receipt.revision w.database
                was.held;
        })
  served-Standing fresh delivered (some ticket) (answered a) w e re s = s
  served-Standing fresh delivered (some ticket) disconnected w e re s = s
  served-Standing fresh delivered none reply w e re s = s

  move-Standing :
      (m : Move) (w : World Text) → Standing json entry w → Standing json entry (move json m w)
  unfolding move
  move-Standing (other s) w h = other-Standing json entry s w h
  move-Standing lose w h = lose-Standing json entry w h
  move-Standing (poll_once failure) w h = poll-Standing json entry failure w h
  move-Standing (serve fresh delivered) w h =
      served-Standing fresh delivered w.job.operation.ticket w.reply w refl refl h

  reached-Standing :
      (start w : World Text)
      → Reaches json start w
      → Standing json entry start
      → Standing json entry w
  reached-Standing start w begins h = h
  reached-Standing start w (moves_on {w = v} m before) h =
      move-Standing m v (reached-Standing start v before h)
  reached-Standing start w (changes {w = v} after grows before) h =
      grown-Standing json entry after v grows (reached-Standing start v before h)

  receipt-IsReceipted :
      (w : World Text) (receipt : DurableReceipt)
      → Standing json entry w
      → w.job.receipt ≡ some receipt
      → IsReceipted json entry receipt w.database
  receipt-IsReceipted w receipt (at_work wanted work honest) h =
      absurd (ground (arith, work.owner.blank))
  receipt-IsReceipted w receipt (over ended receipted) h = receipted receipt h

-- The job of an entry, started beside a database.
abbrev pub started :
    {Text : Type 0}
    → Registry
    → ReplayEntry
    → ObservationPolicy
    → Timestamp
    → Bool
    → Database Text
    → World Text
started registry entry policy accepted_at notify db = record {
  database = db;
  job = new registry entry policy accepted_at notify;
  reply = timeout;
}

-- The job polls, the database's thread serves it, its requests and answers are lost; other requests
-- of the reducer path, restarts, and other changes of the tables that remove no fact come between:
-- in any order of these, a receipt that the job has is for its entry's event, which the database
-- holds at the receipt's revision. Retention and the restoring of a backup remove facts and may not
-- come between. Of serde_json, `encode_frame` and `parse_event` it is assumed that a stored write set
-- reads back as the fact that was written.
pub receipt_durable :
    {Text : Type 0}
    → ⦃t : Eq Text⦄
    → (json : Json Text) (db : Database Text) (registry : Registry) (entry : ReplayEntry)
      (policy : ObservationPolicy) (accepted_at : Timestamp) (notify : Bool) (w : World Text)
      (receipt : DurableReceipt)
    → IsCodec json
    → Reaches json (started registry entry policy accepted_at notify db) w
    → w.job.receipt ≡ some receipt
    → IsReceipted json entry receipt w.database
receipt_durable json db registry entry policy accepted_at notify w receipt codec reached h =
    let start : World _ = started registry entry policy accepted_at notify db in
    receipt-IsReceipted json codec entry w receipt
      (reached-Standing json codec entry start w reached (
        at_work (Request.context entry.event)
          (new-IsWorking registry entry policy accepted_at notify)
          (unanswered json entry start.job.purpose start.database)))
      h
