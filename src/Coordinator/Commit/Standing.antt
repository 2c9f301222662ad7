-- ===== src/Coordinator/Commit/Standing.antt =====
-- What holds of a job of coordinator/commit.rs and of its channel while the database goes on.
use omarchy_harbormaster.Common.{
  ◌≡◌, inl, inr, sym, subst, true, Option, none, some, Eq, Result, ok, err, arith,
}
use omarchy_harbormaster.Protocol.Identity.{Revision}
use omarchy_harbormaster.Protocol.Event.{envelope_eq}
use omarchy_harbormaster.Storage.{StorageError}
use omarchy_harbormaster.Storage.Types.{Request, Response}
use omarchy_harbormaster.Storage.Database.{Database, FactRow, Json, rival}
use omarchy_harbormaster.Storage.Context.{decode_fact}
use omarchy_harbormaster.Storage.Soundness.History.{Step, step}
use omarchy_harbormaster.Storage.Receipts.Growth.{Grows, grown_stored, step_stored}
use omarchy_harbormaster.Coordinator.{DurableReceipt, ReplayEntry}
use omarchy_harbormaster.Coordinator.Operation.{
  Reply, SubmitFailure, Ticket, answered, disconnected, timeout,
}
use omarchy_harbormaster.Coordinator.Job.{CommitJob, CommitProgress, Purpose}
use omarchy_harbormaster.Coordinator.Commit.{poll}
use omarchy_harbormaster.Coordinator.Commit.Progress.{
  Earned, IsDone, IsWorking, Turned, ends, known, on, stored,
}
use omarchy_harbormaster.Coordinator.Commit.Polls.{After, gives_up, poll-After, turns, waits}
use omarchy_harbormaster.Coordinator.Commit.World.{
  World, abandoned, channel, lose, move, other, poll_once, polled,
}

Earned-ok :
    (purpose : Purpose) (e : StorageError) (a : Result StorageError Response) (r : Revision)
    → Earned purpose a r
    → a ≡ err e
    → ⊥
Earned-ok Purpose.context e a r (known read r' h) same = cc
Earned-ok Purpose.apply e a r (stored r' duplicate) same = cc
Earned-ok (Purpose.retire failure) e a r earned same = elim earned [ ]

poll_done :
    (failure : Option SubmitFailure) (reply : Reply) (job : CommitJob)
    → job.done ≡ true
    → poll failure reply job ≡ some (job.progress, job)
unfolding poll
poll_done failure reply job h = ground (arith, h)

module _ {Text : Type 0} ⦃t : Eq Text⦄ (json : Json Text) (entry : ReplayEntry) where
  -- The tables hold the entry's event, readable, at this revision.
  pub record IsHeld (r : Revision) (db : Database Text) : Type 0 where
    pub row : FactRow Text
    pub found : rival entry.event db.facts ≡ some row
    pub read : decode_fact json row.write_set ≡ ok entry.event
    pub dated : row.revision ≡ r

  -- A revision that the answer in the channel gives is one at which the event is held.
  abbrev pub IsHonest : Purpose → Reply → Database Text → Type 0
  IsHonest purpose reply db =
      (a : Result StorageError Response) (r : Revision)
      → reply ≡ answered a
      → Earned purpose a r
      → IsHeld r db

  pub record IsReceipted (receipt : DurableReceipt) (db : Database Text) : Type 0 where
    pub event : receipt.event ≡ entry.event
    pub harness : receipt.harness ≡ entry.harness
    pub held : IsHeld receipt.revision db

  pub data Standing (w : World Text) : Type 0 where
    at_work :
        (request : Request)
        → IsWorking entry request w.job
        → IsHonest w.job.purpose w.reply w.database
        → Standing w
    over :
        w.job.done ≡ true
        → ((receipt : DurableReceipt)
            → w.job.receipt ≡ some receipt
            → IsReceipted receipt w.database)
        → Standing w

  pub IsHeld-step :
      (s : Step) (r : Revision) (db : Database Text) → IsHeld r db → IsHeld r (step json s db)
  IsHeld-step s r db h = record {
    row = h.row;
    found = step_stored json entry.event s db h.found;
    read = h.read;
    dated = h.dated;
  }

  IsHeld-kept :
      (r : Revision) (db after : Database Text) → Grows db after → IsHeld r db → IsHeld r after
  IsHeld-kept r db after grows h = record {
    row = h.row;
    found = grown_stored json entry.event db after grows h.found;
    read = h.read;
    dated = h.dated;
  }

  pub grown-Standing :
      (after : Database Text) (w : World Text)
      → Grows w.database after
      → Standing w
      → Standing (record w { database = after })
  grown-Standing after w grows (at_work wanted work honest) =
      at_work wanted work
        (λ a r e earned. IsHeld-kept r w.database after grows (honest a r e earned))
  grown-Standing after w grows (over ended receipted) = over ended (λ receipt e.
      let was = receipted receipt e in
      record {
        event = was.event;
        harness = was.harness;
        held = IsHeld-kept receipt.revision w.database after grows was.held;
      })

  pub other-Standing : (s : Step) (w : World Text) → Standing w → Standing (move json (other s) w)
  unfolding move
  other-Standing s w (at_work wanted work honest) =
      at_work wanted work (λ a r e earned. IsHeld-step s r w.database (honest a r e earned))
  other-Standing s w (over ended receipted) = over ended (λ receipt e.
      let was = receipted receipt e in
      record {
        event = was.event;
        harness = was.harness;
        held = IsHeld-step s receipt.revision w.database was.held;
      })

  pub unanswered : (purpose : Purpose) (db : Database Text) → IsHonest purpose timeout db
  unanswered purpose db a r e earned = absurd cc

  abandoned-IsHonest :
      (purpose : Purpose) (db : Database Text) (ticket : Option Ticket) (reply : Reply)
      → IsHonest purpose reply db
      → IsHonest purpose (abandoned ticket reply) db
  unfolding abandoned
  abandoned-IsHonest purpose db (some ticket) timeout h a r e earned = absurd cc
  abandoned-IsHonest purpose db (some ticket) (answered b) h a r e earned = h a r e earned
  abandoned-IsHonest purpose db (some ticket) disconnected h a r e earned = h a r e earned
  abandoned-IsHonest purpose db none reply h a r e earned = h a r e earned

  new_channel :
      (purpose : Purpose) (db : Database Text) (reply : Reply)
      → IsHonest purpose (channel none reply) db
  unfolding channel
  new_channel purpose db reply = unanswered purpose db

  channel-IsHonest :
      (purpose : Purpose) (db : Database Text) (ticket : Option Ticket) (reply : Reply)
      → IsHonest purpose reply db
      → IsHonest purpose (channel ticket reply) db
  unfolding channel
  channel-IsHonest purpose db (some ticket) reply h = h
  channel-IsHonest purpose db none reply h = new_channel purpose db reply

  pub lose-Standing : (w : World Text) → Standing w → Standing (move json lose w)
  unfolding move
  lose-Standing w (at_work wanted work honest) =
      at_work wanted work
        (abandoned-IsHonest w.job.purpose w.database w.job.operation.ticket w.reply honest)
  lose-Standing w (over ended receipted) = over ended receipted

  ended-IsReceipted :
      (progress : CommitProgress) (job : CommitJob) (db : Database Text) (receipt : DurableReceipt)
      → IsDone entry progress job
      → ((r : Revision) → progress ≡ CommitProgress.committed r → IsHeld r db)
      → job.receipt ≡ some receipt
      → IsReceipted receipt db
  ended-IsReceipted progress job db receipt ended held e = elim ended.receipted [
    | inl (blank, _) ↦ absurd (ground (arith, blank))
    | inr (r, shown, given) ↦ record {
      event = ground (arith, given);
      harness = ground (arith, given);
      held = subst (λ n. IsHeld n db) (ground (arith, given)) (held r shown);
    }
  ]

  turned-Standing :
      (w : World Text) (a : Result StorageError Response) (out : CommitProgress × CommitJob)
      → ((r : Revision) → Earned w.job.purpose a r → IsHeld r w.database)
      → Turned entry w.job.purpose a w.job out
      → Standing (polled (some out) w)
  unfolding polled
  turned-Standing w a out held (on wanted work new' e less) = at_work wanted work (
      subst (λ o. IsHonest out.1.purpose (channel o.ticket w.reply) w.database) (sym new')
        (new_channel out.1.purpose w.database w.reply))
  turned-Standing w a out held (ends ended earned) = over ended.ended (λ receipt.
      ended-IsReceipted out.0 out.1 w.database receipt ended (λ r e. held r (earned r e)))

  done-Standing :
      (w : World Text)
      → w.job.done ≡ true
      → ((receipt : DurableReceipt) → w.job.receipt ≡ some receipt → IsReceipted receipt w.database)
      → Standing (polled (some (w.job.progress, w.job)) w)
  unfolding polled
  done-Standing w ended receipted = over ended receipted

  -- A poll hands out a receipt only for an answer that has earned it.
  after-Standing :
      (wanted : Request) (w : World Text) (out : CommitProgress × CommitJob)
      → IsHonest w.job.purpose w.reply w.database
      → After entry wanted w.reply w.job out
      → Standing (polled (some out) w)
  unfolding polled
  after-Standing wanted w out honest (waits work same quiet) = at_work wanted work (
      subst (λ p. IsHonest p (channel out.1.operation.ticket w.reply) w.database) (sym same)
        (channel-IsHonest w.job.purpose w.database out.1.operation.ticket w.reply honest))
  after-Standing wanted w out honest (gives_up ended unknown) = over ended.ended (λ receipt.
      ended-IsReceipted out.0 out.1 w.database receipt ended (λ r e. absurd (cc unknown)))
  after-Standing wanted w out honest (turns a (inl e) turned) =
      turned-Standing w a out (λ r earned. honest a r e earned) turned
  after-Standing wanted w out honest (turns a (inr (e, same)) turned) =
      turned-Standing w a out (λ r earned. absurd (Earned-ok w.job.purpose e a r earned same))
        turned

  pub poll-Standing :
      (failure : Option SubmitFailure) (w : World Text)
      → Standing w
      → Standing (move json (poll_once failure) w)
  unfolding move
  poll-Standing failure w (at_work wanted work honest) =
      let (out, e, after) = poll-After entry wanted failure w.reply w.job work in
      subst (λ o. Standing (polled o w)) (sym e) (after-Standing wanted w out honest after)
  poll-Standing failure w (over ended receipted) =
      subst (λ o. Standing (polled o w)) (sym (poll_done failure w.reply w.job ended))
        (done-Standing w ended receipted)
