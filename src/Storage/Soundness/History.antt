-- ===== src/Storage/Soundness/History.antt =====
-- Any sequence of requests and restarts, from an empty database: crates/harbormaster/src/storage.
use omarchy_harbormaster.Common.{
  ◌≡◌, sym, subst, false, List, [], ◌∷◌, Option, none, Eq, Result, ok, err, bind_ok, ok_injective,
  passed_test, arith, Result-cases, inl, inr, ◌>>◌,
}
use omarchy_harbormaster.Common.BTreeMap
use omarchy_harbormaster.Common.BTreeMap.{get}
use omarchy_harbormaster.Protocol.Identity.{ProducerGeneration}
use omarchy_harbormaster.Storage.{StorageError}
use omarchy_harbormaster.Storage.Types.{Request, Response, Reconciliation}
use omarchy_harbormaster.Storage.Database.{Database, Json}
use omarchy_harbormaster.Storage.Attention.{pending_count}
use omarchy_harbormaster.Storage.Context
use omarchy_harbormaster.Storage.Engine.{dispatch, execute, invalidate_generations, validate}
use omarchy_harbormaster.Storage.Validation.{baseline_invalid, reconciliation}
use omarchy_harbormaster.Storage.Soundness.{IsCodec, IsIntact}
use omarchy_harbormaster.Storage.Soundness.Meeting.{apply-IsIntact}
use omarchy_harbormaster.Storage.Soundness.Registering.{reconcile-IsIntact, register-IsIntact}
use omarchy_harbormaster.Storage.Soundness.Withdrawing.{
  invalidate_generations-IsIntact, retire-IsIntact,
}

-- A request of the reducer path with the generation that entropy would give, or a restart of the
-- manager. The other requests of storage/types.rs are no steps: retention and the restoring of a
-- backup remove facts, and the legacy commit overwrites the turn of a projection alone.
pub data Step : Type 0 where
  request : Option ProducerGeneration → Request → Step
  restart : Step

module _ {Text : Type 0} where
  abbrev pub empty : Database Text
  empty = record {
    revision = 0;
    discarded = 0;
    producers = BTreeMap.empty;
    facts = [];
    projections = BTreeMap.empty;
    attention = [];
    outbox = [];
    tombstones = [];
  }

  -- A restart that fails, since the revision is exhausted, leaves the tables.
  abbrev pub reopened : Result StorageError (Database Text) → Database Text → Database Text
  reopened (err e) db = db
  reopened (ok after) db = after

  module _ ⦃t : Eq Text⦄ (json : Json Text) where
    unfoldable pub step : Step → Database Text → Database Text
    step (request fresh r) db = (execute json fresh r db).1
    step restart db = reopened (invalidate_generations none db) db

    unfoldable pub run : List Step → Database Text → Database Text
    run [] db = db
    run (s ∷ steps) db = run steps (step s db)

    valid_baseline :
        (r : Reconciliation) → reconciliation r ≡ ok tt → baseline_invalid r r.baseline ≡ false
    unfolding reconciliation
    valid_baseline r h = (passed_test _ StorageError.invalid_request _ h).0

    dispatch-IsIntact :
        (fresh : Option ProducerGeneration) (r : Request) (db : Database Text)
        {out : Response × Database Text}
        → IsCodec json
        → validate json r ≡ ok tt
        → IsIntact json db
        → dispatch json fresh r db ≡ ok out
        → IsIntact json out.1
    unfolding dispatch validate
    dispatch-IsIntact fresh (Request.context fact) db codec valid sound h =
        let (read, e, h') = bind_ok (Context.context json db fact) _ h in
        subst (λ o. IsIntact json o.1) (ok_injective h') sound
    dispatch-IsIntact fresh (Request.apply set) db codec valid sound h =
        apply-IsIntact json set db codec valid sound h
    dispatch-IsIntact fresh (Request.reconcile r) db codec valid sound h =
        reconcile-IsIntact json r fresh db (valid_baseline r valid) sound h
    dispatch-IsIntact fresh (Request.retire_producer r) db codec valid sound h =
        retire-IsIntact json r db sound h
    dispatch-IsIntact fresh (Request.register r) db codec valid sound h =
        register-IsIntact json r fresh db sound h

    -- What `execute` has done, either way.
    pub data Executed (fresh : Option ProducerGeneration) (r : Request) (db : Database Text)
        : Type 0 where
      failed : (e : StorageError) → execute json fresh r db ≡ (err e, db) → Executed fresh r db
      done :
          (response : Response) (after : Database Text)
          → validate json r ≡ ok tt
          → dispatch json fresh r db ≡ ok (response, after)
          → execute json fresh r db ≡ (ok response, after)
          → Executed fresh r db

    pub executed :
        (fresh : Option ProducerGeneration) (r : Request) (db : Database Text) → Executed fresh r db
    unfolding execute
    executed fresh r db = elim (Result-cases (validate json r >> dispatch json fresh r db)) [
      | inl (e, h) ↦ failed e (ground arith)
      | inr (out, h) ↦
          let (_, e1, e2) = bind_ok (validate json r) _ h in done out.0 out.1 e1 e2 (ground arith)
    ]

    pub execute-ok :
        (fresh : Option ProducerGeneration) (r : Request) (db after : Database Text)
        (response : Response)
        → execute json fresh r db ≡ (ok response, after)
        → (validate json r ≡ ok tt) × (dispatch json fresh r db ≡ ok (response, after))
    execute-ok fresh r db after response h = elim (executed fresh r db) [
      | failed e same ↦ absurd (ground arith)
      | done response' after' valid did same ↦ (valid, cc)
    ]

    pub ok-execute :
        (fresh : Option ProducerGeneration) (r : Request) (db : Database Text)
        (out : Response × Database Text)
        → validate json r ≡ ok tt
        → dispatch json fresh r db ≡ ok out
        → execute json fresh r db ≡ (ok out.0, out.1)
    unfolding execute
    ok-execute fresh r db out valid did = ground arith

    pub execute-IsIntact :
        (fresh : Option ProducerGeneration) (r : Request) (db : Database Text)
        → IsCodec json
        → IsIntact json db
        → IsIntact json (execute json fresh r db).1
    execute-IsIntact fresh r db codec sound = elim (executed fresh r db) [
      | failed e same ↦ subst (λ o. IsIntact json o.1) (sym same) sound
      | done response after valid did same ↦
          subst (λ o. IsIntact json o.1) (sym same)
            (dispatch-IsIntact fresh r db codec valid sound did)
    ]

    pub step-IsIntact :
        (s : Step) (db : Database Text)
        → IsCodec json
        → IsIntact json db
        → IsIntact json (step s db)
    unfolding step
    step-IsIntact (request fresh r) db codec sound = execute-IsIntact fresh r db codec sound
    step-IsIntact restart db codec sound = elim (Result-cases (invalidate_generations none db)) [
      | inl (e, h) ↦ subst (λ m. IsIntact json (reopened m db)) (sym h) sound
      | inr (after, h) ↦
          subst (λ m. IsIntact json (reopened m db)) (sym h)
            (invalidate_generations-IsIntact json db sound h)
    ]

    pub run_from-IsIntact :
        (steps : List Step) (db : Database Text)
        → IsCodec json
        → IsIntact json db
        → IsIntact json (run steps db)
    unfolding run
    run_from-IsIntact [] db codec sound = sound
    run_from-IsIntact (s ∷ steps) db codec sound =
        run_from-IsIntact steps (step s db) codec (step-IsIntact s db codec sound)

    empty-IsIntact : IsIntact json empty
    unfolding pending_count get
    empty-IsIntact = record {
      apart = tt;
      dated = tt;
      readable = tt;
      scoped = tt;
      ended = tt;
      single = λ a b p q found. cc;
      fits = omega arith;
    }

    -- The tables start empty, and there are requests of the reducer path (contexts, writes,
    -- reconciliations, retirements, registrations) and restarts, and no others. Then the tables hold
    -- what that path relies on: no two facts of a producer's generation share an event or a sequence, no
    -- fact is dated after the revision, every fact reads back, every projection shows its current
    -- turn whole or not at all, every tombstone ends a turn, no run has two active producers, and
    -- every table keeps within its limit. Of serde_json, `encode_frame` and `parse_event` it is
    -- assumed that a stored write set reads back as the fact that was written.
    pub run-IsIntact : (steps : List Step) → IsCodec json → IsIntact json (run steps empty)
    run-IsIntact steps codec = run_from-IsIntact steps empty codec empty-IsIntact
