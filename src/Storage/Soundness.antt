-- ===== src/Storage/Soundness.antt =====
-- What holds of the tables of crates/harbormaster/src/storage between two transactions.
pub mod Facts
pub mod Producers
pub mod Rows
pub mod Applying
pub mod Meeting
pub mod Registering
pub mod Withdrawing
pub mod History
use omarchy_harbormaster.Common.{
  ℕ, ◌≤◌, ◌≡◌, Bool, true, false, not, ◌&&◌, ◌||◌, List, [], ◌∷◌, Option, none, some, ◌==◌, nat_eq,
  Result, ok, ltb, is_some_and, is_none, length, All,
}
use omarchy_harbormaster.Common.BTreeMap.{BTreeMap, get, len, empty}
use omarchy_harbormaster.Protocol.Identity.{ident_eq, ProducerId, RunId, Revision}
use omarchy_harbormaster.Protocol.Event.{EventEnvelope}
use omarchy_harbormaster.Domain.Types.{is_terminal}
use omarchy_harbormaster.Storage.Types.{
  ReducerWrite, max_attention, max_facts, max_outbox_audit, max_outbox_pending, max_runs,
  max_tombstones,
}
use omarchy_harbormaster.Storage.Database.{
  Database, FactRow, Json, ProducerRow, ProjectionRow, TombstoneRow,
}
use omarchy_harbormaster.Storage.Context.{decode_fact}
use omarchy_harbormaster.Storage.Reduction.Frames.{FitsOutbox}

-- What serde_json writes of a set whose fact fits a frame (`encode_frame`) reads back, through
-- serde_json and `parse_event`, as that fact.
abbrev pub IsCodec : {Text : Type 0} → Json Text → Type 0
IsCodec {Text} json =
    (set : ReducerWrite) (text : Text)
    → json.to_vec set ≡ some text
    → json.frame_fits set.fact ≡ true
    → json.fact text ≡ some set.fact

module _ {Text : Type 0} where
  -- Two facts share a primary key or a unique sequence.
  abbrev pub clash : FactRow Text → FactRow Text → Bool
  clash a b =
      a.producer == b.producer
      && a.generation == b.generation
      && (a.event == b.event || a.seq == b.seq)

  abbrev pub Apart : List (FactRow Text) → Type 0
  Apart [] = Unit
  Apart (row ∷ rows) = All (λ other. clash row other ≡ false) rows × Apart rows

  abbrev pub IsDated : Revision → FactRow Text → Type 0
  IsDated revision row = row.revision ≤ revision

  abbrev pub IsReadable : Json Text → FactRow Text → Type 0
  IsReadable json row = (fact : EventEnvelope) × (decode_fact json row.write_set ≡ ok fact)

-- The projection shows a current turn exactly when it shows whose turn it is.
pub data IsScoped (entry : RunId × ProjectionRow) : Type 0 where
  owned :
      is_none entry.1.producer ≡ false
      → is_none entry.1.generation ≡ false
      → is_none entry.1.turn_id ≡ false
      → IsScoped entry
  free : entry.1.producer ≡ none → entry.1.generation ≡ none → IsScoped entry

abbrev pub HasEnded : TombstoneRow → Type 0
HasEnded row = is_some_and row.terminal (λ state. not (is_terminal state)) ≡ false

-- At most one producer observes a run.
abbrev pub OneActive : BTreeMap ProducerId ProducerRow → Type 0
OneActive producers =
    (a b : ProducerId) (p q : ProducerRow)
    → get a producers ≡ some p
    → get b producers ≡ some q
    → p.active ≡ true
    → q.active ≡ true
    → p.run ≡ q.run
    → a ≡ b

module _ {Text : Type 0} where
  pub record Fits (db : Database Text) : Type 0 where
    pub facts : length db.facts ≤ max_facts
    pub producers : len db.producers ≤ max_runs
    pub projections : len db.projections ≤ max_runs
    pub attention : length db.attention ≤ max_attention
    pub outbox : FitsOutbox db.outbox
    pub tombstones : length db.tombstones ≤ max_tombstones

  pub record IsIntact (json : Json Text) (db : Database Text) : Type 0 where
    pub apart : Apart db.facts
    pub dated : All (IsDated db.revision) db.facts
    pub readable : All (IsReadable json) db.facts
    pub scoped : All IsScoped db.projections
    pub ended : All HasEnded db.tombstones
    pub single : OneActive db.producers
    pub fits : Fits db
