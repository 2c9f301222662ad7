-- ===== src/Domain/Types.antt =====
-- crates/harbormaster/src/domain/types.rs and the two records of domain/mod.rs.
use omarchy_harbormaster.Common.{Bool, true, false, List, Option, Eq}
use omarchy_harbormaster.Protocol.Identity.{
  ident_dec, RunId, TurnId, ProducerId, ProducerGeneration, EventId,
}

pub data ProcessState : Type 0 where
  unknown alive exited zombie : ProcessState

pub data ObservationState : Type 0 where
  fresh stale disconnected unsupported : ObservationState

pub data TurnState : Type 0 where
  unknown working awaiting_input awaiting_approval completed failed interrupted : TurnState

unfoldable pub is_terminal : TurnState → Bool
is_terminal TurnState.completed = true
is_terminal TurnState.failed = true
is_terminal TurnState.interrupted = true
is_terminal _ = false

pub data AttentionReason : Type 0 where
  input native_approval failure connection_uncertainty completion : AttentionReason

pub data DeliveryState : Type 0 where
  pending attempted_uncertain acknowledged expired overflowed : DeliveryState

pub record RunProjection : Type 0 where
  pub run_id : RunId
  pub process : ProcessState
  pub observation : ObservationState
  pub turn : TurnState
  pub turn_id : Option TurnId

pub record TurnKey : Type 0 where
  pub producer_id : ProducerId
  pub generation : ProducerGeneration
  pub run_id : RunId
  pub turn_id : TurnId

pub record TombstoneEvidence : Type 0 where
  pub key : TurnKey
  pub outcome_id : EventId
  pub terminal : Option TurnState

pub record ReductionState : Type 0 where
  pub projection : RunProjection
  pub current_turn : Option TurnKey
  pub tombstone : Option TombstoneEvidence

pub record Effects : Type 0 where
  pub projection : RunProjection
  pub current_turn : Option TurnKey
  pub attention : List AttentionReason
  pub resolve_transient : Option TurnKey
  pub tombstone : Option TombstoneEvidence
  pub reconciliation_required : Bool

pub process_dec : Discrete ProcessState
process_dec = hlevel

pub observation_dec : Discrete ObservationState
observation_dec = hlevel

pub turn_dec : Discrete TurnState
turn_dec = hlevel

pub attention_dec : Discrete AttentionReason
attention_dec = hlevel

pub key_dec : Discrete TurnKey
key_dec = hlevel ident_dec

instance unfoldable pub process_eq : Eq ProcessState
unfolding process_dec
process_eq = record { dec = process_dec }

instance unfoldable pub observation_eq : Eq ObservationState
unfolding observation_dec
observation_eq = record { dec = observation_dec }

instance unfoldable pub turn_eq : Eq TurnState
unfolding turn_dec
turn_eq = record { dec = turn_dec }

instance unfoldable pub attention_eq : Eq AttentionReason
unfolding attention_dec
attention_eq = record { dec = attention_dec }

instance unfoldable pub key_eq : Eq TurnKey
unfolding key_dec
key_eq = record { dec = key_dec }
