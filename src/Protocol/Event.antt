-- ===== src/Protocol/Event.antt =====
-- crates/harbormaster/src/protocol/event.rs: the metadata-only observations of a producer.
use omarchy_harbormaster.Common.{
  ℕ, suc, ◌≡◌, refl, ◌||◌, not, List, [], ◌∷◌, Option, none, some, Eq, ◌==◌, ltb, ℕ_discrete,
  nat_eq, length, if◌then◌else◌, Result, ok, err,
}
use omarchy_harbormaster.Common.BTreeSet
use omarchy_harbormaster.Common.BTreeSet.{Ord}
use omarchy_harbormaster.Protocol.{ProtocolError, invalid_frame}
use omarchy_harbormaster.Protocol.Identity.{
  ident_dec, Seq, EventId, ProducerId, ProducerGeneration, RunId, TurnId, HarnessSessionId,
  AdapterVersion,
}

pub data HarnessKind : Type 0 where
  hermes claude codex : HarnessKind

pub harness_dec : Discrete HarnessKind
harness_dec = hlevel

instance unfoldable pub harness_eq : Eq HarnessKind
unfolding harness_dec
harness_eq = record { dec = harness_dec }

pub data EventKind : Type 0 where
  run_started run_exited : EventKind
  turn_started turn_awaiting_input turn_awaiting_approval : EventKind
  turn_completed turn_failed turn_interrupted producer_health : EventKind

pub kind_dec : Discrete EventKind
kind_dec = hlevel

instance unfoldable pub kind_eq : Eq EventKind
unfolding kind_dec
kind_eq = record { dec = kind_dec }

-- `EventKind::ALL`
abbrev pub all_kinds : List EventKind
all_kinds =
    run_started ∷ run_exited ∷ turn_started ∷ turn_awaiting_input ∷ turn_awaiting_approval
    ∷ turn_completed ∷ turn_failed ∷ turn_interrupted ∷ producer_health ∷ []

pub record RunStartedPayload : Type 0 where
  pub harness_session_id : Option HarnessSessionId

pub data TerminationReason : Type 0 where
  signaled lost unknown : TerminationReason

-- An `i32`; `negative n` is -(n + 1).
pub data ExitCode : Type 0 where
  nonnegative negative : ℕ → ExitCode

pub data RunExitedPayload : Type 0 where
  exit_code : ExitCode → RunExitedPayload
  terminated : TerminationReason → RunExitedPayload

pub record TurnPayload : Type 0 where
  pub turn_id : TurnId

pub data FailureReason : Type 0 where
  harness_error cancelled timed_out unknown : FailureReason

pub record TurnFailedPayload : Type 0 where
  pub turn_id : TurnId
  pub reason : FailureReason

pub record HealthPayload : Type 0 where
  pub adapter_version : AdapterVersion
  pub signals : List EventKind

pub data EventPayload : Type 0 where
  run_started : RunStartedPayload → EventPayload
  run_exited : RunExitedPayload → EventPayload
  turn_started turn_awaiting_input turn_awaiting_approval : TurnPayload → EventPayload
  turn_completed : TurnPayload → EventPayload
  turn_failed : TurnFailedPayload → EventPayload
  turn_interrupted : TurnPayload → EventPayload
  producer_health : HealthPayload → EventPayload

-- `EventPayload::turn_id`
unfoldable pub turn_id : EventPayload → Option TurnId
turn_id (EventPayload.turn_started value) = some value.turn_id
turn_id (EventPayload.turn_awaiting_input value) = some value.turn_id
turn_id (EventPayload.turn_awaiting_approval value) = some value.turn_id
turn_id (EventPayload.turn_completed value) = some value.turn_id
turn_id (EventPayload.turn_interrupted value) = some value.turn_id
turn_id (EventPayload.turn_failed value) = some value.turn_id
turn_id (EventPayload.run_started _) = none
turn_id (EventPayload.run_exited _) = none
turn_id (EventPayload.producer_health _) = none

-- `EventPayload::kind`
unfoldable pub kind : EventPayload → EventKind
kind (EventPayload.run_started _) = run_started
kind (EventPayload.run_exited _) = run_exited
kind (EventPayload.turn_started _) = turn_started
kind (EventPayload.turn_awaiting_input _) = turn_awaiting_input
kind (EventPayload.turn_awaiting_approval _) = turn_awaiting_approval
kind (EventPayload.turn_completed _) = turn_completed
kind (EventPayload.turn_failed _) = turn_failed
kind (EventPayload.turn_interrupted _) = turn_interrupted
kind (EventPayload.producer_health _) = producer_health

pub record EventEnvelope : Type 0 where
  pub event_id : EventId
  pub producer_id : ProducerId
  pub generation : ProducerGeneration
  pub seq : Seq
  pub run_id : RunId
  pub event : EventPayload

pub envelope_dec : Discrete EventEnvelope
envelope_dec = hlevel (ident_dec, ℕ_discrete)

instance unfoldable pub envelope_eq : Eq EventEnvelope
unfolding envelope_dec
envelope_eq = record { dec = envelope_dec }

-- The derived order of the kinds.
abbrev pub kind_rank : EventKind → ℕ
kind_rank run_started = 0
kind_rank run_exited = 1
kind_rank turn_started = 2
kind_rank turn_awaiting_input = 3
kind_rank turn_awaiting_approval = 4
kind_rank turn_completed = 5
kind_rank turn_failed = 6
kind_rank turn_interrupted = 7
kind_rank producer_health = 8

abbrev pub nth_kind : List EventKind → ℕ → EventKind
nth_kind [] n = producer_health
nth_kind (k ∷ ks) ℕ.zero = k
nth_kind (k ∷ ks) (suc n) = nth_kind ks n

pub nth_kind-rank : (k : EventKind) → nth_kind all_kinds (kind_rank k) ≡ k
nth_kind-rank run_started = refl
nth_kind-rank _ = refl

pub kind_rank_injective : (a b : EventKind) → kind_rank a ≡ kind_rank b → a ≡ b
kind_rank_injective a b h = cc (nth_kind-rank a, nth_kind-rank b)

instance unfoldable pub kind_ord : Ord EventKind
kind_ord = record { rank = kind_rank; rank_injective = kind_rank_injective }

-- `unique_bounded`
unfoldable pub unique_bounded {ℓ} :
    {A : Type ℓ} ⦃e : Eq A⦄ ⦃o : Ord A⦄ → List A → ℕ → Result ProtocolError (Unit {0})
unique_bounded values maximum =
    if ltb maximum (length values) || not (length (BTreeSet.collect values) == length values)
    then err invalid_frame
    else ok tt

pub record EventHandshake : Type 0 where
  pub producer_id : ProducerId
  pub generation : ProducerGeneration
  pub run_id : RunId
  pub harness : HarnessKind
  pub requested_signals : List EventKind
