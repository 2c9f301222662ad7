-- ===== src/Domain/Policy.antt =====
-- crates/harbormaster/src/domain/policy.rs
use omarchy_harbormaster.Common.{
  ℕ, zero, suc, Bool, true, false, List, [], ◌∷◌, Option, none, some, ◌==◌, ltb, length,
  if◌then◌else◌, Result, ok, err, ◌>>=◌, ok_or,
}
use omarchy_harbormaster.Protocol.Event.{EventKind, kind_eq, all_kinds}
use omarchy_harbormaster.Domain.Types.{ObservationState}

pub data DomainError : Type 0 where
  invalid_evidence invalid_scope unsupported_signal : DomainError

-- `supported` is the array `[bool; 9]`.
pub record ObservationPolicy : Type 0 where
  pub supported : List Bool
  pub freshness : ObservationState

-- `iter().position(|value| value == signal)`
unfoldable pub position : EventKind → List EventKind → Option ℕ
position signal [] = none
position signal (k ∷ ks) =
    if k == signal
    then some 0
    else elim (position signal ks) [ none ↦ none | some i ↦ some (suc i) ]

-- An index out of the array, which panics in the program, reads as `false`.
unfoldable pub supported_at : List Bool → ℕ → Bool
supported_at [] i = false
supported_at (b ∷ bs) zero = b
supported_at (b ∷ bs) (suc i) = supported_at bs i

unfoldable pub set_supported : List Bool → ℕ → List Bool
set_supported [] i = []
set_supported (b ∷ bs) zero = true ∷ bs
set_supported (b ∷ bs) (suc i) = b ∷ set_supported bs i

-- `[false; 9]`
abbrev pub none_supported : List Bool
none_supported = false ∷ false ∷ false ∷ false ∷ false ∷ false ∷ false ∷ false ∷ false ∷ []

-- The loop of `ObservationPolicy::new` over its signals.
unfoldable pub mark_signals : List EventKind → List Bool → Result DomainError (List Bool)
mark_signals [] supported = ok supported
mark_signals (signal ∷ signals) supported = do
  index ← ok_or (position signal all_kinds) invalid_evidence
  let rest = mark_signals signals (set_supported supported index)
  if supported_at supported index then err invalid_evidence else rest

-- `ObservationPolicy::new`
unfoldable pub new : List EventKind → ObservationState → Result DomainError ObservationPolicy
new signals freshness =
    if ltb (length none_supported) (length signals) then err invalid_evidence else do
      supported ← mark_signals signals none_supported
      ok (record { supported = supported; freshness = freshness })

-- `ObservationPolicy::supports`
unfoldable pub supports : ObservationPolicy → EventKind → Bool
supports policy signal = elim (position signal all_kinds) [
  | none ↦ false
  | some i ↦ supported_at policy.supported i
]
