-- ===== src/Protocol/Identity.antt =====
-- crates/harbormaster/src/protocol/identity.rs: the types that its two macros declare.
use omarchy_harbormaster.Common.{
  ℕ, suc, ◌+◌, ◌^◌, Bool, true, false, ◌&&◌, ◌||◌, not, List, [], ◌∷◌, Option, none, some, Eq, ◌==◌,
  ltb, leb, bytes_eq, nat_eq, length, if◌then◌else◌, Result, ok, err,
}
use omarchy_harbormaster.Protocol.{ProtocolError, invalid_frame}

-- The names given to `string_type!`.
pub data IdKind : Type 0 where
  project task run producer event request generation : IdKind
  turn harness_session adapter_version snapshot_cursor task_label local_path : IdKind

-- A validated string, as its UTF-8 bytes.
pub record Ident (k : IdKind) : Type 0 where
  pub text : List ℕ

pub ident_dec : (k : IdKind) → Discrete (Ident k)
unfolding bytes_eq
ident_dec k a b = elim (bytes_eq.dec a.text b.text) [
  | yes p ↦ yes (λ i. record { text = p i })
  | no n ↦ no (λ p. n (λ i. (p i).text))
]

instance unfoldable pub ident_eq : {k : IdKind} → Eq (Ident k)
unfolding ident_dec
ident_eq {k} = record { dec = ident_dec k }

abbrev is_hyphen_at : ℕ → Bool
is_hyphen_at i = i == 8 || i == 13 || i == 18 || i == 23

abbrev is_digit : ℕ → Bool
is_digit b = leb b'0' b && leb b b'9'

abbrev is_lower_hex : ℕ → Bool
is_lower_hex b = is_digit b || (leb b'a' b && leb b b'f')

-- `value.bytes().enumerate().all(…)` from index `i` on.
unfoldable pub all_canonical : ℕ → List ℕ → Bool
all_canonical i [] = true
all_canonical i (b ∷ bs) =
    (if is_hyphen_at i then b == b'-' else is_lower_hex b) && all_canonical (suc i) bs

unfoldable pub canonical_uuid : List ℕ → Bool
canonical_uuid value = length value == 36 && all_canonical 0 value

-- `char::is_control` of some character: U+0000 to U+001F and U+007F to U+009F, the last of which
-- are the byte 0xC2 and one of 80 to 9F.
unfoldable pub any_control : List ℕ → Bool
any_control [] = false
any_control (b ∷ []) = ltb b 0x20 || b == 0x7f
any_control (b ∷ c ∷ bs) =
    (ltb b 0x20 || b == 0x7f || (b == 0xc2 && leb 0x80 c && leb c 0x9f)) || any_control (c ∷ bs)

abbrev is_empty : List ℕ → Bool
is_empty [] = true
is_empty (b ∷ bs) = false

unfoldable pub opaque : List ℕ → ℕ → Bool
opaque value maximum = not (is_empty value) && leb (length value) maximum && not (any_control value)

abbrev starts_with_slash : List ℕ → Bool
starts_with_slash [] = false
starts_with_slash (b ∷ bs) = b == b'/'

-- The validator that each use of `string_type!` names.
unfoldable pub valid : IdKind → List ℕ → Bool
valid IdKind.turn s = opaque s 256
valid IdKind.harness_session s = opaque s 256
valid IdKind.adapter_version s = opaque s 64
valid IdKind.snapshot_cursor s = opaque s 256
valid IdKind.task_label s = opaque s 1024
valid IdKind.local_path s = starts_with_slash s && opaque s 4096
valid _ s = canonical_uuid s

-- `FromStr::from_str` of `string_type!`.
unfoldable pub from_str : (k : IdKind) → List ℕ → Result ProtocolError (Ident k)
from_str k value = if valid k value then ok (record { text = value }) else err invalid_frame

-- The types of `decimal_type!` are a `u64`.
abbrev pub u64_limit : ℕ
u64_limit = 2 ^ 64

abbrev pub Seq : Type 0
Seq = ℕ

abbrev pub Revision : Type 0
Revision = ℕ

unfoldable pub checked_next : ℕ → Option ℕ
checked_next value = if ltb (value + 1) u64_limit then some (value + 1) else none

abbrev pub ProjectId : Type 0
ProjectId = Ident project

abbrev pub RunId : Type 0
RunId = Ident run

abbrev pub ProducerId : Type 0
ProducerId = Ident producer

abbrev pub EventId : Type 0
EventId = Ident event

abbrev pub RequestId : Type 0
RequestId = Ident request

abbrev pub ProducerGeneration : Type 0
ProducerGeneration = Ident generation

abbrev pub TurnId : Type 0
TurnId = Ident turn

abbrev pub HarnessSessionId : Type 0
HarnessSessionId = Ident harness_session

abbrev pub AdapterVersion : Type 0
AdapterVersion = Ident adapter_version

abbrev pub SnapshotCursor : Type 0
SnapshotCursor = Ident snapshot_cursor

abbrev pub TaskLabel : Type 0
TaskLabel = Ident task_label

abbrev pub LocalPath : Type 0
LocalPath = Ident local_path
