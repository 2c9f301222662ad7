-- ===== src/Domain/Support.antt =====
-- The capability array of domain/policy.rs is the set of the signals that it was made from.
use omarchy_harbormaster.Common.{
  ℕ, zero, suc, ◌+◌, ◌≤◌, ◌<◌, ◌≡◌, ◌↔◌, refl, ap, sym, ◌∙◌, Bool, true, false, ◌||◌, List, [], ◌∷◌,
  some, ◌==◌, if◌then◌else◌, ok, err, length, contains, arith, nat_eq, Bool-cases, inl, inr,
}
use omarchy_harbormaster.Common.BTreeSet.{Distinct}
use omarchy_harbormaster.Protocol.Event.{
  EventKind, kind_eq, all_kinds, kind_rank, kind_rank_injective, run_started,
}
use omarchy_harbormaster.Domain.Types.{ObservationState}
use omarchy_harbormaster.Domain.Policy.{
  ObservationPolicy, invalid_evidence, new, supports, mark_signals, position, supported_at,
  set_supported, none_supported,
}

position-all : (k : EventKind) → position k all_kinds ≡ some (kind_rank k)
unfolding position kind_eq
position-all run_started = refl
position-all _ = refl

rank_bound : (k : EventKind) → kind_rank k < 9
rank_bound run_started = omega arith
rank_bound _ = omega arith

length-set : (bs : List Bool) (i : ℕ) → length (set_supported bs i) ≡ length bs
unfolding set_supported
length-set [] i = refl
length-set (b ∷ bs) zero = refl
length-set (b ∷ bs) (suc i) = omega (arith, length-set bs i)

supported_at-set :
    (bs : List Bool) (i j : ℕ)
    → i < length bs
    → supported_at (set_supported bs i) j ≡ (i == j || supported_at bs j)
unfolding supported_at set_supported
supported_at-set [] i j h = absurd (omega arith)
supported_at-set (b ∷ bs) zero zero h = ground arith
supported_at-set (b ∷ bs) zero (suc j) h = ground arith
supported_at-set (b ∷ bs) (suc i) zero h = ground arith
supported_at-set (b ∷ bs) (suc i) (suc j) h = ground (arith, supported_at-set bs i j)

rank_eq : (a b : EventKind) → (kind_rank a == kind_rank b) ≡ (a == b)
rank_eq a b = ground (arith, kind_rank_injective a b, ap kind_rank {x = a} {y = b})

-- The bit of a kind.
abbrev bit : List Bool → EventKind → Bool
bit bs k = supported_at bs (kind_rank k)

bit-set :
    (bs : List Bool) (a k : EventKind)
    → length bs ≡ 9
    → bit (set_supported bs (kind_rank a)) k ≡ (a == k || bit bs k)
bit-set bs a k h =
    ground (arith, supported_at-set bs (kind_rank a) (kind_rank k), rank_bound a, rank_eq a k)

-- One round of the loop, by the kind's bit.
mark_cons :
    (a : EventKind) (ks : List EventKind) (bs : List Bool)
    → mark_signals (a ∷ ks) bs ≡ (
        if bit bs a then err invalid_evidence else mark_signals ks (set_supported bs (kind_rank a)))
unfolding mark_signals
mark_cons a ks bs = rw (position-all a)

mark_fresh :
    (a : EventKind) (ks : List EventKind) (bs : List Bool)
    → bit bs a ≡ false
    → mark_signals (a ∷ ks) bs ≡ mark_signals ks (set_supported bs (kind_rank a))
mark_fresh a ks bs h = rw (mark_cons a ks bs, h)

mark_repeated :
    (a : EventKind) (ks : List EventKind) (bs : List Bool)
    → bit bs a ≡ true
    → mark_signals (a ∷ ks) bs ≡ err invalid_evidence
mark_repeated a ks bs h = rw (mark_cons a ks bs, h)

mark-bit :
    (ks : List EventKind) (bs : List Bool) (r : List Bool)
    → length bs ≡ 9
    → mark_signals ks bs ≡ ok r
    → (length r ≡ 9) × ((k : EventKind) → bit r k ≡ (contains ks k || bit bs k))
unfolding mark_signals
mark-bit [] bs r l h = (ground arith, λ k. ground arith)
mark-bit (a ∷ ks) bs r l h = elim (Bool-cases (bit bs a)) [
  | inl old ↦ cc (mark_repeated a ks bs old)
  | inr fresh ↦
      let next = mark_fresh a ks bs fresh in
      let rest =
        mark-bit ks (set_supported bs (kind_rank a)) r (length-set bs (kind_rank a) ∙ l)
          (sym next ∙ h) in
      (rest.0, λ k. ground (arith, rest.1 k, bit-set bs a k l))
]

abbrev bit_ℕ : Bool → ℕ
bit_ℕ true = 1
bit_ℕ false = 0

-- How many bits are set.
abbrev set_bits : List Bool → ℕ
set_bits [] = 0
set_bits (b ∷ bs) = bit_ℕ b + set_bits bs

set_bits-le : (bs : List Bool) → set_bits bs ≤ length bs
set_bits-le [] = omega arith
set_bits-le (b ∷ bs) = ground (arith, set_bits-le bs)

set_bits-set :
    (bs : List Bool) (i : ℕ)
    → i < length bs
    → supported_at bs i ≡ false
    → set_bits (set_supported bs i) ≡ set_bits bs + 1
unfolding supported_at set_supported
set_bits-set [] i h f = absurd (omega arith)
set_bits-set (b ∷ bs) zero h f = ground arith
set_bits-set (b ∷ bs) (suc i) h f = omega (arith, set_bits-set bs i (omega arith) f)

-- A signal of the list is not set yet.
abbrev Unset : List EventKind → List Bool → Type 0
Unset [] bs = Unit
Unset (k ∷ ks) bs = (bit bs k ≡ false) × Unset ks bs

Unset-set :
    (ks : List EventKind) (a : EventKind) (bs : List Bool)
    → length bs ≡ 9
    → contains ks a ≡ false
    → Unset ks bs
    → Unset ks (set_supported bs (kind_rank a))
Unset-set [] a bs l n u = tt
Unset-set (k ∷ ks) a bs l n u = ground (arith, Unset-set ks a bs l, bit-set bs a k l)

unset_bit :
    (bs : List Bool) (a k : EventKind)
    → length bs ≡ 9
    → bit (set_supported bs (kind_rank a)) k ≡ false
    → ((k == a) ≡ false) × (bit bs k ≡ false)
unset_bit bs a k l h = elim (kind_eq.dec a k) [
  | yes p ↦ ground (arith, bit-set bs a k l, p)
  | no n ↦ ground (arith, bit-set bs a k l, n)
]

either_false : (a b : Bool) → a ≡ false → b ≡ false → (a || b) ≡ false
either_false a b p q = ground arith

Unset-of-set :
    (ks : List EventKind) (a : EventKind) (bs : List Bool)
    → length bs ≡ 9
    → Unset ks (set_supported bs (kind_rank a))
    → (contains ks a ≡ false) × Unset ks bs
Unset-of-set [] a bs l u = (refl, tt)
Unset-of-set (k ∷ ks) a bs l u =
    let head = unset_bit bs a k l u.0 in
    let rest = Unset-of-set ks a bs l u.1 in
    (either_false (k == a) (contains ks a) head.0 rest.0, (head.1, rest.1))

mark_total :
    (ks : List EventKind) (bs : List Bool)
    → length bs ≡ 9
    → Distinct ks
    → Unset ks bs
    → (r : List Bool) × (mark_signals ks bs ≡ ok r)
      × (set_bits r ≡ set_bits bs + length ks)
      × (length r ≡ 9)
unfolding mark_signals
mark_total [] bs l d u = (bs, refl, omega arith, l)
mark_total (k ∷ ks) bs l d u =
    let set = set_supported bs (kind_rank k) in
    let rest =
      mark_total ks set (length-set bs (kind_rank k) ∙ l) d.1 (Unset-set ks k bs l d.0 u.1) in
    let more = set_bits-set bs (kind_rank k) (omega (arith, rank_bound k)) u.0 in
    (rest.0, mark_fresh k ks bs u.0 ∙ rest.1, omega (arith, more, rest.2), rest.3)

mark-Distinct :
    (ks : List EventKind) (bs r : List Bool)
    → length bs ≡ 9
    → mark_signals ks bs ≡ ok r
    → Distinct ks × Unset ks bs
mark-Distinct [] bs r l h = (tt, tt)
mark-Distinct (k ∷ ks) bs r l h = elim (Bool-cases (bit bs k)) [
  | inl old ↦ cc (mark_repeated k ks bs old)
  | inr fresh ↦
      let rest =
        mark-Distinct ks (set_supported bs (kind_rank k)) r (length-set bs (kind_rank k) ∙ l)
          (sym (mark_fresh k ks bs fresh) ∙ h) in
      let back = Unset-of-set ks k bs l rest.1 in ((back.0, rest.0), (fresh, back.1))
]

bit-none : (k : EventKind) → bit none_supported k ≡ false
unfolding supported_at
bit-none run_started = refl
bit-none _ = refl

Unset-none : (ks : List EventKind) → Unset ks none_supported
Unset-none [] = tt
Unset-none (k ∷ ks) = (bit-none k, Unset-none ks)

new_parts :
    (signals : List EventKind) (freshness : ObservationState) (p : ObservationPolicy)
    → new signals freshness ≡ ok p
    → (mark_signals signals none_supported ≡ ok p.supported) × (p.freshness ≡ freshness)
unfolding new
new_parts signals freshness p h = ground arith

new_made :
    (signals : List EventKind) (freshness : ObservationState) (r : List Bool)
    → mark_signals signals none_supported ≡ ok r
    → length signals ≤ 9
    → new signals freshness ≡ ok (record { supported = r; freshness = freshness })
unfolding new
new_made signals freshness r h l = ground arith

supports-bit : (p : ObservationPolicy) (k : EventKind) → supports p k ≡ bit p.supported k
unfolding supports
supports-bit p k = rw (position-all k, supports)

-- A policy is made exactly from signals of which none occurs twice; no other bound is needed.
pub new_total :
    (signals : List EventKind) (freshness : ObservationState)
    → ((p : ObservationPolicy) × (new signals freshness ≡ ok p)) ↔ Distinct signals
new_total signals freshness = (
  λ (p, h).
      (mark-Distinct signals none_supported p.supported refl (new_parts signals freshness p h).0).0,
  λ d.
      let made = mark_total signals none_supported refl d (Unset-none signals) in
      (
        record { supported = made.0; freshness = freshness },
        new_made signals freshness made.0 made.1
            (omega (arith, made.2, made.3, set_bits-le made.0)),
      ),
)

-- The policy that is made supports exactly the signals that it was made from, and has the
-- freshness that it was given.
pub supports-new :
    (signals : List EventKind) (freshness : ObservationState) (p : ObservationPolicy)
    → new signals freshness ≡ ok p
    → (p.freshness ≡ freshness) × ((k : EventKind) → supports p k ≡ contains signals k)
supports-new signals freshness p h =
    let parts = new_parts signals freshness p h in
    let marked = mark-bit signals none_supported p.supported refl parts.0 in
    (parts.1, λ k. ground (arith, supports-bit p k, marked.1 k, bit-none k))
