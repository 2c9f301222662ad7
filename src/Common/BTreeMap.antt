-- ===== src/Common/BTreeMap.antt =====
-- `std::collections::BTreeMap` where its order is never read: an association list.
use omarchy_harbormaster.Common.{
  ℕ, suc, ◌+◌, ◌≤◌, ◌≡◌, refl, ◌≢◌, Bool, true, false, Option, none, some, List, [], ◌∷◌, arith, Eq,
  ◌==◌, if◌then◌else◌, length,
}

abbrev pub BTreeMap {ℓ κ} : Type ℓ → Type κ → Type (ℓ ⊔ κ)
BTreeMap K V = List (K × V)

abbrev pub empty {ℓ κ} : {K : Type ℓ} {V : Type κ} → BTreeMap K V
empty = []

abbrev pub len {ℓ κ} : {K : Type ℓ} {V : Type κ} → BTreeMap K V → ℕ
len m = length m

-- What an entry adds to a sum over the values.
abbrev pub weight {ℓ} : {V : Type ℓ} → (V → ℕ) → Option V → ℕ
weight f none = 0
weight f (some v) = f v

-- The sum of `f` over the values.
abbrev pub total {ℓ κ} : {K : Type ℓ} {V : Type κ} → (V → ℕ) → BTreeMap K V → ℕ
total f [] = 0
total f ((k, v) ∷ m) = f v + total f m

abbrev pub is_some {ℓ} : {V : Type ℓ} → Option V → Bool
is_some none = false
is_some (some v) = true

module _ {ℓ κ} {K : Type ℓ} {V : Type κ} ⦃e : Eq K⦄ where
  unfoldable pub get : K → BTreeMap K V → Option V
  get k [] = none
  get k ((j, v) ∷ m) = if j == k then some v else get k m

  abbrev pub contains_key : K → BTreeMap K V → Bool
  contains_key k m = is_some (get k m)

  unfoldable pub insert : K → V → BTreeMap K V → BTreeMap K V
  insert k v [] = (k, v) ∷ []
  insert k v ((j, w) ∷ m) = if j == k then (k, v) ∷ m else (j, w) ∷ insert k v m

  unfoldable pub remove : K → BTreeMap K V → BTreeMap K V
  remove k [] = []
  remove k ((j, w) ∷ m) = let rest = remove k m in if j == k then rest else (j, w) ∷ rest

  -- No key has two entries.
  abbrev pub NodupKeys : BTreeMap K V → Type κ
  NodupKeys [] = Unit
  NodupKeys ((k, _) ∷ m) = (get k m ≡ none) × NodupKeys m

  pub get-insert :
      (j k : K) (v : V) (m : BTreeMap K V)
      → get j (insert k v m) ≡ (if k == j then some v else get j m)
  unfolding get insert
  get-insert j k v [] = ground arith
  get-insert j k v ((i, w) ∷ m) = ground (arith, get-insert j k v m)

  pub get-insert_self : (k : K) (v : V) (m : BTreeMap K V) → get k (insert k v m) ≡ some v
  get-insert_self k v m = ground (arith, get-insert k k v m)

  pub get-insert_other :
      (j k : K) (v : V) (m : BTreeMap K V) → k ≢ j → get j (insert k v m) ≡ get j m
  get-insert_other j k v m h = ground (arith, get-insert j k v m)

  pub get-remove :
      (j k : K) (m : BTreeMap K V) → get j (remove k m) ≡ (if k == j then none else get j m)
  unfolding get remove
  get-remove j k [] = ground arith
  get-remove j k ((i, w) ∷ m) = ground (arith, get-remove j k m)

  pub get-remove_self : (k : K) (m : BTreeMap K V) → get k (remove k m) ≡ none
  get-remove_self k m = ground (arith, get-remove k k m)

  pub get-remove_other : (j k : K) (m : BTreeMap K V) → k ≢ j → get j (remove k m) ≡ get j m
  get-remove_other j k m h = ground (arith, get-remove j k m)

  pub insert-NodupKeys : (k : K) (v : V) (m : BTreeMap K V) → NodupKeys m → NodupKeys (insert k v m)
  unfolding get insert
  insert-NodupKeys k v [] u = (refl, tt)
  insert-NodupKeys k v ((j, w) ∷ m) (fresh, u) =
      ground (arith, insert-NodupKeys k v m u, get-insert j k v m)

  pub remove-NodupKeys : (k : K) (m : BTreeMap K V) → NodupKeys m → NodupKeys (remove k m)
  unfolding remove
  remove-NodupKeys k [] u = tt
  remove-NodupKeys k ((j, w) ∷ m) (fresh, u) =
      ground (arith, remove-NodupKeys k m u, get-remove j k m)

  pub total-insert :
      (f : V → ℕ) (k : K) (v : V) (m : BTreeMap K V)
      → total f (insert k v m) + weight f (get k m) ≡ total f m + f v
  unfolding get insert
  total-insert f k v [] = omega arith
  total-insert f k v ((j, w) ∷ m) = ground (arith, total-insert f k v m)

  remove_absent : (k : K) (m : BTreeMap K V) → get k m ≡ none → remove k m ≡ m
  unfolding get remove
  remove_absent k [] h = refl
  remove_absent k ((j, w) ∷ m) h = ground (arith, remove_absent k m)

  pub total-remove :
      (f : V → ℕ) (k : K) (m : BTreeMap K V)
      → NodupKeys m
      → total f (remove k m) + weight f (get k m) ≡ total f m
  unfolding get remove
  total-remove f k [] u = omega arith
  total-remove f k ((j, w) ∷ m) (fresh, u) = ground (arith, total-remove f k m u, remove_absent k m)

  -- One entry is at most the sum.
  pub weight-le-total : (f : V → ℕ) (k : K) (m : BTreeMap K V) → weight f (get k m) ≤ total f m
  unfolding get
  weight-le-total f k [] = omega arith
  weight-le-total f k ((j, w) ∷ m) = ground (arith, weight-le-total f k m)

  pub len-insert :
      (k : K) (v : V) (m : BTreeMap K V)
      → len (insert k v m) ≡ (if contains_key k m then len m else suc (len m))
  unfolding get insert
  len-insert k v [] = refl
  len-insert k v ((j, w) ∷ m) = ground (arith, len-insert k v m)

pub insert_same {ℓ κ} :
    {K : Type ℓ} {V : Type κ} ⦃e : Eq K⦄ (k : K) (v : V) (m : BTreeMap K V)
    → get k m ≡ some v
    → insert k v m ≡ m
unfolding get insert
insert_same k v [] h = cc
insert_same k v ((j, w) ∷ m) h = ground (arith, insert_same k v m)

pub insert_twice {ℓ κ} :
    {K : Type ℓ} {V : Type κ} ⦃e : Eq K⦄ (k : K) (v w : V) (m : BTreeMap K V)
    → insert k v (insert k w m) ≡ insert k v m
unfolding insert
insert_twice k v w [] = ground arith
insert_twice k v w ((j, u) ∷ m) = ground (arith, insert_twice k v w m)

pub ruleset map_laws = (get-insert, get-remove)
