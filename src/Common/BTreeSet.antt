-- ===== src/Common/BTreeSet.antt =====
-- `std::collections::BTreeSet`, whose iteration order the program does read.
use omarchy_harbormaster.Common.{
  ℕ, suc, ◌≤◌, ◌<◌, ◌≡◌, refl, false, ◌&&◌, ◌||◌, List, [], ◌∷◌, arith, Eq, ◌==◌, if◌then◌else◌,
  length, ltb, contains, ap,
}

-- A derived `Ord` of an enum: the position of its constructor.
pub record Ord {ℓ} (A : Type ℓ) : Type ℓ where
  pub rank : A → ℕ
  pub rank_injective : (a b : A) → rank a ≡ rank b → a ≡ b

-- Strictly ascending.
abbrev pub BTreeSet {ℓ} : Type ℓ → Type ℓ
BTreeSet A = List A

-- No value occurs twice.
abbrev pub Distinct {ℓ} : {A : Type ℓ} ⦃e : Eq A⦄ → List A → Type 0
Distinct [] = Unit
Distinct (x ∷ xs) = (contains xs x ≡ false) × Distinct xs

module _ {ℓ} {A : Type ℓ} ⦃e : Eq A⦄ ⦃o : Ord A⦄ where
  unfoldable pub insert : A → BTreeSet A → BTreeSet A
  insert a [] = a ∷ []
  insert a (x ∷ xs) =
      if ltb (o.rank a) (o.rank x)
      then a ∷ x ∷ xs
      else if ltb (o.rank x) (o.rank a)
      then x ∷ insert a xs
      else x ∷ xs

  -- `iter().collect::<BTreeSet<_>>()`; a later equal value is not kept.
  unfoldable pub collect : List A → BTreeSet A
  collect [] = []
  collect (x ∷ xs) = insert x (collect xs)

  unfoldable pub intersection : BTreeSet A → BTreeSet A → BTreeSet A
  intersection [] t = []
  intersection (x ∷ xs) t = let rest = intersection xs t in if contains t x then x ∷ rest else rest

  -- Every member lies above `a`.
  abbrev Above : A → List A → Type 0
  Above a [] = Unit
  Above a (x ∷ xs) = (o.rank a < o.rank x) × Above a xs

  abbrev pub IsSorted : List A → Type 0
  IsSorted [] = Unit
  IsSorted (x ∷ xs) = Above x xs × IsSorted xs

  pub contains-insert :
      (a b : A) (s : BTreeSet A) → contains (insert a s) b ≡ (a == b || contains s b)
  unfolding insert
  contains-insert a b [] = refl
  contains-insert a b (x ∷ xs) = ground (arith, contains-insert a b xs, o.rank_injective a x)

  pub contains-collect : (b : A) (xs : List A) → contains (collect xs) b ≡ contains xs b
  unfolding collect
  contains-collect b [] = refl
  contains-collect b (x ∷ xs) =
      ground (arith, contains-insert x b (collect xs), contains-collect b xs)

  pub contains-intersection :
      (b : A) (s t : BTreeSet A) → contains (intersection s t) b ≡ (contains s b && contains t b)
  unfolding intersection
  contains-intersection b [] t = refl
  contains-intersection b (x ∷ xs) t = ground (arith, contains-intersection b xs t)

  Above-insert : (a b : A) (s : BTreeSet A) → o.rank a < o.rank b → Above a s → Above a (insert b s)
  unfolding insert
  Above-insert a b [] h u = (h, tt)
  Above-insert a b (x ∷ xs) h u = ground (arith, Above-insert a b xs h u.1)

  Above-trans : (a b : A) (s : BTreeSet A) → o.rank a < o.rank b → Above b s → Above a s
  Above-trans a b [] h u = tt
  Above-trans a b (x ∷ xs) h (p, u) = (omega arith, Above-trans a b xs h u)

  insert-IsSorted : (a : A) (s : BTreeSet A) → IsSorted s → IsSorted (insert a s)
  unfolding insert
  insert-IsSorted a [] u = (tt, tt)
  insert-IsSorted a (x ∷ xs) (p, u) =
      ground (arith, insert-IsSorted a xs u, Above-insert x a xs, Above-trans a x xs)

  pub collect-IsSorted : (xs : List A) → IsSorted (collect xs)
  unfolding collect
  collect-IsSorted [] = tt
  collect-IsSorted (x ∷ xs) = insert-IsSorted x (collect xs) (collect-IsSorted xs)

  Above-not_contained : (a : A) (s : BTreeSet A) → Above a s → contains s a ≡ false
  Above-not_contained a [] u = refl
  Above-not_contained a (x ∷ xs) (p, u) =
      ground (arith, Above-not_contained a xs u, ap o.rank {x = x} {y = a})

  length-insert :
      (a : A) (s : BTreeSet A)
      → IsSorted s
      → length (insert a s) ≡ (if contains s a then length s else suc (length s))
  unfolding insert
  length-insert a [] u = refl
  length-insert a (x ∷ xs) (p, u) = ground (
    arith,
    length-insert a xs u,
    Above-not_contained a xs,
    Above-trans a x xs,
    o.rank_injective a x,
    ap o.rank {x = x} {y = a},
  )

  length-collect-le : (xs : List A) → length (collect xs) ≤ length xs
  unfolding collect
  length-collect-le [] = omega arith
  length-collect-le (x ∷ xs) =
      ground (arith, length-collect-le xs, length-insert x (collect xs) (collect-IsSorted xs))

  -- Collecting loses no value exactly when none occurs twice.
  pub collect_full : (xs : List A) → length (collect xs) ≡ length xs → Distinct xs
  unfolding collect
  collect_full [] h = tt
  collect_full (x ∷ xs) h = ground (
    arith,
    length-insert x (collect xs) (collect-IsSorted xs),
    length-collect-le xs,
    contains-collect x xs,
    collect_full xs,
  )

  pub collect-Distinct : (xs : List A) → Distinct xs → length (collect xs) ≡ length xs
  unfolding collect
  collect-Distinct [] u = refl
  collect-Distinct (x ∷ xs) (p, u) = ground (
    arith,
    length-insert x (collect xs) (collect-IsSorted xs),
    contains-collect x xs,
    collect-Distinct xs u,
  )
