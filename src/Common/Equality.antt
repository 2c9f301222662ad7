-- ===== src/Common/Equality.antt =====
-- Rust's `==` (derived `PartialEq`) for every type whose equality can be decided.
use Prim.Native.Nat.{ℕ}
use mathlib.Core.Path.{◌≡◌, refl, ap}
use mathlib.Core.Logic.{ite, dite}
use mathlib.Core.Bool.{Bool, true, false, ◌||◌}
use mathlib.Core.Option.{Option, none, some, none-ne-some, some-ne-none, some-injective}
use mathlib.Core.List.{List, [], ◌∷◌}
use native.Mathlib.Decide.{ℕ_discrete}

pub record Eq {ℓ} (A : Type ℓ) : Type ℓ where
  pub dec : Discrete A

module _ {ℓ} {A : Type ℓ} ⦃e : Eq A⦄ where
  infix 50 ◌==◌
  abbrev pub ◌==◌ : A → A → Bool
  a == b = ite (e.dec a b) true false

  -- `slice.contains(&a)`
  abbrev pub contains : List A → A → Bool
  contains [] a = false
  contains (x ∷ xs) a = x == a || contains xs a

  unfoldable option_dec : Discrete (Option A)
  option_dec none none = yes refl
  option_dec none (some b) = no (none-ne-some b)
  option_dec (some a) none = no (some-ne-none a)
  option_dec (some a) (some b) =
      dite (e.dec a b) (λ p. yes (ap some p)) (λ n. no (λ p. n (some-injective a b p)))

  instance unfoldable pub option_eq : Eq (Option A)
  unfolding option_dec
  option_eq = record { dec = option_dec }

pub bytes_cons : (x y : ℕ) (xs ys : List ℕ) → x ≡ y → xs ≡ ys → x ∷ xs ≡ y ∷ ys
bytes_cons x y xs ys p q = cc

pub bytes_head : (x y : ℕ) (xs ys : List ℕ) → x ∷ xs ≡ y ∷ ys → x ≡ y
bytes_head x y xs ys p = cc

pub bytes_tail : (x y : ℕ) (xs ys : List ℕ) → x ∷ xs ≡ y ∷ ys → xs ≡ ys
bytes_tail x y xs ys p = cc

pub nil≢bytes : (y : ℕ) (ys : List ℕ) → ◌≡◌ {A = List ℕ} [] (y ∷ ys) → ⊥
nil≢bytes y ys p = cc

pub bytes≢nil : (x : ℕ) (xs : List ℕ) → ◌≡◌ {A = List ℕ} (x ∷ xs) [] → ⊥
bytes≢nil x xs p = cc

unfoldable bytes_dec : Discrete (List ℕ)
bytes_dec [] [] = yes refl
bytes_dec [] (y ∷ ys) = no (nil≢bytes y ys)
bytes_dec (x ∷ xs) [] = no (bytes≢nil x xs)
bytes_dec (x ∷ xs) (y ∷ ys) =
    let rest = bytes_dec xs ys in
    dite (ℕ_discrete x y)
      (λ p.
        dite rest (λ q. yes (bytes_cons x y xs ys p q)) (λ n. no (λ r. n (bytes_tail x y xs ys r))))
      (λ n. no (λ r. n (bytes_head x y xs ys r)))

instance unfoldable pub bytes_eq : Eq (List ℕ)
unfolding bytes_dec ℕ_discrete
bytes_eq = record { dec = bytes_dec }

instance unfoldable pub nat_eq : Eq ℕ
unfolding ℕ_discrete
nat_eq = record { dec = ℕ_discrete }
