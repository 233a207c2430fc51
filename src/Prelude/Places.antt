-- ===== src/Prelude/Places.antt =====
-- The elements of a list by their places: reading, writing, and sums over them.
use Prim.Native.Nat.{ℕ, zero, suc, ◌+◌, ◌≤◌, ◌<◌}
use mathlib.Core.Path.{◌≡◌, refl, ap}
use mathlib.Core.Logic.{◌≢◌, ◌⊎◌, inl, inr}
use mathlib.Core.List.{List, [], ◌∷◌}
use mathlib.Core.Option.{Option, none, some}
use native.Mathlib.Omega.{arith}
use k8s_controller_the_hard.Prelude.Lists.{length}

module _ {A : Type 0} where
  unfoldable pub get_elem? : List A → ℕ → Option A
  get_elem? [] k = none
  get_elem? (x ∷ xs) zero = some x
  get_elem? (x ∷ xs) (suc k) = get_elem? xs k

  unfoldable pub set_elem : List A → ℕ → A → List A
  set_elem [] k a = []
  set_elem (x ∷ xs) zero a = a ∷ xs
  set_elem (x ∷ xs) (suc k) a = x ∷ set_elem xs k a

  pub length-set_elem : (xs : List A) (k : ℕ) (a : A) → length (set_elem xs k a) ≡ length xs
  unfolding set_elem
  length-set_elem [] k a = refl
  length-set_elem (x ∷ xs) zero a = refl
  length-set_elem (x ∷ xs) (suc k) a = ap suc (length-set_elem xs k a)

  pub get_elem?-some : (xs : List A) (k : ℕ) → k < length xs → (a : A) × (get_elem? xs k ≡ some a)
  unfolding get_elem?
  get_elem?-some [] k h = ground (arith, h)
  get_elem?-some (x ∷ xs) zero h = (x, refl)
  get_elem?-some (x ∷ xs) (suc k) h = get_elem?-some xs k (omega (arith, h))

  pub get_elem?-lt : (xs : List A) (k : ℕ) (a : A) → get_elem? xs k ≡ some a → k < length xs
  unfolding get_elem?
  get_elem?-lt [] k a h = cc
  get_elem?-lt (x ∷ xs) zero a h = omega arith
  get_elem?-lt (x ∷ xs) (suc k) a h = omega (arith, get_elem?-lt xs k a h)

  pub get_elem?-set_same :
      (xs : List A) (k : ℕ) (a : A) → k < length xs → get_elem? (set_elem xs k a) k ≡ some a
  unfolding get_elem? set_elem
  get_elem?-set_same [] k a h = ground (arith, h)
  get_elem?-set_same (x ∷ xs) zero a h = refl
  get_elem?-set_same (x ∷ xs) (suc k) a h = get_elem?-set_same xs k a (omega (arith, h))

  pub get_elem?-set_other :
      (xs : List A) (i k : ℕ) (a : A) → k ≢ i → get_elem? (set_elem xs i a) k ≡ get_elem? xs k
  unfolding get_elem? set_elem
  get_elem?-set_other [] i k a h = refl
  get_elem?-set_other (x ∷ xs) zero zero a h = absurd (h refl)
  get_elem?-set_other (x ∷ xs) zero (suc k) a h = refl
  get_elem?-set_other (x ∷ xs) (suc i) zero a h = refl
  get_elem?-set_other (x ∷ xs) (suc i) (suc k) a h =
      get_elem?-set_other xs i k a (λ e. h (ap suc e))

  -- What stands at a place after a write is what was written, or stood there before.
  pub get_elem?-set_elem :
      (xs : List A) (i k : ℕ) (a b : A)
      → get_elem? (set_elem xs i a) k ≡ some b
      → ((k ≡ i) × (b ≡ a)) ⊎ ((k ≢ i) × (get_elem? xs k ≡ some b))
  unfolding get_elem? set_elem
  get_elem?-set_elem [] i k a b h = cc
  get_elem?-set_elem (x ∷ xs) zero zero a b h = inl (refl, cc)
  get_elem?-set_elem (x ∷ xs) zero (suc k) a b h = inr (omega arith, h)
  get_elem?-set_elem (x ∷ xs) (suc i) zero a b h = inr (omega arith, h)
  get_elem?-set_elem (x ∷ xs) (suc i) (suc k) a b h = elim (get_elem?-set_elem xs i k a b h) [
    | inl (e, p) ↦ inl (ap suc e, p)
    | inr (n, p) ↦ inr (omega (arith, n), p)
  ]

  -- The sum of a number for each element.
  unfoldable pub total : (A → ℕ) → List A → ℕ
  total f [] = 0
  total f (x ∷ xs) = f x + total f xs

  abbrev or_zero : (A → ℕ) → Option A → ℕ
  or_zero f none = 0
  or_zero f (some a) = f a

  pub total-set_elem :
      (f : A → ℕ) (xs : List A) (k : ℕ) (a b : A)
      → get_elem? xs k ≡ some b
      → total f (set_elem xs k a) + f b ≡ total f xs + f a
  unfolding total get_elem? set_elem
  total-set_elem f [] k a b h = cc
  total-set_elem f (x ∷ xs) zero a b h = omega (arith, ap (or_zero f) h)
  total-set_elem f (x ∷ xs) (suc k) a b h = omega (arith, total-set_elem f xs k a b h)

  pub get_elem?-total :
      (f : A → ℕ) (xs : List A) (k : ℕ) (a : A) → get_elem? xs k ≡ some a → f a ≤ total f xs
  unfolding total get_elem?
  get_elem?-total f [] k a h = cc
  get_elem?-total f (x ∷ xs) zero a h = omega (arith, ap (or_zero f) h)
  get_elem?-total f (x ∷ xs) (suc k) a h = omega (arith, get_elem?-total f xs k a h)

  -- Two places count twice.
  pub get_elem?-two :
      (f : A → ℕ) (xs : List A) (i j : ℕ) (a b : A)
      → get_elem? xs i ≡ some a
      → get_elem? xs j ≡ some b
      → i ≢ j
      → f a + f b ≤ total f xs
  unfolding total get_elem?
  get_elem?-two f [] i j a b g h n = cc
  get_elem?-two f (x ∷ xs) zero zero a b g h n = absurd (n refl)
  get_elem?-two f (x ∷ xs) zero (suc j) a b g h n =
      omega (arith, ap (or_zero f) g, get_elem?-total f xs j b h)
  get_elem?-two f (x ∷ xs) (suc i) zero a b g h n =
      omega (arith, ap (or_zero f) h, get_elem?-total f xs i a g)
  get_elem?-two f (x ∷ xs) (suc i) (suc j) a b g h n =
      omega (arith, get_elem?-two f xs i j a b g h (λ e. n (ap suc e)))
