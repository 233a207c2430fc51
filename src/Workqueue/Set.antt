-- ===== src/Workqueue/Set.antt =====
-- pkg/utils/workqueue/helper.go, `set`: a `map[t]empty`, as the list of its keys.
use k8s_controller_the_hard.Prelude.{
  ℕ, ◌≡◌, ite, if_pos, if_neg, Bool, true, false, List, [], ◌∷◌, arith, if◌then◌else◌, length,
}

abbrev pub Set {ℓ} : Type ℓ → Type ℓ
Set K = List K

unfoldable pub len {ℓ} : {K : Type ℓ} → Set K → ℕ
len s = length s

module _ {ℓ} {K : Type ℓ} (dec : Discrete K) where
  unfoldable pub has : Set K → K → Bool
  has [] item = false
  has (x ∷ s) item = ite (dec x item) true (has s item)

  unfoldable pub insert : Set K → K → Set K
  insert s item = if has s item then s else item ∷ s

  unfoldable pub delete : Set K → K → Set K
  delete [] item = []
  delete (x ∷ s) item = ite (dec x item) (delete s item) (x ∷ delete s item)

  pub has-insert : (s : Set K) (x y : K) → has (insert s x) y ≡ ite (dec x y) true (has s y)
  unfolding has insert
  has-insert s x y = ground arith

  pub has-delete : (s : Set K) (x y : K) → has (delete s x) y ≡ ite (dec x y) false (has s y)
  unfolding has delete
  has-delete [] x y = ground arith
  has-delete (z ∷ s) x y = elim (dec z x) [
    | yes p ↦ rw (if_pos _ p) (ground (arith, has-delete s x y))
    | no p ↦ rw (if_neg _ p) (ground (arith, has-delete s x y))
  ]
