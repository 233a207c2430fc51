-- ===== src/Prelude/GoMap.antt =====
-- Go's `map[K]V`: an association list with one entry for a key.
use mathlib.Core.Path.{◌≡◌, refl}
use mathlib.Core.Logic.{ite, if_pos, if_neg}
use mathlib.Core.List.{List, [], ◌∷◌}
use mathlib.Core.Option.{Option, none, some}
use native.Mathlib.Omega.{arith}

abbrev pub GoMap {ℓ} : Type ℓ → Type ℓ → Type ℓ
GoMap K V = List (K × V)

module _ {ℓ} {K V : Type ℓ} (dec : Discrete K) where
  -- `v, exists := m[k]`
  unfoldable pub get : GoMap K V → K → Option V
  get [] k = none
  get ((j, v) ∷ m) k = ite (dec j k) (some v) (get m k)

  -- `delete(m, k)`
  unfoldable pub remove : GoMap K V → K → GoMap K V
  remove [] k = []
  remove ((j, v) ∷ m) k = ite (dec j k) (remove m k) ((j, v) ∷ remove m k)

  -- `m[k] = v`
  unfoldable pub put : GoMap K V → K → V → GoMap K V
  put m k v = (k, v) ∷ remove m k

  pub get-remove : (m : GoMap K V) (k j : K) → get (remove m k) j ≡ ite (dec k j) none (get m j)
  unfolding get remove
  get-remove [] k j = ground arith
  get-remove ((i, v) ∷ m) k j = ground (arith, get-remove m k j)

  pub get-put :
      (m : GoMap K V) (k j : K) (v : V) → get (put m k v) j ≡ ite (dec k j) (some v) (get m j)
  unfolding get put
  get-put m k j v = ground (arith, get-remove m k j)

  remove-remove : (m : GoMap K V) (k : K) → remove (remove m k) k ≡ remove m k
  unfolding remove
  remove-remove [] k = refl
  remove-remove ((j, v) ∷ m) k = elim (dec j k) [
    | yes p ↦ rw (if_pos _ p) (remove-remove m k)
    | no p ↦ rw (if_neg _ p) (ground (arith, remove-remove m k))
  ]

  pub put-put : (m : GoMap K V) (k : K) (v w : V) → put (put m k v) k w ≡ put m k w
  unfolding put remove
  put-put m k v w = ground (arith, remove-remove m k)
