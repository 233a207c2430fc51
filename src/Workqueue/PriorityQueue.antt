-- ===== src/Workqueue/PriorityQueue.antt =====
-- pkg/utils/workqueue/helper.go: `waitForPriorityQueue`, and the `up`, `down`, `Push` and `Pop` of
-- Go's container/heap on it. `none` is an index out of range, or fuel that is used up. An entry stands
-- in one place only, so that a write to its index is a write there.
pub mod Order
pub mod Places
pub mod Sifting
pub mod Pushes
pub mod Pops
pub mod Fixes
pub mod Calls
pub mod Tests
use k8s_controller_the_hard.Prelude.Places.{get_elem?, set_elem}
use k8s_controller_the_hard.Prelude.{
  ℕ, zero, suc, ◌+◌, ◌-◌, ◌*◌, ◌/◌, Bool, true, false, Option, none, some, List, [], ◌∷◌, ◌++◌,
  if◌then◌else◌, ltb, leb, ◌==◌, length,
}
use k8s_controller_the_hard.Prelude.Int.{ℤ, pos, negsuc}

-- `waitFor`
pub record Entry (K : Type 0) : Type 0 where
  pub entry_data : K
  pub ready_at : ℕ
  pub index : ℤ

-- The child that `down` compares with: the second where there is one and it is less.
abbrev pub second_if : ℕ → Option Bool → Option ℕ
second_if j none = none
second_if j (some true) = some (suc j)
second_if j (some false) = some j

module _ {A B : Type 0} where
  abbrev pub with_result : Option A → (A → Option B) → Option B
  with_result none next = none
  with_result (some a) next = next a

module _ {A : Type 0} where
  abbrev pub with_both : {B : Type 0} → Option A → Option A → (A → A → B) → Option B
  with_both (some a) (some b) f = some (f a b)
  with_both none b f = none
  with_both (some a) none f = none

module _ {K : Type 0} where
  unfoldable pub less : List (Entry K) → ℕ → ℕ → Option Bool
  less pq i j =
      with_both (get_elem? pq i) (get_elem? pq j) (λ a b. ltb (Entry.ready_at a) (Entry.ready_at b))

  abbrev pub moved : Entry K → ℕ → Entry K
  moved e k = record e { index = pos k }

  unfoldable pub swap : List (Entry K) → ℕ → ℕ → Option (List (Entry K))
  swap pq i j =
      with_both (get_elem? pq i) (get_elem? pq j)
        (λ a b. set_elem (set_elem pq i (moved b i)) j (moved a j))

  -- The method `Push`.
  unfoldable pub push_entry : List (Entry K) → Entry K → List (Entry K)
  push_entry pq e = pq ++ moved e (length pq) ∷ []

  -- A round of `up` or `down`, with what it leaves where it ends here, whether the entry at the one
  -- place is less, and the swap.
  abbrev pub sift :
      {B : Type 0}
      → B
      → Option Bool
      → Option (List (Entry K))
      → (List (Entry K) → Option B)
      → Option B
  sift here (some true) (some swapped) next = next swapped
  sift here (some true) none next = none
  sift here (some false) swapped next = some here
  sift here none swapped next = none

  -- `up`
  unfoldable pub up : ℕ → List (Entry K) → ℕ → Option (List (Entry K))
  up zero pq j = none
  up (suc fuel) pq j =
      let i = (j - 1) / 2 in
      if i == j then some pq else sift pq (less pq j i) (swap pq i j) (λ r. up fuel r i)

  -- `heap.Push`
  unfoldable pub heap_push : List (Entry K) → Entry K → Option (List (Entry K))
  heap_push pq e = up (suc (length pq)) (push_entry pq e) (length pq)

  unfoldable pub child : List (Entry K) → ℕ → ℕ → Option ℕ
  child pq j n = if ltb (suc j) n then second_if j (less pq (suc j) j) else some j

  -- The loop of `down`: the entries, and the place where it ends.
  unfoldable pub down_from : ℕ → List (Entry K) → ℕ → ℕ → Option (List (Entry K) × ℕ)
  down_from zero pq i n = none
  down_from (suc fuel) pq i n =
      if leb n (suc (2 * i))
      then some (pq, i)
      else with_result (child pq (suc (2 * i)) n)
          (λ j. sift (pq, i) (less pq j i) (swap pq i j) (λ r. down_from fuel r j n))

  -- `down`
  unfoldable pub down : ℕ → List (Entry K) → ℕ → ℕ → Option (List (Entry K) × Bool)
  down fuel pq i n = with_result (down_from fuel pq i n) (λ r. some (r.0, ltb i r.1))

  -- The method `Pop`: the entries that are left, and the last one.
  abbrev pub keep_first :
      Entry K → Option (List (Entry K) × Entry K) → Option (List (Entry K) × Entry K)
  keep_first x none = none
  keep_first x (some r) = some (x ∷ r.0, r.1)

  unfoldable pub pop_last : List (Entry K) → Option (List (Entry K) × Entry K)
  pop_last [] = none
  pop_last (x ∷ []) = some ([], record x { index = negsuc 0 })
  pop_last (x ∷ y ∷ ys) = keep_first x (pop_last (y ∷ ys))

  -- `heap.Pop`
  unfoldable pub heap_pop : List (Entry K) → Option (List (Entry K) × Entry K)
  heap_pop pq =
      let n = length pq - 1 in
      with_result (swap pq 0 n) (λ s. with_result (down (suc n) s 0 n) (λ d. pop_last d.0))

  abbrev pub fix_up : List (Entry K) × Bool → ℕ → Option (List (Entry K))
  fix_up (pq, true) i = some pq
  fix_up (pq, false) i = up (suc i) pq i

  -- `heap.Fix`
  unfoldable pub heap_fix : List (Entry K) → ℕ → Option (List (Entry K))
  heap_fix pq i = with_result (down (suc (length pq)) pq i (length pq)) (λ d. fix_up d i)

  -- The method `Peek`.
  unfoldable pub peek : List (Entry K) → Option (Entry K)
  peek pq = get_elem? pq 0
