-- ===== src/Workqueue/PriorityQueue/Calls.antt =====
-- pkg/utils/workqueue/helper.go: `heap.Push`, `heap.Pop` and `heap.Fix` on the queue of waiting
-- entries.
use k8s_controller_the_hard.Prelude.Places.{
  total-set_elem, get_elem?, get_elem?-lt, get_elem?-set_other, length-set_elem, set_elem,
}
use k8s_controller_the_hard.Prelude.{
  ℕ, suc, ◌+◌, ◌<◌, ◌≤◌, ◌≡◌, refl, ap, Option, none, some, List, [], ◌∷◌, length, arith,
}
use k8s_controller_the_hard.Prelude.Int.{negsuc}
use k8s_controller_the_hard.Workqueue.PriorityQueue.{
  Entry, heap_push, heap_pop, heap_fix, peek, swap,
}
use k8s_controller_the_hard.Workqueue.PriorityQueue.Order.{IsOrdered, changed-Around}
use k8s_controller_the_hard.Workqueue.PriorityQueue.Places.{
  time, time_of, weight, weigh, IsIndexed, retimed-IsIndexed,
}
use k8s_controller_the_hard.Workqueue.PriorityQueue.Pushes.{push-Pushed}
use k8s_controller_the_hard.Workqueue.PriorityQueue.Pops.{unplaced, pop-Popped}
use k8s_controller_the_hard.Workqueue.PriorityQueue.Fixes.{fix-Restores}

module _ {K : Type 0} where
  -- The call returns a queue of this length with the right indices.
  abbrev pub Returns : ℕ → Option (List (Entry K)) → Type 0
  Returns n r = (pq : List (Entry K)) × (r ≡ some pq) × (length pq ≡ n) × IsIndexed pq

  -- The call returns this many entries with the right indices, and one with the index -1.
  abbrev pub Pops : ℕ → Option (List (Entry K) × Entry K) → Type 0
  Pops n r =
      (pq : List (Entry K)) × (e : Entry K) × (r ≡ some (pq, e))
      × (length pq ≡ n)
      × IsIndexed pq
      × (e.index ≡ negsuc 0)

  push-Returns :
      (pq : List (Entry K)) (e : Entry K)
      → IsIndexed pq
      → Returns (suc (length pq)) (heap_push pq e)
  push-Returns pq e v = let (s, r, p) = push-Pushed pq e in (s, r, p.one_more, p.indexed v)

  pop-Pops : (pq : List (Entry K)) (n : ℕ) → IsIndexed pq → length pq ≡ suc n → Pops n (heap_pop pq)
  pop-Pops pq n v h =
      let (s, e, r, p) = pop-Popped pq n h in
      (s, e, r, omega (arith, p.one_less, h), p.indexed v, p.unindexed)

  -- `heap.Push` of an entry, and `heap.Pop` of a queue that is not empty, find all their indices in
  -- range and end: `Push` returns a queue of one entry more, and `Pop` one of an entry less and an
  -- entry with the index -1. If each entry has its position as its index, so it has afterwards.
  pub push_pop-Returns :
      (pq : List (Entry K)) (e : Entry K)
      → IsIndexed pq
      → Returns (suc (length pq)) (heap_push pq e)
        × ((n : ℕ) → length pq ≡ suc n → Pops n (heap_pop pq))
  push_pop-Returns pq e v = (push-Returns pq e v, λ n h. pop-Pops pq n v h)

  -- Each entry has its position as its index, and no entry is earlier than its parent.
  pub record IsValid (pq : List (Entry K)) : Type 0 where
    pub indexed : IsIndexed pq
    pub ordered : IsOrdered (length pq) (time pq)

  -- The call returns a valid queue, whose entries weigh so much.
  abbrev pub Keeps : ((K → ℕ → ℕ) → ℕ → Type 0) → Option (List (Entry K)) → Type 0
  Keeps W r = (s : List (Entry K)) × (r ≡ some s) × IsValid s × ((w : K → ℕ → ℕ) → W w (weigh w s))

  -- `e` is the first entry, none is earlier, and it is what is missing in the valid queue; there is
  -- no result where there is no entry.
  abbrev pub TakesFirst : List (Entry K) → Option (List (Entry K) × Entry K) → Type 0
  TakesFirst [] r = r ≡ none
  TakesFirst (x ∷ xs) r =
      (s : List (Entry K)) × (e : Entry K) × (r ≡ some (s, e))
      × IsValid s
      × (e ≡ unplaced x)
      × ((k : ℕ) → k < suc (length xs) → e.ready_at ≤ time (x ∷ xs) k)
      × ((w : K → ℕ → ℕ) → weight w e + weigh w s ≡ weigh w (x ∷ xs))

  abbrev pub at_time : Entry K → ℕ → Entry K
  at_time e t = record e { ready_at = t }

  pub push-Keeps :
      (pq : List (Entry K)) (e : Entry K)
      → IsValid pq
      → Keeps (λ w n. n ≡ weight w e + weigh w pq) (heap_push pq e)
  push-Keeps pq e v =
      let (s, r, p) = push-Pushed pq e in
      (s, r, record { indexed = p.indexed v.indexed; ordered = p.ordered v.ordered }, p.weights)

  pub pop-TakesFirst : (pq : List (Entry K)) → IsValid pq → TakesFirst pq (heap_pop pq)
  unfolding heap_pop swap get_elem? peek
  pop-TakesFirst [] v = refl
  pop-TakesFirst (x ∷ xs) v =
      let (s, e, r, p) = pop-Popped (x ∷ xs) (length xs) refl in
      (
        s,
        e,
        r,
        record { indexed = p.indexed v.indexed; ordered = p.ordered v.ordered },
        p.first x refl,
        p.least v.ordered,
        p.weights,
      )

  -- `heap.Fix` of a place at which an entry has got another time, in a queue that was valid before,
  -- returns a valid queue with all the entries and their times. What the entries weigh, for every
  -- weight of an item and a time, says which they are, in whatever order.
  pub fix-Keeps :
      (pq : List (Entry K)) (i t : ℕ) (e : Entry K)
      → IsValid pq
      → get_elem? pq i ≡ some e
      → Keeps
          (λ w n. n + weight w e ≡ weigh w pq + weight w (at_time e t))
          (heap_fix (set_elem pq i (at_time e t)) i)
  fix-Keeps pq i t e v h =
      let changed = set_elem pq i (at_time e t) in
      let n = length-set_elem pq i (at_time e t) in
      let inside : i < length pq = get_elem?-lt pq i e h in
      let (s, r, m, o) = fix-Restores changed i (omega (arith, n, inside)) in
      let around =
        changed-Around (length pq) (time pq) (time changed) i v.ordered
          (λ k d. ap time_of (get_elem?-set_other pq i k (at_time e t) d)) inside in
      (
        s,
        r,
        record {
          indexed = m.indexed (retimed-IsIndexed pq i e t v.indexed h);
          ordered = o (rw n around);
        },
        λ w. omega (arith, m.same_weight w, total-set_elem (weight w) pq i (at_time e t) e h),
      )

  -- A valid queue stays valid. `heap.Push` returns, and adds the entry and nothing else. `heap.Pop`
  -- takes the entry at the front, which `Peek` returns, none is earlier, and it takes nothing else; it
  -- fails just where the queue is empty. What the entries weigh, for every weight of an item and a
  -- time, says which they are, in whatever order.
  pub push_pop-IsValid :
      (pq : List (Entry K)) (e : Entry K)
      → IsValid pq
      → Keeps (λ w n. n ≡ weight w e + weigh w pq) (heap_push pq e) × TakesFirst pq (heap_pop pq)
  push_pop-IsValid pq e v = (push-Keeps pq e v, pop-TakesFirst pq v)
