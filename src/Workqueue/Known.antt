-- ===== src/Workqueue/Known.antt =====
-- pkg/utils/workqueue: `insert` of helper.go, and the `heap.Pop` and `delete` of `waitingLoop`, on the
-- queue of waiting entries itself. `known` has the time of the entry that the Go map points to; this
-- entry is the one of its item in the queue.
pub mod Weights
pub mod Agrees
pub mod Takes
mod Tests
use k8s_controller_the_hard.Prelude.Places.{get_elem?, set_elem}
use k8s_controller_the_hard.Prelude.{
  ℕ, zero, suc, Bool, Option, none, some, List, [], ◌∷◌, if◌then◌else◌, ltb, ite,
}
use k8s_controller_the_hard.Prelude.Int.{ℤ, pos, negsuc}
use k8s_controller_the_hard.Prelude.GoMap
use k8s_controller_the_hard.Prelude.GoMap.{GoMap}
use k8s_controller_the_hard.Workqueue.PriorityQueue.{
  Entry, heap_push, heap_pop, heap_fix, with_result,
}

-- The variables `waitingForQueue` and `waitingEntryByData` of the loop.
pub record Known (K : Type 0) : Type 0 where
  pub entries : List (Entry K)
  pub times : GoMap K ℕ

abbrev found_later : Option ℕ → Option ℕ
found_later none = none
found_later (some i) = some (suc i)

module _ {K : Type 0} where
  -- `heap.Fix` with the index that an entry has; there is no place for a negative one.
  abbrev pub fix_at : List (Entry K) → ℤ → Option (List (Entry K))
  fix_at pq (pos i) = heap_fix pq i
  fix_at pq (negsuc i) = none

  -- The entry at the place gets the time, and the queue is fixed at the index of the entry.
  unfoldable pub set_time : List (Entry K) → ℕ → ℕ → Option (List (Entry K))
  set_time pq i t =
      with_result (get_elem? pq i) (λ e. fix_at (set_elem pq i (record e { ready_at = t })) e.index)

module _ {K : Type 0} (dec : Discrete K) where
  -- The place of the entry that the map points to.
  unfoldable pub find_place : List (Entry K) → K → Option ℕ
  find_place [] k = none
  find_place (e ∷ es) k = ite (dec e.entry_data k) (some 0) (found_later (find_place es k))

  -- `insert`, with the time of the existing entry.
  abbrev pub insert_existing : Known K → Entry K → Option ℕ → Option (Known K)
  insert_existing q e none =
      with_result (heap_push q.entries e) (λ s.
        some (record q { entries = s; times = GoMap.put dec q.times e.entry_data e.ready_at }))
  insert_existing q e (some existing) =
      if ltb e.ready_at existing
      then with_result (find_place q.entries e.entry_data) (λ i.
        with_result (set_time q.entries i e.ready_at) (λ s.
          some (record q { entries = s; times = GoMap.put dec q.times e.entry_data e.ready_at })))
      else some q

  unfoldable pub insert_waiting : Known K → Entry K → Option (Known K)
  insert_waiting q e = insert_existing q e (GoMap.get dec q.times e.entry_data)

  -- A round of the loop takes the first entry and forgets it.
  unfoldable pub pop_waiting : Known K → Option (Known K × Entry K)
  pop_waiting q =
      with_result (heap_pop q.entries) (λ r.
        some (record q { entries = r.0; times = GoMap.remove dec q.times r.1.entry_data }, r.1))
