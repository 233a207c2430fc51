-- ===== src/Workqueue/PriorityQueue/Fixes.antt =====
-- pkg/utils/workqueue/helper.go: `heap.Fix` on the queue of waiting entries, after the time of an entry
-- has been set.
use k8s_controller_the_hard.Prelude.{
  ℕ, suc, ◌<◌, ◌≡◌, refl, ◌⊎◌, inl, inr, true, false, Option, some, List, length, arith, ltb,
}
use k8s_controller_the_hard.Workqueue.PriorityQueue.{Entry, down, fix_up, heap_fix}
use k8s_controller_the_hard.Workqueue.PriorityQueue.Order.{
  IsOrdered, Around, Around-Rises, LeadsChildren,
}
use k8s_controller_the_hard.Workqueue.PriorityQueue.Places.{time, Shuffled}
use k8s_controller_the_hard.Workqueue.PriorityQueue.Sifting.{up-Ups, down_from-Downs}

module _ {K : Type 0} where
  -- The call returns the same entries, in order if only the place was out of order.
  abbrev pub Restores : List (Entry K) → ℕ → Option (List (Entry K)) → Type 0
  Restores pq i r =
      (s : List (Entry K)) × (r ≡ some s)
      × Shuffled pq s
      × (Around (length pq) (time pq) i → IsOrdered (length s) (time s))

  moved-Restores :
      (pq d : List (Entry K)) (i j : ℕ)
      → i < length pq
      → Shuffled pq d
      → ((j ≡ i) × (d ≡ pq) × LeadsChildren (length pq) (time pq) i)
        ⊎ ((i < j) × (Around (length pq) (time pq) i → IsOrdered (length pq) (time d)))
      → Restores pq i (fix_up (d, ltb i j) i)
  moved-Restores pq d i j h k (inr (low, o)) =
      let t : ltb i j ≡ true = ground (arith, low) in rw t (d, refl, k, λ a. rw k.same_length (o a))
  moved-Restores pq d i j h k (inl (e, same, lead)) =
      let t : ltb i j ≡ false = ground (arith, e) in
      let (s, g, m, o) = up-Ups (suc i) pq i h (omega arith) in
      rw (t, same, g)
        (s, refl, m, λ a. rw m.same_length (o (Around-Rises (length pq) (time pq) i a lead)))

  pub fix-Restores : (pq : List (Entry K)) (i : ℕ) → i < length pq → Restores pq i (heap_fix pq i)
  unfolding heap_fix down
  fix-Restores pq i h =
      let (d, j, e, k, above, stop) =
        down_from-Downs (suc (length pq)) pq i (length pq) (omega arith) (omega (arith, h))
          (omega arith) in
      rw e (moved-Restores pq d i j h k stop)
