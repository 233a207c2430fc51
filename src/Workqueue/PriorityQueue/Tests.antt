-- ===== src/Workqueue/PriorityQueue/Tests.antt =====
-- The queue of waiting entries: runs, and the theorem at a concrete input.
use k8s_controller_the_hard.Prelude.Places.{get_elem?, set_elem}
use k8s_controller_the_hard.Prelude.{ℕ, zero, suc, ◌≡◌, refl, arith, some, List, [], ◌∷◌}
use k8s_controller_the_hard.Prelude.Int.{pos}
use k8s_controller_the_hard.Workqueue.PriorityQueue.{
  Entry, less, swap, push_entry, up, heap_push, heap_fix, down, down_from, child,
}
use k8s_controller_the_hard.Workqueue.PriorityQueue.Places.{IsIndexed, time}
use k8s_controller_the_hard.Workqueue.PriorityQueue.Order.{IsOrdered}
use k8s_controller_the_hard.Workqueue.PriorityQueue.Calls.{IsValid, at_time}

abbrev pub entry : ℕ → ℕ → ℕ → Entry ℕ
entry x t i = record { entry_data = x; ready_at = t; index = pos i }

abbrev pub two : List (Entry ℕ)
two = entry 7 5 0 ∷ entry 8 9 1 ∷ []

index_of : (a b : Entry ℕ) → some a ≡ some b → b.index ≡ a.index
index_of a b h = cc

two-IsIndexed : IsIndexed two
unfolding get_elem?
two-IsIndexed zero e h = index_of (entry 7 5 0) e h
two-IsIndexed (suc zero) e h = index_of (entry 8 9 1) e h
two-IsIndexed (suc (suc k)) e h = cc

-- The earliest entry comes to the front, and the later one to its place.
push_first : heap_push two (entry 9 1 0) ≡ some (entry 9 1 0 ∷ entry 8 9 1 ∷ entry 7 5 2 ∷ [])
unfolding heap_push up push_entry less swap get_elem? set_elem
push_first = refl

two-IsOrdered : IsOrdered 2 (time two)
unfolding get_elem?
two-IsOrdered zero h l = absurd (omega (arith, h))
two-IsOrdered (suc zero) h l = omega arith
two-IsOrdered (suc (suc k)) h l = absurd (omega (arith, l))

pub two-IsValid : IsValid two
two-IsValid = record { indexed = two-IsIndexed; ordered = two-IsOrdered }

-- The entry that has become the earliest comes to the front.
fix_second :
    heap_fix (set_elem two 1 (at_time (entry 8 9 1) 3)) 1 ≡ some (entry 8 3 0 ∷ entry 7 5 1 ∷ [])
unfolding heap_fix up down down_from child less swap get_elem? set_elem
fix_second = refl
