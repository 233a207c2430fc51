-- ===== src/Workqueue/Waiting/Tests.antt =====
-- The waiting loop: the theorems at concrete inputs. Items are numbers.
use k8s_controller_the_hard.Prelude.{ℕ, refl, [], ◌∷◌, arith, ℕ_discrete as dec}
use k8s_controller_the_hard.Workqueue.Metrics
use k8s_controller_the_hard.Workqueue.Queue.{WaitFor, new_named_playboy_queue}
use k8s_controller_the_hard.Workqueue.Waiting.{WaitingState, add_ready}
use k8s_controller_the_hard.Workqueue.Waiting.Ready.{IsHeap, AllAdded, add_ready-AllAdded}
use k8s_controller_the_hard.Workqueue.Waiting.Selection.{list_heap, list_heap-IsHeap}
use k8s_controller_the_hard.Workqueue.Waiting.Entries.{entry_heap, entry_heap-IsHeap}
use mathlib.Core.List.{List}

-- Items 7 and 8 wait until 5 and 9.
abbrev two_waiting : WaitingState ℕ (Unit {0}) (List (WaitFor ℕ))
two_waiting = record {
  queue = new_named_playboy_queue 3 tt "" Metrics.noop_pointer;
  waiting_for_queue = record { item = 8; ready_at = 9 } ∷ record { item = 7; ready_at = 5 } ∷ [];
  known = (8, 9) ∷ (7, 5) ∷ [];
}

add_ready-AllAdded_example :
    AllAdded dec (list_heap dec) 6 two_waiting (add_ready dec (list_heap dec) 3 6 two_waiting)
unfolding new_named_playboy_queue
add_ready-AllAdded_example =
    add_ready-AllAdded dec (list_heap dec) 3 6 two_waiting (list_heap-IsHeap dec) refl (omega arith)

entry_heap-IsHeap_example : IsHeap (entry_heap dec)
entry_heap-IsHeap_example = entry_heap-IsHeap dec
