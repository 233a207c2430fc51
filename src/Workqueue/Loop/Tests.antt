-- ===== src/Workqueue/Loop/Tests.antt =====
-- The rounds of the waiting loop: the theorems at a concrete state. Items are numbers.
use k8s_controller_the_hard.Prelude.Places.{total}
use k8s_controller_the_hard.Prelude.{ℕ, ◌<◌, ◌≤◌, refl, ◌∷◌, [], arith, ℕ_discrete}
use k8s_controller_the_hard.Workqueue.Metrics
use k8s_controller_the_hard.Prelude.GoMap
use k8s_controller_the_hard.Workqueue.Queue.{Queue, WaitFor, new_named_playboy_queue}
use k8s_controller_the_hard.Workqueue.PriorityQueue.Tests.{two, two-IsValid}
use k8s_controller_the_hard.Workqueue.Waiting.{receive_entry}
use k8s_controller_the_hard.Workqueue.Waiting.Received.{IsAdded}
use k8s_controller_the_hard.Workqueue.Loop.Schedules.{IsInserted, receive_entry-cases}
use k8s_controller_the_hard.Workqueue.Waiting.Entries.{entry_heap}
use k8s_controller_the_hard.Workqueue.Loop.{Wake, LoopRound, ready_part, next_ready_at}
use k8s_controller_the_hard.Workqueue.Loop.Linked.{Loop, IsLinked}
use k8s_controller_the_hard.Workqueue.Loop.Requests.{Requests, loop-Requests}
use k8s_controller_the_hard.Workqueue.Loop.Timer.{Fits, timer-Fits}

abbrev fresh_queue : Queue ℕ (Unit {0})
fresh_queue = new_named_playboy_queue 3 tt "" Metrics.noop_pointer

-- Items 7 and 8 wait until 5 and 9.
abbrev start : Loop ℕ (Unit {0})
start = record {
  queue = fresh_queue;
  waiting_for_queue = record { waiting = two; valid = two-IsValid };
  known = (7, 5) ∷ (8, 9) ∷ [];
}

start-IsLinked : IsLinked ℕ_discrete start
unfolding total GoMap.get
start-IsLinked = record { valid = two-IsValid; same = λ x w. ground arith }

-- A round at 6, in which item 9 comes from the channel, and one at 9.
abbrev first_round : LoopRound ℕ (Unit {0})
first_round = record {
  found = fresh_queue;
  now = 6;
  wake = Wake.received 6 (record { item = 9; ready_at = 20 }) [];
}

abbrev last_round : LoopRound ℕ (Unit {0})
last_round = record { found = fresh_queue; now = 9; wake = Wake.timer }

loop-Requests_example : Requests ℕ_discrete 8 start (first_round ∷ last_round ∷ [])
unfolding new_named_playboy_queue GoMap.get ℕ_discrete
loop-Requests_example =
    loop-Requests ℕ_discrete 8 9 start (first_round ∷ []) last_round start-IsLinked
      (refl, tt, (refl, tt, tt)) refl (omega arith)

timer-Fits_example :
    Fits ℕ_discrete 6 (ready_part ℕ_discrete (entry_heap ℕ_discrete) first_round start) (
      next_ready_at
        (entry_heap ℕ_discrete)
        first_round
        (ready_part ℕ_discrete (entry_heap ℕ_discrete) first_round start))
unfolding new_named_playboy_queue
timer-Fits_example = timer-Fits ℕ_discrete first_round start start-IsLinked refl

abbrev sooner : WaitFor ℕ
sooner = record { item = 8; ready_at = 7 }

receive_entry-cases_example :
    (6 < 7
      → IsInserted ℕ_discrete start sooner
          (receive_entry ℕ_discrete (entry_heap ℕ_discrete) 6 start sooner))
    × (7 ≤ 6
        → IsAdded ℕ_discrete
            (entry_heap ℕ_discrete)
            start
            sooner
            (receive_entry ℕ_discrete (entry_heap ℕ_discrete) 6 start sooner))
unfolding new_named_playboy_queue
receive_entry-cases_example = receive_entry-cases ℕ_discrete 6 start sooner start-IsLinked refl
