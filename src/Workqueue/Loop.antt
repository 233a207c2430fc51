-- ===== src/Workqueue/Loop.antt =====
-- pkg/utils/workqueue/playboyqueue.go: the rounds of `waitingLoop`, with the timer and the `select`.
pub mod Linked
pub mod Served
pub mod Requests
pub mod Schedules
pub mod Timer
mod Tests
use k8s_controller_the_hard.Prelude.{
  ℕ, suc, ◌-◌, Bool, true, false, Option, none, some, List, [], ◌∷◌, if◌then◌else◌, length,
}
use k8s_controller_the_hard.Workqueue.Queue.{Queue, WaitFor}
use k8s_controller_the_hard.Workqueue.Waiting.{
  Heap, WaitingState, add_ready, receive_entry, receive_all,
}

-- What the `select` of a round finds: `stopCh`, the heartbeat, the timer, or an entry in the channel,
-- with those that follow until the channel is empty. Each entry comes at its time.
pub data Wake (K : Type 0) : Type 0 where
  stopped : Wake K
  heartbeat : Wake K
  timer : Wake K
  received : ℕ → WaitFor K → List (ℕ × WaitFor K) → Wake K

-- A round, with the queue that the other goroutines have left when it starts, and the time then.
pub record LoopRound (K S : Type 0) : Type 0 where
  pub found : Queue K S
  pub now : ℕ
  pub wake : Wake K

module _ {K : Type 0} where
  abbrev pub timer_for : ℕ → Option (WaitFor K) → Option ℕ
  timer_for now none = none
  timer_for now (some entry) = some (entry.ready_at - now)

module _ {K S H : Type 0} (heap : Heap K H) where
  -- The time on the timer after the loop over the ready entries; none for `never`.
  unfoldable pub next_ready_at : LoopRound K S → WaitingState K S H → Option ℕ
  next_ready_at r s = timer_for r.now (heap.peek s.waiting_for_queue)

module _ {K S H : Type 0} (dec : Discrete K) (heap : Heap K H) where
  -- The loop over the ready entries.
  unfoldable pub ready_part : LoopRound K S → WaitingState K S H → WaitingState K S H
  ready_part r s =
      (add_ready dec heap (suc (length (heap.entries s.waiting_for_queue))) r.now
        (record s { queue = r.found })).0

  -- The branches of the `select`; none where the loop returns.
  abbrev pub select_part : Wake K → WaitingState K S H → Option (WaitingState K S H)
  select_part Wake.stopped s = none
  select_part Wake.heartbeat s = some s
  select_part Wake.timer s = some s
  select_part (Wake.received at entry rest) s =
      some (receive_all dec heap (receive_entry dec heap at s entry) rest)

  unfoldable pub loop_round : LoopRound K S → WaitingState K S H → Option (WaitingState K S H)
  loop_round r s = if Queue.shutting_down r.found then none else select_part r.wake (ready_part r s)
