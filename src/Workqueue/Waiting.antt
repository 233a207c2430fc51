-- ===== src/Workqueue/Waiting.antt =====
-- pkg/utils/workqueue: `insert` of helper.go, and the body of `waitingLoop` of playboyqueue.go. The
-- heap of entries is a parameter; an entry stands in it by its item, and `known` maps the item to the
-- time that the entry has now.
pub mod Ready
pub mod Received
pub mod Selection
pub mod Members
pub mod Entries
mod Tests
use k8s_controller_the_hard.Prelude.{
  ℕ, zero, suc, ◌≤◌, ◌≡◌, ◌⊎◌, ◌↔◌, Bool, true, false, Option, none, some, List, [], ◌∷◌,
  if◌then◌else◌, ltb, length,
}
use k8s_controller_the_hard.Prelude.GoMap
use k8s_controller_the_hard.Prelude.GoMap.{GoMap}
use k8s_controller_the_hard.Workqueue.Queue.{Queue, WaitFor, add_fresh_or_staled, is_fresh}

-- A `waitForPriorityQueue` under container/heap. `peek` is none where the heap is empty, as is `popped`,
-- the entry that `heap.Pop` returns; `pop` is what it leaves of the heap, and `lower` sets the time of an item's entry and calls `heap.Fix`.
pub record Heap (K H : Type 0) : Type 0 where
  pub entries : H → List (WaitFor K)
  pub peek : H → Option (WaitFor K)
  pub popped : H → Option (WaitFor K)
  pub pop : H → H
  pub push : H → WaitFor K → H
  pub lower : H → K → ℕ → H

-- The loop's variables, with the queue.
pub record WaitingState (K S H : Type 0) : Type 0 where
  pub queue : Queue K S
  pub waiting_for_queue : H
  pub known : GoMap K ℕ

module _ {K S H : Type 0} (dec : Discrete K) (heap : Heap K H) where
  -- `insert`, with the time that `known` has for the item.
  abbrev pub insert_known : WaitingState K S H → WaitFor K → Option ℕ → WaitingState K S H
  insert_known s entry none = record s {
    waiting_for_queue = heap.push s.waiting_for_queue entry;
    known = GoMap.put dec s.known entry.item entry.ready_at;
  }
  insert_known s entry (some existing) =
      if ltb entry.ready_at existing
      then record s {
        waiting_for_queue = heap.lower s.waiting_for_queue entry.item entry.ready_at;
        known = GoMap.put dec s.known entry.item entry.ready_at;
      }
      else s

  unfoldable pub insert_entry : WaitingState K S H → WaitFor K → WaitingState K S H
  insert_entry s entry = insert_known s entry (GoMap.get dec s.known entry.item)

  -- `q.add(entry.data, q.isFresh(entry.data))`
  unfoldable pub add_entry : ℕ → WaitingState K S H → K → WaitingState K S H
  add_entry now s item = record s {
    queue = add_fresh_or_staled dec now s.queue item (is_fresh dec s.queue item);
  }

  -- After `heap.Pop`: the entry that it returned is added and forgotten.
  abbrev pub add_popped : ℕ → WaitingState K S H → Option (WaitFor K) → WaitingState K S H
  add_popped now s none = s
  add_popped now s (some entry) =
      let added = add_entry now s entry.item in
      record added {
        waiting_for_queue = heap.pop s.waiting_for_queue;
        known = GoMap.remove dec s.known entry.item;
      }

  abbrev pub pop_entry : ℕ → WaitingState K S H → WaitingState K S H
  pop_entry now s = add_popped now s (heap.popped s.waiting_for_queue)

  -- One round of the loop over the ready entries, with what `Peek` returns: none where it ends.
  abbrev pub ready_round : ℕ → WaitingState K S H → Option (WaitFor K) → Option (WaitingState K S H)
  ready_round now s none = none
  ready_round now s (some entry) = if ltb now entry.ready_at then none else some (pop_entry now s)

  -- What follows the round.
  abbrev pub ready_next :
      WaitingState K S H
      → Option (WaitingState K S H)
      → (WaitingState K S H → WaitingState K S H × Bool)
      → WaitingState K S H × Bool
  ready_next s none next = (s, true)
  ready_next s (some t) next = next t

  -- The loop, with a unit of fuel for each round; true if it ended by itself.
  unfoldable pub add_ready : ℕ → ℕ → WaitingState K S H → WaitingState K S H × Bool
  add_ready zero now s = (s, false)
  add_ready (suc fuel) now s =
      ready_next s (ready_round now s (heap.peek s.waiting_for_queue)) (λ r. add_ready fuel now r)

  -- An entry that was received from the channel.
  unfoldable pub receive_entry : ℕ → WaitingState K S H → WaitFor K → WaitingState K S H
  receive_entry now s entry =
      if ltb now entry.ready_at then insert_entry s entry else add_entry now s entry.item

  -- The entries that are received in one round of the outer loop, at their times.
  unfoldable pub receive_all : WaitingState K S H → List (ℕ × WaitFor K) → WaitingState K S H
  receive_all s [] = s
  receive_all s ((now, entry) ∷ rest) = receive_all (receive_entry now s entry) rest
