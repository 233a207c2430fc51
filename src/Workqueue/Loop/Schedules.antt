-- ===== src/Workqueue/Loop/Schedules.antt =====
-- pkg/utils/workqueue: what the waiting loop does with an entry that it receives.
use k8s_controller_the_hard.Prelude.{
  ℕ, ◌≤◌, ◌<◌, ◌≡◌, refl, ◌∙◌, true, false, some, ltb, arith, if_pos,
}
use k8s_controller_the_hard.Prelude.GoMap
use k8s_controller_the_hard.Workqueue.Queue.{WaitFor}
use k8s_controller_the_hard.Workqueue.Waiting.{insert_entry, receive_entry}
use k8s_controller_the_hard.Workqueue.Waiting.Ready.{Waits}
use k8s_controller_the_hard.Workqueue.Waiting.Received.{
  earliest, IsScheduled, IsAdded, known-times, add-IsAdded,
}
use k8s_controller_the_hard.Workqueue.Waiting.Entries.{entry_heap}
use k8s_controller_the_hard.Workqueue.Loop.Linked.{Loop, IsLinked, insert-IsLinked, known-Waits}

module _ {K S : Type 0} (dec : Discrete K) where
  -- The item of the entry waits in the heap, for the earlier of its old and its new time, and heap and
  -- map agree on all items.
  pub record IsInserted (s : Loop K S) (e : WaitFor K) (t : Loop K S) : Type 0 where
    pub scheduled : IsScheduled dec (entry_heap dec) s e t
    pub linked : IsLinked dec t
    pub waits :
        Waits dec
          (entry_heap dec)
          t
          (record { item = e.item; ready_at = earliest (GoMap.get dec s.known e.item) e.ready_at })

  insert-IsInserted :
      (s : Loop K S) (e : WaitFor K)
      → IsLinked dec s
      → IsInserted s e (insert_entry dec (entry_heap dec) s e)
  unfolding insert_entry
  insert-IsInserted s e a =
      let times = known-times dec (entry_heap dec) s e (GoMap.get dec s.known e.item) refl in
      let linked = insert-IsLinked dec s e (GoMap.get dec s.known e.item) a refl in
      record {
        scheduled = times;
        linked = linked;
        waits =
            known-Waits dec (insert_entry dec (entry_heap dec) s e) e.item
              (earliest (GoMap.get dec s.known e.item) e.ready_at) linked
              (times.times e.item
                ∙ if_pos (dec e.item e.item) refl
                    (some (earliest (GoMap.get dec s.known e.item) e.ready_at))
                    (GoMap.get dec s.known e.item));
      }

  -- An entry that comes with a time after `now` is put into the heap: its item waits there for the
  -- earlier of its old and its new time, other items for theirs, heap and map agree after it as before,
  -- and the queue is as it was. An entry that is due has its item requested at once, and leaves what
  -- waits alone. The queue is not shut down.
  pub receive_entry-cases :
      (now : ℕ) (s : Loop K S) (e : WaitFor K)
      → IsLinked dec s
      → s.queue.shutting_down ≡ false
      → (now < e.ready_at → IsInserted s e (receive_entry dec (entry_heap dec) now s e))
        × (e.ready_at ≤ now
            → IsAdded dec (entry_heap dec) s e (receive_entry dec (entry_heap dec) now s e))
  unfolding receive_entry
  receive_entry-cases now s e a up = (
    λ late.
        let l : ltb now e.ready_at ≡ true = ground (arith, late) in rw l (insert-IsInserted s e a),
    λ due.
        let d : ltb now e.ready_at ≡ false = ground (arith, due) in
        rw d (add-IsAdded dec (entry_heap dec) now s e up),
  )
