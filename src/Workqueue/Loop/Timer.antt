-- ===== src/Workqueue/Loop/Timer.antt =====
-- pkg/utils/workqueue/playboyqueue.go: the timer of the loop.
use mathlib.Core.List.{Memᴰ}
use k8s_controller_the_hard.Prelude.{
  map, ℕ, ◌+◌, ◌-◌, ◌≤◌, ◌<◌, ◌≡◌, refl, sym, ap, ◌∙◌, inl, inr, Option, none, some, List, [], ◌∷◌,
  false, arith, Option-cases,
}
use k8s_controller_the_hard.Prelude.GoMap
use k8s_controller_the_hard.Workqueue.Queue.{Queue, WaitFor}
use k8s_controller_the_hard.Workqueue.PriorityQueue.{Entry}
use k8s_controller_the_hard.Workqueue.Waiting.Ready.{Waits, no_members}
use k8s_controller_the_hard.Workqueue.Waiting.Members.{view}
use k8s_controller_the_hard.Workqueue.Waiting.Entries.{
  ValidQueue, entry_heap, entry_heap-IsHeap, peek_view,
}
use k8s_controller_the_hard.Workqueue.Loop.{timer_for, LoopRound, ready_part, next_ready_at}
use k8s_controller_the_hard.Workqueue.Loop.Linked.{
  same_wait, Loop, IsLinked, known-Waits, Waits-known,
}
use k8s_controller_the_hard.Workqueue.Loop.Served.{ready-IsLinked, ready-late}

peek_view-Waits :
    {K : Type 0}
    → (pq : List (Entry K)) (e : WaitFor K) → peek_view pq ≡ some e
    → Memᴰ e (map view pq)
peek_view-Waits [] e h = cc
peek_view-Waits (x ∷ xs) e h = Memᴰ.head (same_wait e (view x) (sym h))

module _ {K S : Type 0} (dec : Discrete K) where
  -- Nothing is known where there is no timer, and else the timer goes, after some time, at the
  -- earliest of the known times.
  abbrev pub Fits : ℕ → Loop K S → Option ℕ → Type 0
  Fits now s none = (y : K) → GoMap.get dec s.known y ≡ none
  Fits now s (some d) =
      (0 < d)
      × ((y : K) × (GoMap.get dec s.known y ≡ some (now + d)))
      × ((z : K) (u : ℕ) → GoMap.get dec s.known z ≡ some u → now + d ≤ u)

  -- The state of the loop, with what `Peek` returns.
  peeked-Fits :
      (now : ℕ) (s : Loop K S) (o : Option (WaitFor K))
      → IsLinked dec s
      → peek_view (ValidQueue.waiting s.waiting_for_queue) ≡ o
      → ((x : WaitFor K) → Waits dec (entry_heap dec) s x → now < x.ready_at)
      → Fits now s (timer_for now o)
  peeked-Fits now s none a p late = λ y. elim (Option-cases (GoMap.get dec s.known y)) [
    | inl h ↦ h
    | inr (u, h) ↦
        let empty = (entry_heap-IsHeap dec).empty s.waiting_for_queue p in
        absurd (no_members (rw empty at (known-Waits dec s y u a h)))
  ]
  peeked-Fits now s (some e) a p late =
      let here = peek_view-Waits (ValidQueue.waiting s.waiting_for_queue) e p in
      let soon = late e here in
      let sum : e.ready_at ≡ now + (e.ready_at - now) = omega (arith, soon) in
      (
        omega (arith, soon),
        (e.item, Waits-known dec s e.item e.ready_at a here ∙ ap some sum),
        λ z u h. omega (
          arith,
          soon,
          (entry_heap-IsHeap dec).least s.waiting_for_queue e (record { item = z; ready_at = u }) p
              (known-Waits dec s z u a h),
        ),
      )

  -- After the loop over the ready entries there is no timer if no item waits, and else a timer with a
  -- time above zero, which goes at the earliest of the known times. The queue of entries and the map
  -- of known ones agree at the start of the round, and the queue is not shut down.
  pub timer-Fits :
      (r : LoopRound K S) (s : Loop K S)
      → IsLinked dec s
      → Queue.shutting_down r.found ≡ false
      → Fits r.now
          (ready_part dec (entry_heap dec) r s)
          (next_ready_at (entry_heap dec) r (ready_part dec (entry_heap dec) r s))
  unfolding next_ready_at
  timer-Fits r s a up =
      peeked-Fits r.now (ready_part dec (entry_heap dec) r s) _ (ready-IsLinked dec r s a) refl
        (λ x w. ready-late dec r s x up w)
