-- ===== src/Workqueue/Waiting/Received.antt =====
-- pkg/utils/workqueue: the known times after the waiting loop received an entry.
use k8s_controller_the_hard.Prelude.{
  ℕ, ◌≡◌, refl, sym, ap, ◌∙◌, true, false, Option, none, some, if◌then◌else◌, ltb, leb, arith, ite,
  inl, inr, Bool-cases,
}
use k8s_controller_the_hard.Prelude.GoMap
use k8s_controller_the_hard.Workqueue.Set.{has}
use k8s_controller_the_hard.Workqueue.Queue.{WaitFor, is_fresh}
use k8s_controller_the_hard.Workqueue.Waiting.{Heap, WaitingState, insert_known, add_entry}
use k8s_controller_the_hard.Workqueue.Waiting.Ready.{add_self}

-- The earlier of the time that an item has, if it has one, and of a new time.
abbrev pub earliest : Option ℕ → ℕ → ℕ
earliest none t = t
earliest (some old) t = if leb old t then old else t

module _ {K S H : Type 0} (dec : Discrete K) (heap : Heap K H) where
  -- The item has the earlier of its old and its new time; other items have theirs, and the queue is
  -- as it was.
  pub record IsScheduled (s : WaitingState K S H) (e : WaitFor K) (t : WaitingState K S H)
      : Type 0 where
    pub queue : t.queue ≡ s.queue
    pub times :
        (y : K)
        → GoMap.get dec t.known y
          ≡ ite
              (dec e.item y)
              (some (earliest (GoMap.get dec s.known e.item) e.ready_at))
              (GoMap.get dec s.known y)

  -- The item is requested, and what waits is as it was.
  pub record IsAdded (s : WaitingState K S H) (e : WaitFor K) (t : WaitingState K S H)
      : Type 0 where
    pub requested : has dec t.queue.dirty e.item ≡ true
    pub waiting : t.waiting_for_queue ≡ s.waiting_for_queue
    pub known : t.known ≡ s.known

  kept-times :
      (s : WaitingState K S H) (e : WaitFor K) (old : ℕ)
      → GoMap.get dec s.known e.item ≡ some old
      → earliest (some old) e.ready_at ≡ old
      → (y : K) (d : Dec (e.item ≡ y))
      → GoMap.get dec s.known y
        ≡ ite d
            (some (earliest (GoMap.get dec s.known e.item) e.ready_at))
            (GoMap.get dec s.known y)
  kept-times s e old h same y (yes p) =
      sym (ap (λ k. GoMap.get dec s.known k) p)
      ∙ h
      ∙ ap some (sym (ap (λ o. earliest o e.ready_at) h ∙ same))
  kept-times s e old h same y (no n) = refl

  pub known-times :
      (s : WaitingState K S H) (e : WaitFor K) (o : Option ℕ)
      → GoMap.get dec s.known e.item ≡ o
      → IsScheduled s e (insert_known dec heap s e o)
  known-times s e none h = record {
    queue = refl;
    times = λ y. rw h (GoMap.get-put dec s.known e.item y e.ready_at);
  }
  known-times s e (some old) h = elim (Bool-cases (ltb e.ready_at old)) [
    | inl sooner ↦ rw sooner (record {
      queue = refl;
      times = λ y. rw h (ground (arith, sooner, GoMap.get-put dec s.known e.item y e.ready_at));
    })
    | inr later ↦ rw later (record {
      queue = refl;
      times = λ y. kept-times s e old h (ground (arith, later)) y (dec e.item y);
    })
  ]

  pub add-IsAdded :
      (now : ℕ) (s : WaitingState K S H) (e : WaitFor K)
      → s.queue.shutting_down ≡ false
      → IsAdded s e (add_entry dec heap now s e.item)
  unfolding add_entry
  add-IsAdded now s e up = record {
    requested = add_self dec now s.queue e.item (is_fresh dec s.queue e.item) up;
    waiting = refl;
    known = refl;
  }
