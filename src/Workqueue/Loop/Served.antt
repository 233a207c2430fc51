-- ===== src/Workqueue/Loop/Served.antt =====
-- pkg/utils/workqueue/playboyqueue.go: what the parts of a round do to the known times.
use k8s_controller_the_hard.Prelude.{
  ℕ, zero, suc, ◌≤◌, ◌<◌, ◌≡◌, refl, ap, ◌∙◌, ◌⊎◌, inl, inr, true, false, Option, none, some, List,
  [], ◌∷◌, ltb, arith, Bool-cases, Option-cases, ite,
}
use k8s_controller_the_hard.Prelude.GoMap
use k8s_controller_the_hard.Prelude.GoMap.{GoMap}
use k8s_controller_the_hard.Workqueue.Set.{has}
use k8s_controller_the_hard.Workqueue.Queue.{Queue, WaitFor}
use k8s_controller_the_hard.Workqueue.Waiting.{
  WaitingState, insert_entry, add_entry, add_ready, receive_entry, receive_all,
}
use k8s_controller_the_hard.Workqueue.Waiting.Ready.{Waits, add_ready-AllAdded}
use k8s_controller_the_hard.Workqueue.Waiting.Received.{earliest, known-times}
use k8s_controller_the_hard.Workqueue.Waiting.Entries.{
  ValidQueue, entry_heap, entry_heap-IsHeap, peek_view,
}
use k8s_controller_the_hard.Workqueue.Loop.{LoopRound, ready_part}
use k8s_controller_the_hard.Workqueue.Loop.Linked.{
  Loop, IsLinked, insert-IsLinked, pop-IsLinked, known-Waits, Waits-known,
}

earliest_le : (o : Option ℕ) (u t : ℕ) → o ≡ some u → earliest o t ≤ u
earliest_le none u t h = cc
earliest_le (some w) u t h = let e : w ≡ u = some_num w u h in ground (arith, e)
  where
    some_num : (w u : ℕ) → some w ≡ some u → w ≡ u
    some_num w u h = cc

module _ {K : Type 0} (dec : Discrete K) where
  earlier :
      (times new : GoMap K ℕ) (e : WaitFor K) (y : K) (u : ℕ) (d : Dec (e.item ≡ y))
      → GoMap.get dec new y
        ≡ ite d (some (earliest (GoMap.get dec times e.item) e.ready_at)) (GoMap.get dec times y)
      → GoMap.get dec times y ≡ some u
      → (v : ℕ) × (GoMap.get dec new y ≡ some v) × (v ≤ u)
  earlier times new e y u (no n) h k = (u, h ∙ k, omega arith)
  earlier times new e y u (yes p) h k =
      let old : GoMap.get dec times e.item ≡ some u = ap (λ z. GoMap.get dec times z) p ∙ k in
      (earliest (GoMap.get dec times e.item) e.ready_at, h, earliest_le _ u e.ready_at old)

module _ {K S : Type 0} (dec : Discrete K) where
  -- From `s` to `t` the queue of entries and the map agree, and no known time becomes later.
  pub record Advances (s t : Loop K S) : Type 0 where
    pub linked : IsLinked dec t
    pub times :
        (y : K) (u : ℕ)
        → GoMap.get dec s.known y ≡ some u
        → (v : ℕ) × (GoMap.get dec t.known y ≡ some v) × (v ≤ u)

  Advances-trans : (s t u : Loop K S) → Advances s t → Advances t u → Advances s u
  Advances-trans s t u a b = record {
    linked = b.linked;
    times = λ y m h.
        let (n, k, l) = a.times y m h in
        let (o, j, r) = b.times y n k in (o, j, omega (arith, l, r));
  }

  receive-Advances :
      (now : ℕ) (s : Loop K S) (e : WaitFor K)
      → IsLinked dec s
      → Advances s (receive_entry dec (entry_heap dec) now s e)
  unfolding receive_entry insert_entry add_entry
  receive-Advances now s e a = elim (Bool-cases (ltb now e.ready_at)) [
    | inl late ↦ rw late (record {
      linked = insert-IsLinked dec s e (GoMap.get dec s.known e.item) a refl;
      times = λ y u h.
          earlier dec s.known _ e y u (dec e.item y)
            ((known-times dec (entry_heap dec) s e (GoMap.get dec s.known e.item) refl).times y) h;
    })
    | inr due ↦ rw due (record { linked = a; times = λ y u h. (u, h, omega arith) })
  ]

  pub receive_all-Advances :
      (s : Loop K S) (es : List (ℕ × WaitFor K))
      → IsLinked dec s
      → Advances s (receive_all dec (entry_heap dec) s es)
  unfolding receive_all
  receive_all-Advances s [] a = record { linked = a; times = λ y u h. (u, h, omega arith) }
  receive_all-Advances s ((now, e) ∷ es) a =
      let one = receive-Advances now s e a in
      Advances-trans s (receive_entry dec (entry_heap dec) now s e) _ one
        (receive_all-Advances (receive_entry dec (entry_heap dec) now s e) es one.linked)

  add_ready-IsLinked :
      (fuel now : ℕ) (s : Loop K S)
      → IsLinked dec s
      → IsLinked dec (add_ready dec (entry_heap dec) fuel now s).0
  unfolding add_ready
  add_ready-IsLinked zero now s a = a
  add_ready-IsLinked (suc fuel) now s a =
      elim (Option-cases (peek_view (ValidQueue.waiting s.waiting_for_queue))) [
        | inl p ↦ rw p a
        | inr (e, p) ↦ elim (Bool-cases (ltb now e.ready_at)) [
          | inl late ↦ rw (p, late) a
          | inr due ↦ rw (p, due) (add_ready-IsLinked fuel now _ (pop-IsLinked dec now s e a p))
        ]
      ]

  pub ready-IsLinked :
      (r : LoopRound K S) (s : Loop K S)
      → IsLinked dec s
      → IsLinked dec (ready_part dec (entry_heap dec) r s)
  unfolding ready_part
  ready-IsLinked r s a = add_ready-IsLinked _ r.now (record s { queue = r.found }) a

  -- What is left after the loop over the ready entries is late.
  pub ready-late :
      (r : LoopRound K S) (s : Loop K S) (x : WaitFor K)
      → Queue.shutting_down r.found ≡ false
      → Waits dec (entry_heap dec) (ready_part dec (entry_heap dec) r s) x
      → r.now < x.ready_at
  unfolding ready_part
  ready-late r s x up w =
      let start = record s { queue = r.found } in
      (add_ready-AllAdded dec (entry_heap dec) _ r.now start (entry_heap-IsHeap dec) up
          (omega arith)).2
        x w

  -- A known item is still known for its time after the loop over the ready entries, which has not come, or it is requested.
  pub ready_part-cases :
      (r : LoopRound K S) (s : Loop K S) (y : K) (t : ℕ)
      → IsLinked dec s
      → Queue.shutting_down r.found ≡ false
      → GoMap.get dec s.known y ≡ some t
      → IsLinked dec (ready_part dec (entry_heap dec) r s)
        × (((r.now < t)
              × (GoMap.get dec (WaitingState.known (ready_part dec (entry_heap dec) r s)) y
                  ≡ some t))
            ⊎ (has dec (Queue.dirty (WaitingState.queue (ready_part dec (entry_heap dec) r s))) y
                ≡ true))
  unfolding ready_part
  ready_part-cases r s y t a up h =
      let start = record s { queue = r.found } in
      let (ended, adds, left) =
        add_ready-AllAdded dec (entry_heap dec) _ r.now start (entry_heap-IsHeap dec) up
          (omega arith) in
      let after = ready_part dec (entry_heap dec) r s in
      let linked : IsLinked dec after = ready-IsLinked r s a in
      (
        linked,
        elim (adds.goes (record { item = y; ready_at = t }) (known-Waits dec start y t a h)) [
          | inl w ↦
              inl (left (record { item = y; ready_at = t }) w, Waits-known dec after y t linked w)
          | inr (due, d) ↦ inr d
        ],
      )
