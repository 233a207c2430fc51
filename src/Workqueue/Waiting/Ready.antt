-- ===== src/Workqueue/Waiting/Ready.antt =====
-- pkg/utils/workqueue/playboyqueue.go: the loop over the ready entries adds what is due and nothing
-- else.
use mathlib.Core.List.{Memᴰ}
use k8s_controller_the_hard.Prelude.{
  ℕ, zero, suc, ◌≤◌, ◌<◌, ◌≡◌, refl, sym, subst, ◌∙◌, ◌⊎◌, inl, inr, Bool, true, false, not, ◌||◌,
  ◌&&◌, none, some, [], ltb, length, arith, Bool-cases, Option-cases, ite, if_neg,
}
use k8s_controller_the_hard.Workqueue.Set.{has, has-insert}
use k8s_controller_the_hard.Workqueue.Queue.{Queue, WaitFor, add_fresh_or_staled, is_fresh}
use k8s_controller_the_hard.Workqueue.Waiting.{
  Heap, WaitingState, add_entry, add_popped, pop_entry, add_ready,
}

module _ {K H : Type 0} (heap : Heap K H) where
  -- What container/heap documents of `heap[0]` and `Pop`: it is a least entry, and it is the one that
  -- `Pop` removes and returns; the heap is empty where there is none.
  pub record IsHeap : Type 0 where
    pub empty : (h : H) → heap.peek h ≡ none → heap.entries h ≡ []
    pub first : (h : H) (e : WaitFor K) → heap.peek h ≡ some e → Memᴰ e (heap.entries h)
    pub popped_first : (h : H) (e : WaitFor K) → heap.peek h ≡ some e → heap.popped h ≡ some e
    pub least :
        (h : H) (e x : WaitFor K)
        → heap.peek h ≡ some e
        → Memᴰ x (heap.entries h)
        → e.ready_at ≤ x.ready_at
    pub pop_cases :
        (h : H) (e x : WaitFor K)
        → heap.peek h ≡ some e
        → Memᴰ x (heap.entries h)
        → (x ≡ e) ⊎ Memᴰ x (heap.entries (heap.pop h))
    pub pop_keeps :
        (h : H) (e x : WaitFor K)
        → heap.peek h ≡ some e
        → Memᴰ x (heap.entries (heap.pop h))
        → Memᴰ x (heap.entries h)
    pub pop_shorter :
        (h : H) (e : WaitFor K)
        → heap.peek h ≡ some e
        → suc (length (heap.entries (heap.pop h))) ≡ length (heap.entries h)

pub no_members : {A : Type 0} {x : A} → Memᴰ x [] → ⊥
no_members m = elim m [ ]

module _ {K S : Type 0} (dec : Discrete K) where
  add-has :
      (now : ℕ) (q : Queue K S) (x y : K) (fresh : Bool)
      → has dec (add_fresh_or_staled dec now q x fresh).dirty y
        ≡ (has dec q.dirty y || (ite (dec x y) true false && not q.shutting_down))
  unfolding add_fresh_or_staled
  add-has now q x y fresh = ground (arith, has-insert dec q.dirty x y)

  add-up :
      (now : ℕ) (q : Queue K S) (x : K) (fresh : Bool)
      → (add_fresh_or_staled dec now q x fresh).shutting_down ≡ q.shutting_down
  unfolding add_fresh_or_staled
  add-up now q x fresh = ground arith

  pub add_self :
      (now : ℕ) (q : Queue K S) (x : K) (fresh : Bool)
      → q.shutting_down ≡ false
      → has dec (add_fresh_or_staled dec now q x fresh).dirty x ≡ true
  add_self now q x fresh up = ground (arith, add-has now q x x fresh)

  add_only :
      (now : ℕ) (q : Queue K S) (x y : K) (fresh : Bool)
      → has dec (add_fresh_or_staled dec now q x fresh).dirty y ≡ true
      → (has dec q.dirty y ≡ true) ⊎ (x ≡ y)
  add_only now q x y fresh h = elim (dec x y) [
    | yes e ↦ inr e
    | no n ↦
        inl (ground (arith, h, add-has now q x y fresh, if_neg {C = Bool} (dec x y) n true false))
  ]

  add_keeps :
      (now : ℕ) (q : Queue K S) (x y : K) (fresh : Bool)
      → has dec q.dirty y ≡ true
      → has dec (add_fresh_or_staled dec now q x fresh).dirty y ≡ true
  add_keeps now q x y fresh h = ground (arith, add-has now q x y fresh)

module _ {K S H : Type 0} (dec : Discrete K) (heap : Heap K H) where
  abbrev pub Waits : WaitingState K S H → WaitFor K → Type 0
  Waits s x = Memᴰ x (heap.entries s.waiting_for_queue)

  -- From `s` to `t`: no entry comes in, an entry that goes is due at `now` and its item is requested,
  -- what was requested stays so, and nothing else is requested than the items of entries that are due.
  pub record Adds (now : ℕ) (s t : WaitingState K S H) : Type 0 where
    pub up : t.queue.shutting_down ≡ s.queue.shutting_down
    pub keeps : (x : WaitFor K) → Waits t x → Waits s x
    pub goes :
        (x : WaitFor K)
        → Waits s x
        → Waits t x ⊎ ((x.ready_at ≤ now) × (has dec t.queue.dirty x.item ≡ true))
    pub dirty : (y : K) → has dec s.queue.dirty y ≡ true → has dec t.queue.dirty y ≡ true
    pub only :
        (y : K)
        → has dec t.queue.dirty y ≡ true
        → (has dec s.queue.dirty y ≡ true)
          ⊎ ((x : WaitFor K) × Waits s x × (x.item ≡ y) × (x.ready_at ≤ now))

  Adds-refl : (now : ℕ) (s : WaitingState K S H) → Adds now s s
  Adds-refl now s = record {
    up = refl;
    keeps = λ x m. m;
    goes = λ x m. inl m;
    dirty = λ y h. h;
    only = λ y h. inl h;
  }

  Adds-trans : (now : ℕ) (s t u : WaitingState K S H) → Adds now s t → Adds now t u → Adds now s u
  Adds-trans now s t u a b = record {
    up = b.up ∙ a.up;
    keeps = λ x m. a.keeps x (b.keeps x m);
    goes = λ x m. elim (a.goes x m) [ inl w ↦ b.goes x w | inr (d, h) ↦ inr (d, b.dirty x.item h) ];
    dirty = λ y h. b.dirty y (a.dirty y h);
    only = λ y h. elim (b.only y h) [
      | inl k ↦ a.only y k
      | inr (x, w, i, d) ↦ inr (x, a.keeps x w, i, d)
    ];
  }

  added-Adds :
      (now : ℕ) (s : WaitingState K S H) (e : WaitFor K)
      → IsHeap heap
      → s.queue.shutting_down ≡ false
      → heap.peek s.waiting_for_queue ≡ some e
      → e.ready_at ≤ now
      → Adds now s (add_popped dec heap now s (some e))
  unfolding add_entry
  added-Adds now s e laws up p due = record {
    up = add-up dec now s.queue e.item _;
    keeps = λ x m. laws.pop_keeps s.waiting_for_queue e x p m;
    goes = λ x m. elim (laws.pop_cases s.waiting_for_queue e x p m) [
      | inl same ↦ inr (
        subst (λ z. z.ready_at ≤ now) (sym same) due,
        subst (λ z. has dec (add_popped dec heap now s (some e)).queue.dirty z.item ≡ true)
            (sym same) (add_self dec now s.queue e.item (is_fresh dec s.queue e.item) up),
      )
      | inr w ↦ inl w
    ];
    dirty = λ y h. add_keeps dec now s.queue e.item y (is_fresh dec s.queue e.item) h;
    only = λ y h. elim (add_only dec now s.queue e.item y (is_fresh dec s.queue e.item) h) [
      | inl k ↦ inl k
      | inr i ↦ inr (e, laws.first s.waiting_for_queue e p, i, due)
    ];
  }

  pop-Adds :
      (now : ℕ) (s : WaitingState K S H) (e : WaitFor K)
      → IsHeap heap
      → s.queue.shutting_down ≡ false
      → heap.peek s.waiting_for_queue ≡ some e
      → e.ready_at ≤ now
      → Adds now s (pop_entry dec heap now s)
  pop-Adds now s e laws up p due =
      rw (laws.popped_first s.waiting_for_queue e p) (added-Adds now s e laws up p due)

  popped_left :
      (now : ℕ) (s : WaitingState K S H) (e : WaitFor K)
      → IsHeap heap
      → heap.peek s.waiting_for_queue ≡ some e
      → suc (length (heap.entries (pop_entry dec heap now s).waiting_for_queue))
        ≡ length (heap.entries s.waiting_for_queue)
  popped_left now s e laws p =
      rw (laws.popped_first s.waiting_for_queue e p) (laws.pop_shorter s.waiting_for_queue e p)

  -- The loop ended by itself, it was faithful to the times, and nothing that is left is due.
  abbrev pub AllAdded : ℕ → WaitingState K S H → WaitingState K S H × Bool → Type 0
  AllAdded now s r =
      (r.1 ≡ true) × Adds now s r.0 × ((x : WaitFor K) → Waits r.0 x → now < x.ready_at)

  none_due :
      (now : ℕ) (s : WaitingState K S H) (e : WaitFor K)
      → IsHeap heap
      → heap.peek s.waiting_for_queue ≡ some e
      → now < e.ready_at
      → AllAdded now s (s, true)
  none_due now s e laws p late =
      (refl, Adds-refl now s, λ x m. omega (arith, late, laws.least s.waiting_for_queue e x p m))

  none_left :
      (now : ℕ) (s : WaitingState K S H)
      → IsHeap heap
      → heap.peek s.waiting_for_queue ≡ none
      → AllAdded now s (s, true)
  none_left now s laws p = (
    refl,
    Adds-refl now s,
    λ x m. absurd (no_members (rw (laws.empty s.waiting_for_queue p) at m)),
  )

  -- One round of the waiting loop adds all that is due at `now` and nothing else: with more fuel than
  -- there are entries the loop over the ready entries ends by itself; no entry comes in, each entry
  -- that went was due and its item is requested, what was requested stays so, nothing else is
  -- requested but the items of entries that waited and are due, and each entry that is left is later
  -- than `now`. The heap keeps to its documentation, and the queue is not shut down.
  pub add_ready-AllAdded :
      (fuel now : ℕ) (s : WaitingState K S H)
      → IsHeap heap
      → s.queue.shutting_down ≡ false
      → length (heap.entries s.waiting_for_queue) < fuel
      → AllAdded now s (add_ready dec heap fuel now s)
  unfolding add_ready
  add_ready-AllAdded zero now s laws up h = ground (arith, h)
  add_ready-AllAdded (suc fuel) now s laws up h =
      elim (Option-cases (heap.peek s.waiting_for_queue)) [
        | inl p ↦ rw p (none_left now s laws p)
        | inr (e, p) ↦ elim (Bool-cases (ltb now e.ready_at)) [
          | inl late ↦ rw (p, late) (none_due now s e laws p (ground arith))
          | inr due ↦
              let next = pop_entry dec heap now s in
              let a = pop-Adds now s e laws up p (ground arith) in
              let (ended, rest, left) =
                add_ready-AllAdded fuel now next laws (a.up ∙ up)
                  (omega (arith, h, popped_left now s e laws p)) in
              rw (p, due) (ended, Adds-trans now s next _ a rest, left)
        ]
      ]
