-- ===== src/Controller/Running/Held.antt =====
-- pkg/utils/controller: the items that the goroutines of the workers hold are those in process.
use k8s_controller_the_hard.Prelude.{
  ℕ, ◌+◌, ◌≡◌, refl, sym, ap, subst, ◌∙◌, inl, inr, Bool, true, false, some, ite, if_pos,
  if◌then◌else◌, arith,
}
use k8s_controller_the_hard.Prelude.Places.{
  get_elem?, set_elem, total, total-set_elem, get_elem?-total, get_elem?-set_elem,
}
use k8s_controller_the_hard.Workqueue.Set.{has}
use k8s_controller_the_hard.Workqueue.Queue.{
  Queue, RateLimiter, Got, got, shutdown, wait, get, get_fresh, done,
}
use k8s_controller_the_hard.Workqueue.Queue.Steps.{dones, gets, gets_fresh, step}
use k8s_controller_the_hard.Workqueue.Queue.Placement.{to_count}
use k8s_controller_the_hard.Workqueue.Queue.Invariant.{IsValid, step-IsValid}
use k8s_controller_the_hard.Workqueue.Queue.Delivery.{
  HandsOut, Delivers, DeliversFresh, get-Delivers, get_fresh-Delivers,
}
use k8s_controller_the_hard.Workqueue.Queue.Refinement.{step-Makes}
use k8s_controller_the_hard.Controller.Running.{
  Stage, idle, polling, left, busy, Goroutine, Running, Turn, takes, finishes, polls, after_get,
  turn,
}

same_result : {A : Type 0} → (a b : A) → some a ≡ some b → a ≡ b
same_result a b e = cc

module _ {K S : Type 0} (dec : Discrete K) (limiter : RateLimiter K S) where
  -- How often a goroutine holds the item.
  abbrev pub holds : K → Goroutine K → ℕ
  holds x g = elim g.stage [ busy y ↦ ite (dec y x) 1 0 | idle ↦ 0 | polling ↦ 0 | left ↦ 0 ]

  -- The queue is valid, an item is held once if it is in process, and else not at all, and a goroutine
  -- that has left has seen the shutdown.
  pub record IsHeld (s : Running K S) : Type 0 where
    pub valid : IsValid dec s.queue
    pub held : (x : K) → total (holds x) s.goroutines ≡ to_count (has dec s.queue.processing x)
    pub gone :
        (i : ℕ) (g : Goroutine K)
        → get_elem? s.goroutines i ≡ some g
        → g.stage ≡ left
        → Queue.shutting_down s.queue ≡ true

  -- From `q` to `r`, the goroutine that was `g` and is `h` has changed what it holds as the items in
  -- process have changed.
  pub record Turned (q r : Queue K S) (g h : Goroutine K) : Type 0 where
    pub valid : IsValid dec r
    pub moved :
        (x : K)
        → to_count (has dec r.processing x) + holds x g
          ≡ to_count (has dec q.processing x) + holds x h
    pub closed : q.shutting_down ≡ true → r.shutting_down ≡ true
    pub gone : h.stage ≡ left → r.shutting_down ≡ true

  pub Turned-IsHeld :
      (s : Running K S) (r : Queue K S) (i : ℕ) (g h : Goroutine K)
      → IsHeld s
      → get_elem? s.goroutines i ≡ some g
      → Turned s.queue r g h
      → IsHeld (record { queue = r; goroutines = set_elem s.goroutines i h })
  Turned-IsHeld s r i g h v e t = record {
    valid = t.valid;
    held = λ x. omega (arith, v.held x, t.moved x, total-set_elem (holds x) s.goroutines i h g e);
    gone = λ j f k p. elim (get_elem?-set_elem s.goroutines i j h f k) [
      | inl (a, b) ↦ t.gone (ap Goroutine.stage (sym b) ∙ p)
      | inr (n, b) ↦ t.closed (v.gone j f b p)
    ];
  }

  -- What the workers rely on of `Get` and `GetFresh`.
  abbrev Hands : Queue K S → Queue K S × Got K → Type 0
  Hands q (r, got x) = HandsOut dec q x r
  Hands q (r, shutdown) = (r ≡ q) × (q.shutting_down ≡ true)
  Hands q (r, wait) = r ≡ q

  get-Hands : (q : Queue K S) (o : Queue K S × Got K) → Delivers dec q o → Hands q o
  get-Hands q (r, got x) d = d.0
  get-Hands q (r, shutdown) d = (d.0, d.1)
  get-Hands q (r, wait) d = d.0

  get_fresh-Hands : (q : Queue K S) (o : Queue K S × Got K) → DeliversFresh dec q o → Hands q o
  get_fresh-Hands q (r, got x) d = d.0
  get_fresh-Hands q (r, shutdown) d = (d.0, d.1)
  get_fresh-Hands q (r, wait) d = d.0

  got-Turned :
      (q : Queue K S) (fresh : Bool) (o : Queue K S × Got K)
      → Hands q o
      → IsValid dec o.0
      → Turned q
          (after_get fresh o).0
          (record { fresh = fresh; stage = idle })
          (after_get fresh o).1
  got-Turned q fresh (r, got y) d v = record {
    valid = v;
    moved = λ x. ground (arith, d.in_process x, d.was_idle);
    closed = λ c. d.closed ∙ c;
    gone = λ e. cc;
  }
  got-Turned q fresh (r, shutdown) (same, down) v = record {
    valid = v;
    moved = λ x. rw same refl;
    closed = λ c. rw same c;
    gone = λ e. rw same down;
  }
  got-Turned q fresh (r, wait) same v = record {
    valid = v;
    moved = λ x. rw same refl;
    closed = λ c. rw same c;
    gone = λ e. cc;
  }

  done-Turned :
      (now : ℕ) (q : Queue K S) (fresh : Bool) (y : K)
      → IsValid dec q
      → has dec q.processing y ≡ true
      → Turned q
          (done dec limiter now q y)
          (record { fresh = fresh; stage = busy y })
          (record { fresh = fresh; stage = idle })
  unfolding step
  done-Turned now q fresh y v h =
      let made = (step-Makes dec limiter now q (dones y) v).1 in
      record {
        valid = step-IsValid dec limiter now q (dones y) v h;
        moved = λ x. ground (arith, made.in_process x, h);
        closed = λ c. made.closed ∙ c;
        gone = λ e. cc;
      }

  poll-Turned :
      (q : Queue K S) (fresh down : Bool)
      → IsValid dec q
      → q.shutting_down ≡ down
      → Turned q q
          (record { fresh = fresh; stage = polling })
          (record { fresh = fresh; stage = if down then left else polling })
  poll-Turned q fresh true v e = record {
    valid = v;
    moved = λ x. refl;
    closed = λ c. c;
    gone = λ l. e;
  }
  poll-Turned q fresh false v e = record {
    valid = v;
    moved = λ x. refl;
    closed = λ c. c;
    gone = λ l. cc;
  }

  -- The result of a turn.
  result-Turned :
      (q r : Queue K S) (g h : Goroutine K) (o : Queue K S × Goroutine K)
      → some o ≡ some (r, h)
      → Turned q o.0 g o.1
      → Turned q r g h
  result-Turned q r g h o e t =
      let p : o ≡ (r, h) = same_result o (r, h) e in subst (λ w. Turned q w.0 g w.1) p t

  busy-InProcess :
      (s : Running K S) (i : ℕ) (fresh : Bool) (x : K)
      → IsHeld s
      → get_elem? s.goroutines i ≡ some (record { fresh = fresh; stage = busy x })
      → has dec s.queue.processing x ≡ true
  busy-InProcess s i fresh x v e =
      let one =
        get_elem?-total (holds x) s.goroutines i (record { fresh = fresh; stage = busy x }) e in
      ground (arith, one, v.held x, if_pos {C = ℕ} (dec x x) refl 1 0)

  take-IsValid : (now : ℕ) (q : Queue K S) → IsValid dec q → IsValid dec (get dec now q).0
  unfolding step
  take-IsValid now q v = step-IsValid dec limiter now q gets v tt

  take_fresh-IsValid :
      (now : ℕ) (q : Queue K S) → IsValid dec q → IsValid dec (get_fresh dec now q).0
  unfolding step
  take_fresh-IsValid now q v = step-IsValid dec limiter now q gets_fresh v tt

  -- A turn of a goroutine.
  pub turn-Turned :
      (now : ℕ) (s : Running K S) (i : ℕ) (t : Turn) (fresh : Bool) (stage : Stage K)
      (r : Queue K S) (h : Goroutine K)
      → IsHeld s
      → get_elem? s.goroutines i ≡ some (record { fresh = fresh; stage = stage })
      → turn dec limiter now s.queue t fresh stage ≡ some (r, h)
      → Turned s.queue r (record { fresh = fresh; stage = stage }) h
  unfolding turn
  turn-Turned now s i takes true idle r h v e p =
      let d = get_fresh-Delivers dec now s.queue v.valid in
      result-Turned s.queue r _ h (after_get true (get_fresh dec now s.queue)) p (
        got-Turned s.queue true (get_fresh dec now s.queue)
          (get_fresh-Hands s.queue (get_fresh dec now s.queue) d)
          (take_fresh-IsValid now s.queue v.valid))
  turn-Turned now s i takes false idle r h v e p =
      let d = get-Delivers dec now s.queue v.valid in
      result-Turned s.queue r _ h (after_get false (get dec now s.queue)) p (
        got-Turned s.queue false (get dec now s.queue) (get-Hands s.queue (get dec now s.queue) d)
          (take-IsValid now s.queue v.valid))
  turn-Turned now s i finishes fresh (busy x) r h v e p =
      result-Turned s.queue r _ h
        (done dec limiter now s.queue x, record { fresh = fresh; stage = idle }) p
        (done-Turned now s.queue fresh x v.valid (busy-InProcess s i fresh x v e))
  turn-Turned now s i polls fresh polling r h v e p =
      result-Turned s.queue r _ h
        (
          s.queue,
          record { fresh = fresh; stage = if Queue.shutting_down s.queue then left else polling },
        )
        p (poll-Turned s.queue fresh (Queue.shutting_down s.queue) v.valid refl)
  turn-Turned now s i takes true polling r h v e p = cc
  turn-Turned now s i takes false polling r h v e p = cc
  turn-Turned now s i takes true left r h v e p = cc
  turn-Turned now s i takes false left r h v e p = cc
  turn-Turned now s i takes true (busy x) r h v e p = cc
  turn-Turned now s i takes false (busy x) r h v e p = cc
  turn-Turned now s i finishes fresh idle r h v e p = cc
  turn-Turned now s i finishes fresh left r h v e p = cc
  turn-Turned now s i finishes fresh polling r h v e p = cc
  turn-Turned now s i polls fresh idle r h v e p = cc
  turn-Turned now s i polls fresh left r h v e p = cc
  turn-Turned now s i polls fresh (busy x) r h v e p = cc
