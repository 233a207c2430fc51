-- ===== src/Controller/Running/Ends.antt =====
-- pkg/utils/controller: after a shutdown of the queue the goroutines of the workers end.
use k8s_controller_the_hard.Prelude.{
  ℕ, suc, ◌+◌, ◌*◌, ◌≤◌, ◌≡◌, refl, ap, ◌⊎◌, inl, inr, Bool, true, false, some, List, [], ◌∷◌,
  arith, length,
}
use k8s_controller_the_hard.Prelude.Int.{ℤ}
use k8s_controller_the_hard.Prelude.Places.{get_elem?, total-set_elem}
use k8s_controller_the_hard.Workqueue.Set.{has}
use k8s_controller_the_hard.Workqueue.Queue.{Queue, RateLimiter}
use k8s_controller_the_hard.Workqueue.Queue.Invariant.{IsValid}
use k8s_controller_the_hard.Controller.Running.{
  Stage, idle, polling, left, busy, Goroutine, Running, Turn, takes, finishes, polls, turn,
  run_workers, Reaches, starts, turns, others,
}
use k8s_controller_the_hard.Controller.Running.Held.{IsHeld, turn-Turned}
use k8s_controller_the_hard.Controller.Running.Exclusive.{Reaches-IsHeld, start-IsHeld}
use k8s_controller_the_hard.Controller.Running.Closed.{outside-Rests}
use k8s_controller_the_hard.Controller.Running.Lowers.{
  turns_left, turns_ahead, AllLeft, total-turns_left, turn-Lowers,
}

module _ {K S : Type 0} (dec : Discrete K) (limiter : RateLimiter K S) where
  -- How many turns of the goroutines a run of the workers has.
  abbrev pub turns_of : {s r : Running K S} → Reaches dec limiter s r → ℕ
  turns_of starts = 0
  turns_of (turns now i t g q h m e p) = suc (turns_of m)
  turns_of (others now c q m o p) = turns_of m

  closed-Lowers :
      (s r : Running K S) (m : Reaches dec limiter s r)
      → IsHeld dec limiter s
      → Queue.shutting_down s.queue ≡ true
      → (turns_of m + turns_ahead r ≤ turns_ahead s) × (Queue.shutting_down r.queue ≡ true)
  closed-Lowers s r starts v d = (omega arith, d)
  closed-Lowers s _ (turns {r} now i t g q h m e p) v d =
      let (less, down) = closed-Lowers s r m v d in
      let w = Reaches-IsHeld dec limiter s r v m in
      let turned = turn-Turned dec limiter now r i t g.fresh g.stage q h w e p in
      let low = turn-Lowers dec limiter now r.queue t g.fresh g.stage (q, h) w.valid down p in
      let sum = total-set_elem turns_left r.goroutines i h g e in (omega arith, turned.closed down)
  closed-Lowers s _ (others {r} now c q m o p) v d =
      let (less, down) = closed-Lowers s r m v d in
      let (same, still) = outside-Rests dec limiter now r.queue c q o down p in
      let dirty = ap length same in (omega arith, still)

  -- What some goroutine of a run can do next, at whatever time.
  pub record Continues (r : Running K S) : Type 0 where
    pub place : ℕ
    pub goroutine : Goroutine K
    pub its_turn : Turn
    pub is_there : get_elem? r.goroutines place ≡ some goroutine
    pub possible :
        (now : ℕ)
        → (o : Queue K S × Goroutine K) × (turn dec limiter now r.queue its_turn goroutine.fresh
              goroutine.stage
            ≡ some o)

  abbrev HasTurn : Queue K S → Bool → Stage K → Type 0
  HasTurn q fresh stage =
      (t : Turn) × ((now : ℕ)
        → (o : Queue K S × Goroutine K) × (turn dec limiter now q t fresh stage ≡ some o))

  stage-turn :
      (q : Queue K S) (fresh : Bool) (stage : Stage K) → (stage ≡ left) ⊎ HasTurn q fresh stage
  unfolding turn
  stage-turn q true idle = inr (takes, λ now. (_, refl))
  stage-turn q false idle = inr (takes, λ now. (_, refl))
  stage-turn q fresh polling = inr (polls, λ now. (_, refl))
  stage-turn q fresh (busy x) = inr (finishes, λ now. (_, refl))
  stage-turn q fresh left = inl refl

  later-turn :
      (q : Queue K S) (g : Goroutine K) (gs : List (Goroutine K))
      → Continues (record { queue = q; goroutines = gs })
      → Continues (record { queue = q; goroutines = g ∷ gs })
  unfolding get_elem?
  later-turn q g gs c = record {
    place = suc c.place;
    goroutine = c.goroutine;
    its_turn = c.its_turn;
    is_there = c.is_there;
    possible = c.possible;
  }

  first-turn :
      (q : Queue K S) (g : Goroutine K) (gs : List (Goroutine K))
      → HasTurn q g.fresh g.stage
      → Continues (record { queue = q; goroutines = g ∷ gs })
  unfolding get_elem?
  first-turn q g gs (t, p) = record {
    place = 0;
    goroutine = g;
    its_turn = t;
    is_there = refl;
    possible = p;
  }

  -- Each goroutine has left, or one has a turn.
  left-or-turn :
      (q : Queue K S) (gs : List (Goroutine K))
      → AllLeft gs ⊎ Continues (record { queue = q; goroutines = gs })
  left-or-turn q [] = inl tt
  left-or-turn q (g ∷ gs) = elim (stage-turn q g.fresh g.stage) [
    | inr p ↦ inr (first-turn q g gs p)
    | inl l ↦ elim (left-or-turn q gs) [ inl ls ↦ inl (l, ls) | inr c ↦ inr (later-turn q g gs c) ]
  ]

  -- After the shutdown of the queue, a run of the workers ends, whatever the order of the turns and
  -- whatever other goroutines call on the queue in between: the turns of the goroutines are at most
  -- `turns_ahead`, three for each request and two for each goroutine, and until each goroutine has
  -- left one of them can go on. The run started on a valid queue with nothing in process.
  pub run_workers-Ends :
      (fresh staled : ℤ) (q : Queue K S) (s r : Running K S)
      → IsValid dec q
      → ((x : K) → has dec q.processing x ≡ false)
      → Reaches dec limiter (run_workers fresh staled q) s
      → Queue.shutting_down s.queue ≡ true
      → (m : Reaches dec limiter s r)
      → (turns_of m + turns_ahead r ≤ turns_ahead s)
        × (turns_ahead s ≤ 3 * length s.queue.dirty + 2 * length s.goroutines)
        × (AllLeft r.goroutines ⊎ Continues r)
  run_workers-Ends fresh staled q s r v none_held before down m =
      let w =
        Reaches-IsHeld dec limiter _ s (start-IsHeld dec limiter fresh staled q v none_held)
          before in
      (
        (closed-Lowers s r m w down).0,
        omega (arith, total-turns_left s.goroutines),
        left-or-turn r.queue r.goroutines,
      )
