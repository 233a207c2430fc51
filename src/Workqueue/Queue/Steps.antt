-- ===== src/Workqueue/Queue/Steps.antt =====
-- pkg/utils/workqueue/playboyqueue.go: the methods as steps of one system. Goroutines call them in
-- any order; a call of one is a step, so that calls do not overlap. All but `AddAfter` and
-- `AddRateLimited` run under one lock; Parts has these two in parts.
use Prim.Native.String.{String}
use k8s_controller_the_hard.Prelude.{
  ℕ, Bool, true, false, ◌≡◌, refl, ◌⊎◌, if◌then◌else◌, List, [], ◌∷◌, Run, ok, blocked, panic,
}
use k8s_controller_the_hard.Prelude.Int.{ℤ}
use k8s_controller_the_hard.Workqueue.Set.{has}
use k8s_controller_the_hard.Workqueue.Metrics.{MetricsProvider}
use k8s_controller_the_hard.Workqueue.Queue.{
  Queue, RateLimiter, WaitFor, new_named_playboy_queue, shut_down, add_fresh_or_staled, add, get,
  get_fresh, add_after, done, add_rate_limited, forget, is_fresh, update_unfinished_work,
}

-- The calls. `adds_ready` is the `q.add(entry.data, q.isFresh(entry.data))` of the waiting loop, and
-- `receives` its receive from the channel. The Boolean is the choice of the `select`.
pub data Call (K : Type 0) : Type 0 where
  adds adds_ready dones forgets : K → Call K
  gets gets_fresh shuts_down updates receives : Call K
  adds_after : Bool → K → ℤ → Call K
  adds_rate_limited : Bool → K → Call K

abbrev pub rest_of : {K : Type 0} → List (WaitFor K) → List (WaitFor K)
rest_of [] = []
rest_of (_ ∷ entries) = entries

module _ {K S : Type 0} where
  -- `<-q.waitingForAddCh`, where an entry is there.
  abbrev pub receive : Queue K S → Queue K S
  receive q = record q { waiting_for_add_ch = rest_of q.waiting_for_add_ch }

  -- What holds after a call that returned or blocks.
  abbrev pub Ensures : (Queue K S → Type 0) → Run (Queue K S) → Type 0
  Ensures P (ok q) = P q
  Ensures P (blocked q) = P q
  Ensures P panic = Unit

  pub Ensures-if :
      (P : Queue K S → Type 0) (b : Bool) (x y : Run (Queue K S))
      → (b ≡ true → Ensures P x)
      → (b ≡ false → Ensures P y)
      → Ensures P (if b then x else y)
  Ensures-if P true x y p r = p refl
  Ensures-if P false x y p r = r refl

module _ {K S : Type 0} (dec : Discrete K) (limiter : RateLimiter K S) where
  unfoldable pub step : ℕ → Queue K S → Call K → Run (Queue K S)
  step now q (adds item) = ok (add dec now q item)
  step now q (adds_ready item) = ok (add_fresh_or_staled dec now q item (is_fresh dec q item))
  step now q (dones item) = ok (done dec limiter now q item)
  step now q (forgets item) = ok (forget dec limiter q item)
  step now q gets = ok (get dec now q).0
  step now q gets_fresh = ok (get_fresh dec now q).0
  step now q shuts_down = ok (shut_down q)
  step now q updates = ok (update_unfinished_work now q)
  step now q receives = ok (receive q)
  step now q (adds_after pick item duration) = add_after dec now pick q item duration
  step now q (adds_rate_limited pick item) = add_rate_limited dec limiter now pick q item

  -- `Done` is called for an item that `Get` handed out and no call of `Done` took back since.
  abbrev pub Allowed : Queue K S → Call K → Type 0
  Allowed q (dones item) = has dec q.processing item ≡ true
  Allowed q _ = Unit {0}

  -- The states of a queue that starts with threshold `n` and limiter state `s`.
  pub data Reach (n : ℕ) (s : S) (name : String) (provider : MetricsProvider)
      : Queue K S → Type 0 where
    start : Reach n s name provider (new_named_playboy_queue n s name provider)
    later :
        {q r : Queue K S} (now : ℕ) (c : Call K)
        → Reach n s name provider q
        → Allowed q c
        → (step now q c ≡ ok r) ⊎ (step now q c ≡ blocked r)
        → Reach n s name provider r

  -- `r` is what a sequence of calls makes of `q`.
  pub data Later (q : Queue K S) : Queue K S → Type 0 where
    here : Later q q
    next :
        {r t : Queue K S} (now : ℕ) (c : Call K)
        → Later q r
        → Allowed r c
        → (step now r c ≡ ok t) ⊎ (step now r c ≡ blocked t)
        → Later q t
