-- ===== src/Controller/Running.antt =====
-- pkg/utils/controller: `Run` of playboytype.go, with `Run` of the two workers of worker.go. The
-- goroutines of the workers and all others use the queue in any order, each call of a method being a
-- step. What a worker calls on the outcome of `Reconcile` stands among the calls of the others.
pub mod Held
pub mod Others
pub mod Exclusive
pub mod Closed
pub mod Lowers
pub mod Ends
mod Tests
use k8s_controller_the_hard.Prelude.{
  ℕ, zero, suc, ◌≡◌, ◌⊎◌, Bool, true, false, Option, none, some, List, [], ◌∷◌, ◌++◌, if◌then◌else◌,
  ok, blocked,
}
use k8s_controller_the_hard.Prelude.Int.{ℤ, pos, negsuc}
use k8s_controller_the_hard.Prelude.Places.{get_elem?, set_elem}
use k8s_controller_the_hard.Workqueue.Queue.{
  Queue, RateLimiter, Got, got, shutdown, wait, get, get_fresh, done,
}
use k8s_controller_the_hard.Workqueue.Queue.Steps.{Call, dones, gets, gets_fresh, step}
use k8s_controller_the_hard.Controller.Build.{Item, Worker, PlayboyType}

-- Where a goroutine of a worker stands: before `Get`, after `Get` returned an item, in the loop of a
-- worker that is turned off, or at its end.
pub data Stage (K : Type 0) : Type 0 where
  idle polling left : Stage K
  busy : K → Stage K

-- A goroutine of the fresh or of the staled worker.
pub record Goroutine (K : Type 0) : Type 0 where
  pub fresh : Bool
  pub stage : Stage K

pub record Running (K S : Type 0) : Type 0 where
  pub queue : Queue K S
  pub goroutines : List (Goroutine K)

-- What a goroutine of a worker does next: it calls `Get`, calls `Done`, or asks `ShuttingDown`.
pub data Turn : Type 0 where
  takes finishes polls : Turn

module _ {K : Type 0} where
  unfoldable pub idle_copies : ℕ → Bool → List (Goroutine K)
  idle_copies zero fresh = []
  idle_copies (suc n) fresh = record { fresh = fresh; stage = idle } ∷ idle_copies n fresh

  -- `Run` of a worker. One that is turned off only waits for the shutdown.
  unfoldable pub worker_run : Bool → ℤ → List (Goroutine K)
  worker_run fresh (pos (suc n)) = idle_copies (suc n) fresh
  worker_run fresh _ = record { fresh = fresh; stage = polling } ∷ []

module _ {K S : Type 0} where
  -- Past the wait for the informers.
  unfoldable pub run_workers : ℤ → ℤ → Queue K S → Running K S
  run_workers fresh staled q = record {
    queue = q;
    goroutines = worker_run true fresh ++ worker_run false staled;
  }

  -- What `Get` came to.
  abbrev pub after_get : Bool → Queue K S × Got K → Queue K S × Goroutine K
  after_get fresh (q, got x) = (q, record { fresh = fresh; stage = busy x })
  after_get fresh (q, shutdown) = (q, record { fresh = fresh; stage = left })
  after_get fresh (q, wait) = (q, record { fresh = fresh; stage = idle })

-- `Run` of the controller: none where it returns at once, since the informers do not sync.
unfoldable pub playboy_run :
    {S : Type 0} → Bool → PlayboyType (Queue Item S) → Queue Item S → Option (Running Item S)
playboy_run false t q = none
playboy_run true t q =
    some (run_workers (Worker.concurrency t.fresh_worker) (Worker.concurrency t.staled_worker) q)

module _ {K S : Type 0} (dec : Discrete K) (limiter : RateLimiter K S) where
  -- A turn of a goroutine at its stage; none where it is not at this point.
  unfoldable pub turn : ℕ → Queue K S → Turn → Bool → Stage K → Option (Queue K S × Goroutine K)
  turn now q takes true idle = some (after_get true (get_fresh dec now q))
  turn now q takes false idle = some (after_get false (get dec now q))
  turn now q finishes fresh (busy x) =
      some (done dec limiter now q x, record { fresh = fresh; stage = idle })
  turn now q polls fresh polling =
      some (q, record { fresh = fresh; stage = if q.shutting_down then left else polling })
  turn now q _ fresh _ = none

  -- `Get` and `Done` are for the workers.
  abbrev pub IsOutside : Call K → Type 0
  IsOutside gets = ⊥
  IsOutside gets_fresh = ⊥
  IsOutside (dones x) = ⊥
  IsOutside _ = Unit {0}

  -- What the run of the workers comes to from `s`, in any order of steps.
  pub data Reaches (s : Running K S) : Running K S → Type 0 where
    starts : Reaches s s
    turns :
        {r : Running K S} (now i : ℕ) (t : Turn) (g : Goroutine K) (q : Queue K S) (h : Goroutine K)
        → Reaches s r
        → get_elem? r.goroutines i ≡ some g
        → turn now r.queue t g.fresh g.stage ≡ some (q, h)
        → Reaches s (record { queue = q; goroutines = set_elem r.goroutines i h })
    others :
        {r : Running K S} (now : ℕ) (c : Call K) (q : Queue K S)
        → Reaches s r
        → IsOutside c
        → (step dec limiter now r.queue c ≡ ok q) ⊎ (step dec limiter now r.queue c ≡ blocked q)
        → Reaches s (record r { queue = q })
