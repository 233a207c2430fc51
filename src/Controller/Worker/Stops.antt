-- ===== src/Controller/Worker/Stops.antt =====
-- pkg/utils/controller/worker.go: the loop of a worker after a shutdown of the playboy queue.
use Prim.Native.String.{String}
use k8s_controller_the_hard.Prelude.{ℕ, suc, ◌≡◌, Bool, true, false, Option, some, Run, ok}
use k8s_controller_the_hard.Workqueue.Set.{has}
use k8s_controller_the_hard.Workqueue.Queue.{Queue, RateLimiter, Got, got, queue_len}
use k8s_controller_the_hard.Controller.Worker.{Outcome, process_item_from_queue, playboy_interface}

module _ {K S : Type 0} where
  -- The same queues and dirty items, and the same shutdown.
  abbrev Same : Queue K S → Queue K S → Type 0
  Same q r =
      (r.queue_fresh ≡ q.queue_fresh)
      × (r.queue_staled ≡ q.queue_staled)
      × (r.dirty ≡ q.dirty)
      × (r.shutting_down ≡ q.shutting_down)

  -- The run returns and changes no queue.
  abbrev Idles : Queue K S → Run (Queue K S) → Type 0
  Idles q run = (r : Queue K S) × (run ≡ ok r) × Same q r

module _ {K S : Type 0} (dec : Discrete K) (limiter : RateLimiter K S) (pick : Bool)
    (clock : ℕ → ℕ) where
  -- After a round: one item less in the queues, and still shut down.
  abbrev Shorter : Queue K S → Queue K S → Type 0
  Shorter q r = (suc (queue_len r) ≡ queue_len q) × (r.shutting_down ≡ true)

  -- An item was taken.
  abbrev Took : Queue K S → Queue K S × Got K → Type 0
  Took q p =
      (x : K) × (p.1 ≡ got x)
      × (suc (queue_len p.0) ≡ queue_len q)
      × (has dec p.0.dirty x ≡ false)
      × (p.0.shutting_down ≡ true)

  module _ (as_string : K → Option String) (decide : String → Queue K S → Outcome)
      (strings : (x : K) → (s : String) × (as_string x ≡ some s)) where
    abbrev round : Queue K S → Run (Queue K S × Bool)
    round q =
        process_item_from_queue (playboy_interface dec limiter pick) clock as_string
          (λ s t. (t, decide s t)) q
