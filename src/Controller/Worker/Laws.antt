-- ===== src/Controller/Worker/Laws.antt =====
-- pkg/utils/controller/worker.go: what the calls of the playboy queue do to one item.
use k8s_controller_the_hard.Prelude.{
  ℕ, zero, suc, ◌<◌, ◌≡◌, refl, Bool, true, false, not, ◌&&◌, ◌||◌, ite, arith, length, [], ◌∷◌,
  ◌++◌, Run, ok, inl, inr, Bool-cases,
}
use k8s_controller_the_hard.Prelude.Int.{ℤ, pos, negsuc}
use k8s_controller_the_hard.Workqueue.Metrics
use k8s_controller_the_hard.Workqueue.Set.{has, has-insert, has-delete}
use k8s_controller_the_hard.Workqueue.Queue.{
  Queue, RateLimiter, WaitFor, channel_size, add, add_fresh_or_staled, add_after, add_delayed,
  select_send, done, is_fresh,
}
use k8s_controller_the_hard.Controller.Worker.{is_positive}

module _ {K S : Type 0} where
  -- Calls of `AddAfter` neither panic nor block: the metrics are off, as `NewPlayboyQueue` leaves
  -- them, and the channel of delayed items has room.
  pub record IsOpen (q : Queue K S) : Type 0 where
    pub unnamed : q.metrics ≡ Metrics.no_metrics
    pub room : length q.waiting_for_add_ch < channel_size
    pub closed : q.stop_ch_closed ≡ q.shutting_down

  -- The calls keep what the queue has in process and whether it is shut down.
  abbrev pub Keeps : Queue K S → Queue K S → Type 0
  Keeps q r = (r.processing ≡ q.processing) × (r.shutting_down ≡ q.shutting_down)

module _ {K S : Type 0} (dec : Discrete K) where
  -- The call returns, and requests the item if `b` holds and the queue is not shut down.
  abbrev pub Requests : Bool → Queue K S → K → Run (Queue K S) → Type 0
  Requests b q item run =
      (r : Queue K S) × (run ≡ ok r)
      × Keeps q r
      × (r.failures ≡ q.failures)
      × (has dec r.dirty item ≡ (has dec q.dirty item || (b && not q.shutting_down)))

  pub add-up :
      (now : ℕ) (q : Queue K S) (item : K) → (add dec now q item).shutting_down ≡ q.shutting_down
  unfolding add add_fresh_or_staled
  add-up now q item = ground arith

  -- `Add` requests its item and no other, on a queue that is not shut down.
  pub add-dirty :
      (now : ℕ) (q : Queue K S) (item key : K)
      → has dec (add dec now q item).dirty key
        ≡ (has dec q.dirty key || (ite (dec item key) true false && not q.shutting_down))
  unfolding add add_fresh_or_staled
  add-dirty now q item key = ground (arith, has-insert dec q.dirty item key)

  pub add-Requests :
      (now : ℕ) (q : Queue K S) (item : K) (fresh : Bool)
      → Requests true q item (ok (add_fresh_or_staled dec now q item fresh))
  unfolding add_fresh_or_staled
  add-Requests now q item fresh = (
    add_fresh_or_staled dec now q item fresh,
    refl,
    (ground arith, ground arith),
    ground arith,
    ground (arith, has-insert dec q.dirty item item),
  )

  select_send-Requests :
      (pick : Bool) (q : Queue K S) (item : K) (entry : WaitFor K)
      → length q.waiting_for_add_ch < channel_size
      → Requests false q item (select_send pick q entry)
  unfolding select_send
  select_send-Requests pick q item entry room = elim (Bool-cases (q.stop_ch_closed && pick)) [
    | inl stopped ↦ (q, ground arith, (refl, refl), refl, ground arith)
    | inr waiting ↦ (
      record q { waiting_for_add_ch = q.waiting_for_add_ch ++ entry ∷ [] },
      ground arith,
      (refl, refl),
      refl,
      ground arith,
    )
  ]

  add_delayed-Requests :
      (now : ℕ) (pick : Bool) (q : Queue K S) (item : K) (d : ℤ)
      → length q.waiting_for_add_ch < channel_size
      → Requests (not (is_positive d)) q item (add_delayed dec now pick q item d)
  add_delayed-Requests now pick q item (pos zero) room =
      add-Requests now q item (is_fresh dec q item)
  add_delayed-Requests now pick q item (pos (suc n)) room = select_send-Requests pick q item _ room
  add_delayed-Requests now pick q item (negsuc n) room =
      add-Requests now q item (is_fresh dec q item)

  add_after-counted :
      (now : ℕ) (pick : Bool) (q : Queue K S) (item : K) (d : ℤ)
      → q.metrics ≡ Metrics.no_metrics
      → q.shutting_down ≡ false
      → add_after dec now pick q item d
        ≡ add_delayed dec now pick (record q { metrics = Metrics.no_metrics }) item d
  unfolding add_after Metrics.retry
  add_after-counted now pick q item d off up = rw (up, off)

  add_after-shut :
      (now : ℕ) (pick : Bool) (q : Queue K S) (item : K) (d : ℤ)
      → q.shutting_down ≡ true
      → add_after dec now pick q item d ≡ ok q
  unfolding add_after
  add_after-shut now pick q item d down = rw (down)

  pub add_after-Requests :
      (now : ℕ) (pick : Bool) (q : Queue K S) (item : K) (d : ℤ)
      → IsOpen q
      → Requests (not (is_positive d)) q item (add_after dec now pick q item d)
  add_after-Requests now pick q item d o = elim (Bool-cases q.shutting_down) [
    | inl down ↦ (q, add_after-shut now pick q item d down, (refl, refl), refl, ground arith)
    | inr up ↦
        rw (add_after-counted now pick q item d o.unnamed up)
          (add_delayed-Requests now pick (record q { metrics = Metrics.no_metrics }) item d o.room)
  ]

  pub done-dirty :
      (limiter : RateLimiter K S) (now : ℕ) (q : Queue K S) (item : K)
      → has dec (done dec limiter now q item).dirty item ≡ has dec q.dirty item
  unfolding done
  done-dirty limiter now q item = ground arith

  pub done-processing :
      (limiter : RateLimiter K S) (now : ℕ) (q : Queue K S) (item : K)
      → has dec (done dec limiter now q item).processing item ≡ false
  unfolding done
  done-processing limiter now q item = ground (arith, has-delete dec q.processing item item)

  pub done-failures :
      (limiter : RateLimiter K S) (now : ℕ) (q : Queue K S) (item : K)
      → (done dec limiter now q item).failures ≡ q.failures
  unfolding done
  done-failures limiter now q item = ground arith
