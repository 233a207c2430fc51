-- ===== src/Controller/Worker/Settles.antt =====
-- pkg/utils/controller/worker.go: what an item comes to, after one round of a worker on the playboy
-- queue.
use Prim.Native.String.{String}
use k8s_controller_the_hard.Prelude.{
  ℕ, suc, ◌≡◌, refl, Bool, true, false, not, ◌&&◌, ◌||◌, arith, if◌then◌else◌, Option, some, Run,
  List, [], ◌∷◌, ◌++◌, ok, inl, inr, Bool-cases, ◌∙◌, ◌>>=◌,
}
use k8s_controller_the_hard.Prelude.Int.{ℤ}
use k8s_controller_the_hard.Prelude.GoMap
use k8s_controller_the_hard.Workqueue.Set.{has}
use k8s_controller_the_hard.Workqueue.Queue.{
  Queue, RateLimiter, got, add, add_after, add_rate_limited, forget, done, failures_of,
}
use k8s_controller_the_hard.Controller.Worker.{
  Result, Outcome, failed, succeeded, is_positive, handle_outcome, return_true,
  process_item_from_queue, playboy_interface, interface_of,
}
use k8s_controller_the_hard.Controller.Worker.Laws.{
  IsOpen, Keeps, Requests, add-Requests, add_after-Requests, done-dirty, done-processing,
  done-failures,
}

-- Whether the worker requests the item again, where the rate limiter answers `delay`.
abbrev pub asked : ℤ → Outcome → Bool
asked delay failed = not (is_positive delay)
asked delay (succeeded result) = result.requeue || is_positive result.requeue_after

-- The failures after the outcome.
abbrev pub counted : ℕ → Outcome → ℕ
counted n failed = suc n
counted n (succeeded _) = 0

module _ {K : Type 0} (dec : Discrete K) where
  has-last : (xs : List K) (x : K) → has dec (xs ++ x ∷ []) x ≡ true
  unfolding has
  has-last [] x = ground arith
  has-last (y ∷ xs) x = ground (arith, has-last xs x)

module _ {K S : Type 0} (dec : Discrete K) where
  failures_of-put :
      (q r : Queue K S) (item : K) (n : ℕ)
      → r.failures ≡ GoMap.put dec q.failures item n
      → failures_of dec r item ≡ n
  unfolding failures_of
  failures_of-put q r item n e = rw e (ground (arith, GoMap.get-put dec q.failures item item n))

  failures_of-remove :
      (q r : Queue K S) (item : K)
      → r.failures ≡ GoMap.remove dec q.failures item
      → failures_of dec r item ≡ 0
  unfolding failures_of
  failures_of-remove q r item e = rw e (ground (arith, GoMap.get-remove dec q.failures item item))

  -- The item stands in the fresh or in the staled queue.
  abbrev pub is_queued : Queue K S → K → Bool
  is_queued q item = has dec q.queue_fresh item || has dec q.queue_staled item

module _ {K S : Type 0} (dec : Discrete K) (limiter : RateLimiter K S) where
  done-queued :
      (now : ℕ) (q : Queue K S) (item : K)
      → (not (has dec (done dec limiter now q item).dirty item)
          || is_queued dec (done dec limiter now q item) item)
        ≡ true
  unfolding done
  done-queued now q item =
      ground (arith, has-last dec q.queue_fresh item, has-last dec q.queue_staled item)

  -- The run ends in a state that keeps what is in process, with these failures of the item, and with
  -- the item requested if it was or `b` holds.
  abbrev Handled : Bool → ℕ → Queue K S → K → Run (Queue K S) → Type 0
  Handled b n q item run =
      (r : Queue K S) × (run ≡ ok r)
      × Keeps q r
      × (failures_of dec r item ≡ n)
      × (has dec r.dirty item ≡ (has dec q.dirty item || (b && not q.shutting_down)))

  abbrev pub delay_of : Queue K S → K → ℤ
  delay_of q item = (limiter.when item q.rate_limiter).0

  failed-Handled :
      (now : ℕ) (pick : Bool) (q : Queue K S) (item : K)
      → IsOpen q
      → Handled
          (not (is_positive (delay_of q item)))
          (suc (failures_of dec q item))
          q
          item
          (add_rate_limited dec limiter now pick q item)
  unfolding add_rate_limited
  failed-Handled now pick q item o =
      let limited = record q {
        failures = GoMap.put dec q.failures item (suc (failures_of dec q item));
        rate_limiter = (limiter.when item q.rate_limiter).1;
      } in
      let (r, e, keeps, f, d) =
        add_after-Requests dec now pick limited item (delay_of q item)
          (record { unnamed = o.unnamed; room = o.room; closed = o.closed }) in
      (r, e, keeps, failures_of-put dec q r item (suc (failures_of dec q item)) f, d)

  forget-IsOpen : (q : Queue K S) (item : K) → IsOpen q → IsOpen (forget dec limiter q item)
  unfolding forget
  forget-IsOpen q item o = record { unnamed = o.unnamed; room = o.room; closed = o.closed }

  then_add :
      (now : ℕ) (q : Queue K S) (item : K) (b : Bool) (run : Run (Queue K S))
      → Requests dec b q item run
      → Requests dec true q item (run >>= (λ r. ok (add dec now r item)))
  unfolding add
  then_add now q item b run (r, e, (p, s), f, d) =
      let (t, e', (p', s'), f', d') = add-Requests dec now r item true in
      rw e (t, e', (p' ∙ p, s' ∙ s), f' ∙ f, ground arith)

  again-Requests :
      (clock : ℕ → ℕ) (pick : Bool) (q : Queue K S) (item : K) (rq : Bool) (d : ℤ)
      → IsOpen q
      → Requests dec (rq || is_positive d) q item (
          if rq || is_positive d
          then (if is_positive d then add_after dec (clock 1) pick q item d else ok q)
            >>= (λ r. ok (add dec (clock 2) r item))
          else ok q)
  again-Requests clock pick q item rq d o = elim (Bool-cases (is_positive d)) [
    | inl p ↦
        let r = then_add (clock 2) q item _ _ (add_after-Requests dec (clock 1) pick q item d o) in
        elim (Bool-cases rq) [ inl t ↦ rw (t, p) r | inr f ↦ rw (f, p) r ]
    | inr n ↦
        let same : Requests dec false q item (ok q) = (q, refl, (refl, refl), refl, ground arith) in
        elim (Bool-cases rq) [
          | inl t ↦ rw (t, n) (then_add (clock 2) q item false (ok q) same)
          | inr f ↦ rw (f, n) same
        ]
  ]

  succeeded-Handled :
      (clock : ℕ → ℕ) (pick : Bool) (q : Queue K S) (item : K) (result : Result)
      → IsOpen q
      → Handled
          (result.requeue || is_positive result.requeue_after)
          0
          q
          item
          (handle_outcome (playboy_interface dec limiter pick) clock q item (succeeded result))
  unfolding handle_outcome forget
  succeeded-Handled clock pick q item result o =
      let forgotten = forget dec limiter q item in
      let (r, e, keeps, f, d) =
        again-Requests clock pick forgotten item result.requeue result.requeue_after
          (forget-IsOpen q item o) in
      (r, e, keeps, failures_of-remove dec q r item f, d)

  handle-Handled :
      (clock : ℕ → ℕ) (pick : Bool) (q : Queue K S) (item : K) (outcome : Outcome)
      → IsOpen q
      → Handled
          (asked (delay_of q item) outcome)
          (counted (failures_of dec q item) outcome)
          q
          item
          (handle_outcome (playboy_interface dec limiter pick) clock q item outcome)
  unfolding handle_outcome
  handle-Handled clock pick q item failed o = failed-Handled (clock 1) pick q item o
  handle-Handled clock pick q item (succeeded result) o =
      succeeded-Handled clock pick q item result o

  handle_outcome-Handled :
      (fresh : Bool) (clock : ℕ → ℕ) (pick : Bool) (q : Queue K S) (item : K) (outcome : Outcome)
      → IsOpen q
      → Handled
          (asked (delay_of q item) outcome)
          (counted (failures_of dec q item) outcome)
          q
          item
          (handle_outcome (interface_of dec limiter pick fresh) clock q item outcome)
  unfolding handle_outcome
  handle_outcome-Handled true clock pick q item failed o = handle-Handled clock pick q item failed o
  handle_outcome-Handled true clock pick q item (succeeded result) o =
      handle-Handled clock pick q item (succeeded result) o
  handle_outcome-Handled false clock pick q item outcome o =
      handle-Handled clock pick q item outcome o

  done-failures_of :
      (now : ℕ) (q : Queue K S) (item : K)
      → failures_of dec (done dec limiter now q item) item ≡ failures_of dec q item
  unfolding failures_of
  done-failures_of now q item = rw (done-failures dec limiter now q item)

  -- After the round: the item is not in process, it has these failures, it is requested if it was at
  -- the end of `reconcile` or `b` holds, and if it is requested it stands in one of the two queues.
  abbrev pub Settled : Bool → ℕ → Queue K S → K → Run (Queue K S × Bool) → Type 0
  Settled b n after item run =
      (r : Queue K S) × (run ≡ ok (r, true))
      × (has dec r.processing item ≡ false)
      × (failures_of dec r item ≡ n)
      × (has dec r.dirty item ≡ (has dec after.dirty item || (b && not after.shutting_down)))
      × ((not (has dec r.dirty item) || is_queued dec r item) ≡ true)

  playboy-Settled :
      (b : Bool) (n : ℕ) (clock : ℕ → ℕ) (pick : Bool) (q : Queue K S) (item : K)
      (run : Run (Queue K S))
      → Handled b n q item run
      → Settled b n q item (return_true (playboy_interface dec limiter pick) clock item run)
  playboy-Settled b n clock pick q item run (r, e, keeps, f, d) = rw e (
    done dec limiter (clock 3) r item,
    refl,
    done-processing dec limiter (clock 3) r item,
    done-failures_of (clock 3) r item ∙ f,
    done-dirty dec limiter (clock 3) r item ∙ d,
    done-queued (clock 3) r item,
  )

  return-Settled :
      (b : Bool) (n : ℕ) (fresh : Bool) (clock : ℕ → ℕ) (pick : Bool) (q : Queue K S) (item : K)
      (run : Run (Queue K S))
      → Handled b n q item run
      → Settled b n q item (return_true (interface_of dec limiter pick fresh) clock item run)
  return-Settled b n true clock pick q item run h = playboy-Settled b n clock pick q item run h
  return-Settled b n false clock pick q item run h = playboy-Settled b n clock pick q item run h

  module _ (as_string : K → Option String)
      (reconcile : String → Queue K S → Queue K S × Outcome) where
    -- Where `reconcile` leaves a queue without metrics and with room for a delayed item, the round
    -- of a fresh or of a staled worker that took a string returns true. The item is then not in
    -- process, its failures are one more after an error and 0 after a success, and it is requested
    -- exactly if it was at the end of `reconcile`, or the queue is not shut down and either an error
    -- meets a delay that is not positive, or a success asks for a requeue in either of its fields. If
    -- it is requested, it stands in the fresh or in the staled queue.
    pub process-Settled :
        (fresh : Bool) (clock : ℕ → ℕ) (pick : Bool) (q : Queue K S) {taken after : Queue K S}
        {item : K} {key : String} {outcome : Outcome}
        → (interface_of dec limiter pick fresh).get (clock 0) q ≡ (taken, got item)
        → as_string item ≡ some key
        → reconcile key taken ≡ (after, outcome)
        → IsOpen after
        → Settled
            (asked (delay_of after item) outcome)
            (counted (failures_of dec after item) outcome)
            after
            item
            (process_item_from_queue
              (interface_of dec limiter pick fresh)
              clock
              as_string
              reconcile
              q)
    unfolding process_item_from_queue
    process-Settled fresh clock pick q {after} {item} {outcome} g s c o =
        rw (g, s, c)
          (return-Settled _ _ fresh clock pick after item _
            (handle_outcome-Handled fresh clock pick after item outcome o))
