-- ===== src/Workqueue/Queue/Refinement.antt =====
-- pkg/utils/workqueue/playboyqueue.go: the queue implements the abstract queue of `Contract`.
use k8s_controller_the_hard.Prelude.{
  ℕ, zero, suc, ◌≡◌, refl, inl, ◌&&◌, ◌||◌, not, Bool, true, arith, if◌then◌else◌, Option, none,
  some, length, ltb, ok, blocked, [], ◌∷◌, ◌++◌,
}
use k8s_controller_the_hard.Prelude.GoMap
use k8s_controller_the_hard.Prelude.Int.{ℤ, pos, negsuc}
use k8s_controller_the_hard.Workqueue.Metrics
use k8s_controller_the_hard.Workqueue.Contract.{
  View, Label, requests, starts, finishes, closes, keeps, move, Enabled, SameView,
}
use k8s_controller_the_hard.Workqueue.Set.{has, has-insert, has-delete}
use k8s_controller_the_hard.Workqueue.Queue.Steps.{
  Call, adds, adds_ready, dones, forgets, gets, gets_fresh, shuts_down, updates, receives,
  adds_after, adds_rate_limited, receive, Ensures, Ensures-if, step,
}
use k8s_controller_the_hard.Workqueue.Queue.Invariant.{IsValid}
use k8s_controller_the_hard.Workqueue.Queue.Delivery.{
  Delivers, DeliversFresh, get-Delivers, get_fresh-Delivers,
}
use k8s_controller_the_hard.Workqueue.Queue.{
  Queue, RateLimiter, WaitFor, channel_size, Got, got, shutdown, wait, shut_down, select_send,
  add_fresh_or_staled, add, get, get_fresh, is_fresh, failures_of, add_counted, add_after, done,
  add_rate_limited, forget, update_unfinished_work,
}

module _ {K S : Type 0} (dec : Discrete K) (limiter : RateLimiter K S) where
  abbrev pub view : Queue K S → View K
  view q = record {
    requested = has dec q.dirty;
    in_process = has dec q.processing;
    closed = q.shutting_down;
  }

  abbrev pub started : Got K → Label K
  started (got x) = starts x
  started shutdown = keeps
  started wait = keeps

  abbrev pub delayed : K → ℤ → Label K
  delayed item (pos (suc n)) = keeps
  delayed item _ = requests item

  -- The move that a call makes.
  abbrev pub label : ℕ → Queue K S → Call K → Label K
  label now q (adds item) = requests item
  label now q (adds_ready item) = requests item
  label now q (dones item) = finishes item
  label now q (forgets item) = keeps
  label now q gets = started (get dec now q).1
  label now q gets_fresh = started (get_fresh dec now q).1
  label now q shuts_down = closes
  label now q updates = keeps
  label now q receives = keeps
  label now q (adds_after pick item duration) = delayed item duration
  label now q (adds_rate_limited pick item) = delayed item (limiter.when item q.rate_limiter).0

  -- `r` is what the move makes of `q`.
  abbrev pub Makes : Label K → Queue K S → Queue K S → Type 0
  Makes l q r = Enabled dec (view q) l × SameView (view r) (move dec (view q) l)

  add-Makes :
      (now : ℕ) (q : Queue K S) (item : K) (fresh : Bool)
      → Makes (requests item) q (add_fresh_or_staled dec now q item fresh)
  unfolding add_fresh_or_staled
  add-Makes now q item fresh = (
    tt,
    record {
      requested = λ x. ground (arith, has-insert dec q.dirty item x);
      in_process = λ x. ground arith;
      closed = ground arith;
    },
  )

  done-Makes :
      (now : ℕ) (q : Queue K S) (item : K) → Makes (finishes item) q (done dec limiter now q item)
  unfolding done
  done-Makes now q item = (
    tt,
    record {
      requested = λ x. ground arith;
      in_process = λ x. ground (arith, has-delete dec q.processing item x);
      closed = ground arith;
    },
  )

  keeps-Makes :
      (q r : Queue K S)
      → r.dirty ≡ q.dirty
      → r.processing ≡ q.processing
      → r.shutting_down ≡ q.shutting_down
      → Makes keeps q r
  keeps-Makes q r d p s = (tt, record { requested = λ x. rw d; in_process = λ x. rw p; closed = s })

  -- A shut down queue drops the request.
  delayed-Makes_closed :
      (q : Queue K S) (item : K) (d : ℤ) → q.shutting_down ≡ true → Makes (delayed item d) q q
  delayed-Makes_closed q item (pos (suc n)) e = keeps-Makes q q refl refl refl
  delayed-Makes_closed q item (pos zero) e =
      (tt, record { requested = λ x. ground arith; in_process = λ x. refl; closed = refl })
  delayed-Makes_closed q item (negsuc n) e =
      (tt, record { requested = λ x. ground arith; in_process = λ x. refl; closed = refl })

  select_send-Makes :
      (pick : Bool) (q : Queue K S) (e : WaitFor K) → Ensures (Makes keeps q) (select_send pick q e)
  unfolding select_send
  select_send-Makes pick q e =
      Ensures-if (Makes keeps q) (q.stop_ch_closed && (pick || not room)) (ok q)
        (if room then ok sent else blocked q) (λ _. keeps-Makes q q refl refl refl)
        λ _.
          Ensures-if (Makes keeps q) room (ok sent) (blocked q)
            (λ _. keeps-Makes q sent refl refl refl) (λ _. keeps-Makes q q refl refl refl)
    where
      room : Bool
      room = ltb (length q.waiting_for_add_ch) channel_size

      sent : Queue K S
      sent = record q { waiting_for_add_ch = q.waiting_for_add_ch ++ e ∷ [] }

  add_counted-Makes :
      (now : ℕ) (pick : Bool) (q : Queue K S) (item : K) (d : ℤ) (m : Option (Metrics.Metrics K))
      → Ensures (Makes (delayed item d) q) (add_counted dec now pick q item d m)
  add_counted-Makes now pick q item d none = tt
  add_counted-Makes now pick q item (pos (suc n)) (some m) =
      select_send-Makes pick (record q { metrics = m }) _
  add_counted-Makes now pick q item (pos zero) (some m) =
      add-Makes now (record q { metrics = m }) item (is_fresh dec (record q { metrics = m }) item)
  add_counted-Makes now pick q item (negsuc n) (some m) =
      add-Makes now (record q { metrics = m }) item (is_fresh dec (record q { metrics = m }) item)

  add_after-Makes :
      (now : ℕ) (pick : Bool) (q : Queue K S) (item : K) (d : ℤ)
      → Ensures (Makes (delayed item d) q) (add_after dec now pick q item d)
  unfolding add_after
  add_after-Makes now pick q item d =
      Ensures-if (Makes (delayed item d) q) q.shutting_down _ _
        (λ down. delayed-Makes_closed q item d down)
        (λ _. add_counted-Makes now pick q item d (Metrics.retry q.metrics))

  started-Makes :
      (q : Queue K S) (o : Queue K S × Got K) → Delivers dec q o → Makes (started o.1) q o.0
  started-Makes q (r, got x) (h, from) = (
    (h.was_requested, h.was_idle),
    record { requested = h.requested; in_process = h.in_process; closed = h.closed },
  )
  started-Makes q (r, shutdown) h = rw h.0 (keeps-Makes q q refl refl refl)
  started-Makes q (r, wait) h = rw h.0 (keeps-Makes q q refl refl refl)

  started_fresh-Makes :
      (q : Queue K S) (o : Queue K S × Got K) → DeliversFresh dec q o → Makes (started o.1) q o.0
  started_fresh-Makes q (r, got x) h = started-Makes q (r, got x) (h.0, inl h.1)
  started_fresh-Makes q (r, shutdown) h = rw h.0 (keeps-Makes q q refl refl refl)
  started_fresh-Makes q (r, wait) h = rw h.0 (keeps-Makes q q refl refl refl)

  shut_down-Makes : (q : Queue K S) → IsValid dec q → Makes closes q (shut_down q)
  unfolding shut_down
  shut_down-Makes q v = (
    tt,
    record {
      requested = λ x. ground arith;
      in_process = λ x. ground arith;
      closed = ground (arith, v.stopped.once);
    },
  )

  -- Each method of the queue, on a valid queue, makes exactly the abstract move of its label, and
  -- a start only where the item is requested and in no other process: what is requested, what is in
  -- process and whether the queue is closed change as the set-based queue says, whether the call
  -- returns or blocks, and in no other way.
  pub step-Makes :
      (now : ℕ) (q : Queue K S) (c : Call K)
      → IsValid dec q
      → Ensures (Makes (label now q c) q) (step dec limiter now q c)
  unfolding step add forget add_rate_limited update_unfinished_work
  step-Makes now q (adds item) v = add-Makes now q item true
  step-Makes now q (adds_ready item) v = add-Makes now q item (is_fresh dec q item)
  step-Makes now q (dones item) v = done-Makes now q item
  step-Makes now q (forgets item) v = keeps-Makes q (forget dec limiter q item) refl refl refl
  step-Makes now q gets v = started-Makes q (get dec now q) (get-Delivers dec now q v)
  step-Makes now q gets_fresh v =
      started_fresh-Makes q (get_fresh dec now q) (get_fresh-Delivers dec now q v)
  step-Makes now q shuts_down v = shut_down-Makes q v
  step-Makes now q updates v =
      keeps-Makes q (update_unfinished_work now q) (ground arith) (ground arith) (ground arith)
  step-Makes now q receives v = keeps-Makes q (receive q) refl refl refl
  step-Makes now q (adds_after pick item d) v = add_after-Makes now pick q item d
  step-Makes now q (adds_rate_limited pick item) v =
      add_after-Makes now pick
        (record q {
          failures = GoMap.put dec q.failures item (suc (failures_of dec q item));
          rate_limiter = (limiter.when item q.rate_limiter).1;
        })
        item (limiter.when item q.rate_limiter).0
