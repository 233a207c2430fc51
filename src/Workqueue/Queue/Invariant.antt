-- ===== src/Workqueue/Queue/Invariant.antt =====
-- pkg/utils/workqueue/playboyqueue.go: the rule that the comments on `playboyType` state of its
-- queues and sets, kept by every method in every order of calls.
use Prim.Native.String.{String}
use k8s_controller_the_hard.Prelude.{
  ℕ, zero, suc, ◌≤◌, ◌≡◌, refl, inl, inr, Bool, true, not, ◌&&◌, ◌||◌, List, [], ◌∷◌, arith, length,
  length-append, ltb, Option, none, some, ◌++◌,
}
use k8s_controller_the_hard.Prelude.Int.{ℤ, pos, negsuc}
use k8s_controller_the_hard.Prelude.GoMap.{GoMap}
use k8s_controller_the_hard.Workqueue.Metrics
use k8s_controller_the_hard.Workqueue.Metrics.{MetricsProvider}
use k8s_controller_the_hard.Workqueue.Set.{has}
use k8s_controller_the_hard.Workqueue.Queue.Steps.{
  Call, adds, adds_ready, dones, forgets, gets, gets_fresh, shuts_down, updates, receives,
  adds_after, adds_rate_limited, rest_of, receive, Ensures, Ensures-if, step, Allowed, Reach, start,
  later,
}
use k8s_controller_the_hard.Workqueue.Queue.Placement.{
  IsPlaced, add-IsPlaced, get-IsPlaced, get_fresh-IsPlaced, done-IsPlaced,
}
use k8s_controller_the_hard.Workqueue.Queue.{
  Queue, RateLimiter, WaitFor, channel_size, new_named_playboy_queue, shut_down, select_send,
  add_fresh_or_staled, add, get_case, get, get_fresh, add_delayed, add_counted, add_after, done,
  add_rate_limited, forget, is_fresh, update_unfinished_work,
}

length-rest_of : {K : Type 0} (es : List (WaitFor K)) → length (rest_of es) ≤ length es
length-rest_of [] = omega arith
length-rest_of (e ∷ es) = omega arith

module _ {K S : Type 0} where
  -- The flags of a shutdown agree, and the channel keeps within its buffer.
  pub record IsStopped (q : Queue K S) : Type 0 where
    pub once : q.stop_once ≡ q.shutting_down
    pub closed : q.stop_ch_closed ≡ q.shutting_down
    pub buffered : length q.waiting_for_add_ch ≤ channel_size

module _ {K S : Type 0} (dec : Discrete K) where
  pub record IsValid (q : Queue K S) : Type 0 where
    pub placed : (x : K) → IsPlaced dec q x
    pub stopped : IsStopped q

  get_case-IsStopped :
      (now : ℕ) (q : Queue K S)
      → IsStopped q
      → IsStopped (get_case dec now q q.queue_fresh q.queue_staled).0
  get_case-IsStopped now q v = ground arith

  get-IsStopped : (now : ℕ) (q : Queue K S) → IsStopped q → IsStopped (get dec now q).0
  unfolding get
  get-IsStopped now q v = ground (arith, get_case-IsStopped now q)

  get_fresh-IsStopped : (now : ℕ) (q : Queue K S) → IsStopped q → IsStopped (get_fresh dec now q).0
  unfolding get_fresh
  get_fresh-IsStopped now q v = ground arith

  add-IsStopped :
      (now : ℕ) (q : Queue K S) (item : K) (fresh : Bool)
      → IsStopped q
      → IsStopped (add_fresh_or_staled dec now q item fresh)
  unfolding add_fresh_or_staled
  add-IsStopped now q item fresh v = ground arith

  pub add-IsValid :
      (now : ℕ) (q : Queue K S) (item : K) (fresh : Bool)
      → IsValid q
      → IsValid (add_fresh_or_staled dec now q item fresh)
  add-IsValid now q item fresh v = record {
    placed = add-IsPlaced dec now q item fresh v.placed;
    stopped = add-IsStopped now q item fresh v.stopped;
  }

  shut_down-IsValid : (q : Queue K S) → IsValid q → IsValid (shut_down q)
  unfolding shut_down
  shut_down-IsValid q v = record {
    placed = λ x. ground (arith, v.placed x);
    stopped = ground (arith, v.stopped);
  }

  update-IsValid : (now : ℕ) (q : Queue K S) → IsValid q → IsValid (update_unfinished_work now q)
  unfolding update_unfinished_work
  update-IsValid now q v = record {
    placed = λ x. ground (arith, v.placed x);
    stopped = ground (arith, v.stopped);
  }

  receive-IsValid : (q : Queue K S) → IsValid q → IsValid (receive q)
  receive-IsValid q v = record {
    placed = v.placed;
    stopped = record {
      once = v.stopped.once;
      closed = v.stopped.closed;
      buffered = omega (arith, v.stopped.buffered, length-rest_of q.waiting_for_add_ch);
    };
  }

  -- The counters and the limiter are no part of the rule.
  pub retag-IsValid :
      (q : Queue K S) (m : Metrics.Metrics K) (f : GoMap K ℕ) (s : S)
      → IsValid q
      → IsValid (record q { metrics = m; failures = f; rate_limiter = s })
  retag-IsValid q m f s v = record {
    placed = v.placed;
    stopped = record {
      once = v.stopped.once;
      closed = v.stopped.closed;
      buffered = v.stopped.buffered;
    };
  }

  pub select_send-IsValid :
      (pick : Bool) (q : Queue K S) (e : WaitFor K)
      → IsValid q
      → Ensures IsValid (select_send pick q e)
  unfolding select_send
  select_send-IsValid pick q e v =
      Ensures-if IsValid (q.stop_ch_closed && (pick || not room)) _ _ (λ _. v)
        λ _.
          Ensures-if IsValid room _ _ (λ fits. record { placed = v.placed; stopped = sent fits })
            (λ _. v)
    where
      room : Bool
      room = ltb (length q.waiting_for_add_ch) channel_size

      sent :
          room ≡ true → IsStopped (record q { waiting_for_add_ch = q.waiting_for_add_ch ++ e ∷ [] })
      sent fits = record {
        once = v.stopped.once;
        closed = v.stopped.closed;
        buffered = ground (arith, length-append q.waiting_for_add_ch (e ∷ []));
      }

  add_delayed-IsValid :
      (now : ℕ) (pick : Bool) (q : Queue K S) (item : K) (d : ℤ)
      → IsValid q
      → Ensures IsValid (add_delayed dec now pick q item d)
  add_delayed-IsValid now pick q item (pos (suc n)) v = select_send-IsValid pick q _ v
  add_delayed-IsValid now pick q item (pos zero) v = add-IsValid now q item (is_fresh dec q item) v
  add_delayed-IsValid now pick q item (negsuc n) v = add-IsValid now q item (is_fresh dec q item) v

  add_counted-IsValid :
      (now : ℕ) (pick : Bool) (q : Queue K S) (item : K) (d : ℤ) (m : Option (Metrics.Metrics K))
      → IsValid q
      → Ensures IsValid (add_counted dec now pick q item d m)
  add_counted-IsValid now pick q item d none v = tt
  add_counted-IsValid now pick q item d (some m) v =
      add_delayed-IsValid now pick _ item d (retag-IsValid q m q.failures q.rate_limiter v)

  add_after-IsValid :
      (now : ℕ) (pick : Bool) (q : Queue K S) (item : K) (d : ℤ)
      → IsValid q
      → Ensures IsValid (add_after dec now pick q item d)
  unfolding add_after
  add_after-IsValid now pick q item d v =
      Ensures-if IsValid q.shutting_down _ _ (λ _. v)
        (λ _. add_counted-IsValid now pick q item d (Metrics.retry q.metrics) v)

  module _ (limiter : RateLimiter K S) where
    done-IsValid :
        (now : ℕ) (q : Queue K S) (item : K)
        → IsValid q
        → has dec q.processing item ≡ true
        → IsValid (done dec limiter now q item)
    done-IsValid now q item v h = record {
      placed = done-IsPlaced dec limiter now q item v.placed h;
      stopped = unfold done in ground (arith, v.stopped);
    }

    -- Every method keeps the rule, if `Done` is called for items in process only.
    pub step-IsValid :
        (now : ℕ) (q : Queue K S) (c : Call K)
        → IsValid q
        → Allowed dec limiter q c
        → Ensures IsValid (step dec limiter now q c)
    unfolding step add forget add_rate_limited
    step-IsValid now q (adds item) v a = add-IsValid now q item true v
    step-IsValid now q (adds_ready item) v a = add-IsValid now q item (is_fresh dec q item) v
    step-IsValid now q (dones item) v a = done-IsValid now q item v a
    step-IsValid now q (forgets item) v a = retag-IsValid q q.metrics _ _ v
    step-IsValid now q gets v a = record {
      placed = get-IsPlaced dec now q v.placed;
      stopped = get-IsStopped now q v.stopped;
    }
    step-IsValid now q gets_fresh v a = record {
      placed = get_fresh-IsPlaced dec now q v.placed;
      stopped = get_fresh-IsStopped now q v.stopped;
    }
    step-IsValid now q shuts_down v a = shut_down-IsValid q v
    step-IsValid now q updates v a = update-IsValid now q v
    step-IsValid now q receives v a = receive-IsValid q v
    step-IsValid now q (adds_after pick item d) v a = add_after-IsValid now pick q item d v
    step-IsValid now q (adds_rate_limited pick item) v a =
        add_after-IsValid now pick _ item _ (retag-IsValid q q.metrics _ _ v)

    pub Reach-IsValid :
        {n : ℕ} {s : S} {name : String} {provider : MetricsProvider} {q : Queue K S}
        → Reach dec limiter n s name provider q
        → IsValid q
    unfolding new_named_playboy_queue has
    Reach-IsValid start = record {
      placed = λ x. refl;
      stopped = record { once = refl; closed = refl; buffered = omega arith };
    }
    Reach-IsValid (later {q} now c r a (inl e)) = rw e at (step-IsValid now q c (Reach-IsValid r) a)
    Reach-IsValid (later {q} now c r a (inr e)) = rw e at (step-IsValid now q c (Reach-IsValid r) a)
