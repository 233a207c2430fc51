-- ===== src/Workqueue/Queue/Drain.antt =====
-- pkg/utils/workqueue/playboyqueue.go: calls of `Get` in a loop, and the drain of a shutdown.
use Prim.Native.String.{String}
use k8s_controller_the_hard.Workqueue.Metrics.{MetricsProvider}
use k8s_controller_the_hard.Prelude.GoMap
use k8s_controller_the_hard.Workqueue.Queue.Invariant.{IsValid, Reach-IsValid}
use k8s_controller_the_hard.Prelude.{
  Option, none, some, ℕ, zero, suc, ◌+◌, ◌<◌, ◌≡◌, refl, inl, inr, ◌∙◌, Bool, true, false, arith,
  if◌then◌else◌, length, ok, List, [], ◌∷◌, ◌++◌,
}
use k8s_controller_the_hard.Prelude.Int.{ℤ}
use k8s_controller_the_hard.Workqueue.Set.{has}
use k8s_controller_the_hard.Workqueue.Queue.Steps.{
  Call, adds, adds_ready, dones, forgets, gets, gets_fresh, shuts_down, updates, receives,
  adds_after, adds_rate_limited, Ensures, step, Later, here, next, Reach,
}
use k8s_controller_the_hard.Workqueue.Queue.Delivery.{
  get-eq_fresh, get-eq_staled, get-eq_none, get_fresh-eq_none,
}
use k8s_controller_the_hard.Workqueue.Queue.{
  Queue, RateLimiter, Got, got, shutdown, wait, queue_len, shut_down, add_fresh_or_staled, add,
  hand_out, get, is_fresh, failures_of, add_after, done, add_rate_limited, forget,
  update_unfinished_work,
}

abbrev pub cons_item : {K : Type 0} → K → Option (List K × Got K) → Option (List K × Got K)
cons_item x none = none
cons_item x (some (xs, end)) = some (x ∷ xs, end)

module _ {K S : Type 0} where
  shut_down-again : (q : Queue K S) → q.stop_once ≡ true → shut_down q ≡ q
  unfolding shut_down
  shut_down-again q d = ground arith

  pub update-closed :
      (now : ℕ) (q : Queue K S) → q.shutting_down ≡ true → update_unfinished_work now q ≡ q
  unfolding update_unfinished_work
  update-closed now q d = ground arith

module _ {K S : Type 0} (dec : Discrete K) where
  -- Calls of `Get` until one hands out nothing: the items in order, and how the last call ends.
  -- `none` means that the fuel ran out.
  pub get_all : ℕ → ℕ → Queue K S → Option (List K × Got K)
  get_all zero now q = none
  get_all (suc f) now q =
      let rest = get_all f now (get dec now q).0 in
      elim (get dec now q).1 [
        | got x ↦ cons_item x rest
        | shutdown ↦ some ([], shutdown)
        | wait ↦ some ([], wait)
      ]

  get_all-eq :
      (f now : ℕ) (q : Queue K S) (fs ss : List K)
      → q.queue_fresh ≡ fs
      → q.queue_staled ≡ ss
      → length fs + length ss < f
      → get_all f now q ≡ some (fs ++ ss, if q.shutting_down then shutdown else wait)
  unfolding get_all
  get_all-eq zero now q fs ss f s h = absurd (omega arith)
  get_all-eq (suc n) now q (x ∷ fs) ss f s h =
      let rest =
        get_all-eq n now (hand_out dec now (record q { queue_fresh = fs }) x) fs ss refl s
          (omega arith) in
      ground (arith, get-eq_fresh dec now q x fs f, rest)
  get_all-eq (suc n) now q [] (x ∷ ss) f s h =
      let rest =
        get_all-eq n now (hand_out dec now (record q { queue_staled = ss }) x) [] ss f refl
          (omega arith) in
      ground (arith, get-eq_staled dec now q x ss f s, rest)
  get_all-eq (suc n) now q [] [] f s h = ground (arith, get-eq_none dec now q f s)

  -- Calls of `Get` with no other call between them hand out all that is queued, each item once: the
  -- fresh queue from its head, then the staled queue from its head. The call after those reports the
  -- shutdown if one has begun, and waits if none has; so more calls than the length of the queue are
  -- enough.
  pub get_all_drains :
      (f now : ℕ) (q : Queue K S)
      → queue_len q < f
      → get_all f now q
        ≡ some (q.queue_fresh ++ q.queue_staled, if q.shutting_down then shutdown else wait)
  unfolding queue_len
  get_all_drains f now q h = get_all-eq f now q q.queue_fresh q.queue_staled refl refl h

  -- Shut down, with nothing requested.
  abbrev pub IsDraining : Queue K S → Type 0
  IsDraining q =
      (q.shutting_down ≡ true)
      × (q.stop_once ≡ true)
      × ((x : K) → has dec q.dirty x ≡ false)
      × (q.queue_fresh ≡ [])
      × (q.queue_staled ≡ [])

  -- Still so, and nothing was said to the goroutines that wait on the condition variable.
  abbrev pub Quiet : Queue K S → Queue K S → Type 0
  Quiet q r = IsDraining r × (r.cond ≡ q.cond)

  pub add-closed :
      (now : ℕ) (q : Queue K S) (item : K) (fresh : Bool)
      → q.shutting_down ≡ true
      → add_fresh_or_staled dec now q item fresh ≡ q
  unfolding add_fresh_or_staled
  add-closed now q item fresh d = ground arith

  pub add_after-closed :
      (now : ℕ) (pick : Bool) (q : Queue K S) (item : K) (x : ℤ)
      → q.shutting_down ≡ true
      → add_after dec now pick q item x ≡ ok q
  unfolding add_after
  add_after-closed now pick q item x d = ground arith

  module _ (limiter : RateLimiter K S) where
    done-Quiet :
        (now : ℕ) (q : Queue K S) (item : K) → IsDraining q → Quiet q (done dec limiter now q item)
    unfolding done
    done-Quiet now q item d = simp (d.2 item) (d, refl)

    step-Quiet :
        (now : ℕ) (q : Queue K S) (c : Call K)
        → IsDraining q
        → Ensures (Quiet q) (step dec limiter now q c)
    unfolding step add forget add_rate_limited
    step-Quiet now q (adds item) d = rw (add-closed now q item true d.0) (d, refl)
    step-Quiet now q (adds_ready item) d =
        rw (add-closed now q item (is_fresh dec q item) d.0) (d, refl)
    step-Quiet now q (dones item) d = done-Quiet now q item d
    step-Quiet now q (forgets item) d = (d, refl)
    step-Quiet now q gets d = rw (get-eq_none dec now q d.3 d.4) (d, refl)
    step-Quiet now q gets_fresh d = rw (get_fresh-eq_none dec now q d.3) (d, refl)
    step-Quiet now q shuts_down d = rw (shut_down-again q d.1) (d, refl)
    step-Quiet now q updates d = rw (update-closed now q d.0) (d, refl)
    step-Quiet now q receives d = (d, refl)
    step-Quiet now q (adds_after pick item x) d =
        rw (add_after-closed now pick q item x d.0) (d, refl)
    step-Quiet now q (adds_rate_limited pick item) d =
        rw (add_after-closed now pick (retried q item) item _ d.0) (d, refl)
      where
        retried : Queue K S → K → Queue K S
        retried q item = record q {
          failures = GoMap.put dec q.failures item (suc (failures_of dec q item));
          rate_limiter = (limiter.when item q.rate_limiter).1;
        }

    empty_of_valid :
        (q : Queue K S)
        → IsValid dec q
        → ((x : K) → has dec q.dirty x ≡ false)
        → (fs ss : List K) → q.queue_fresh ≡ fs
        → q.queue_staled ≡ ss
        → (q.queue_fresh ≡ []) × (q.queue_staled ≡ [])
    empty_of_valid q v d (x ∷ fs) ss f s = absurd (ground (arith, v.placed x, d x))
    empty_of_valid q v d [] (x ∷ ss) f s = absurd (ground (arith, v.placed x, d x))
    empty_of_valid q v d [] [] f s = (f, s)

    Later-Quiet : {q r : Queue K S} → IsDraining q → Later dec limiter q r → Quiet q r
    Later-Quiet d here = (d, refl)
    Later-Quiet d (next {r} now c l a (inl e)) =
        let (dr, kept) = Later-Quiet d l in
        let (dt, same) = rw e at (step-Quiet now r c dr) in (dt, same ∙ kept)
    Later-Quiet d (next {r} now c l a (inr e)) =
        let (dr, kept) = Later-Quiet d l in
        let (dt, same) = rw e at (step-Quiet now r c dr) in (dt, same ∙ kept)

    -- `ShutDownWithDrain` is not woken by the last `Done`. From a reachable state that is shut down,
    -- with no item requested (so that only items in process are left), no sequence of calls signals
    -- or broadcasts on the condition variable, also not the calls of `Done` that empty the set of
    -- items in process; so a drain that went into `cond.Wait` there is never notified.
    pub drain_never_notified :
        {n : ℕ} {s : S} {name : String} {provider : MetricsProvider} {q r : Queue K S}
        → Reach dec limiter n s name provider q
        → q.shutting_down ≡ true
        → ((x : K) → has dec q.dirty x ≡ false)
        → Later dec limiter q r
        → r.cond ≡ q.cond
    drain_never_notified {q} reach down none_requested l =
        let v = Reach-IsValid dec limiter reach in
        let e = empty_of_valid q v none_requested q.queue_fresh q.queue_staled refl refl in
        (Later-Quiet (down, v.stopped.once ∙ down, none_requested, e.0, e.1) l).1
