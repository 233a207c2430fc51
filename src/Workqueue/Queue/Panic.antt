-- ===== src/Workqueue/Queue/Panic.antt =====
-- pkg/utils/workqueue/playboyqueue.go and metrics.go: the calls that panic. `newMetrics` leaves
-- `retries` nil, and `AddAfter` counts a retry on it.
use Prim.Native.String.{String}
use k8s_controller_the_hard.Prelude.{
  ℕ, zero, suc, ◌≡◌, refl, inl, inr, ◌||◌, not, Bool, true, false, arith, Option, none, some, Run,
  ok, blocked, panic, List, [], ◌∷◌, ◌∙◌, sym,
}
use k8s_controller_the_hard.Prelude.Int.{ℤ, pos, negsuc}
use k8s_controller_the_hard.Workqueue.Metrics
use k8s_controller_the_hard.Workqueue.Metrics.{MetricsProvider, is_empty, is_noop_value}
use k8s_controller_the_hard.Workqueue.Queue.Steps.{
  Call, adds, adds_ready, dones, forgets, gets, gets_fresh, shuts_down, updates, receives,
  adds_after, adds_rate_limited, Ensures, Ensures-if, step, Reach, start, later,
}
use k8s_controller_the_hard.Workqueue.Queue.{
  Queue, RateLimiter, WaitFor, get_case, get_fresh_case, new_named_playboy_queue, shut_down,
  select_send, add_fresh_or_staled, add, get, get_fresh, add_delayed, add_counted, add_after, done,
  add_rate_limited, forget, update_unfinished_work,
}

-- Whether the metrics have a nil `retries`.
abbrev pub nil_retries : {K : Type 0} → Metrics.Metrics K → Bool
nil_retries Metrics.no_metrics = false
nil_retries (Metrics.default_metrics m) = elim m.retries [ none ↦ true | some _ ↦ false ]

abbrev pub is_panic : {A : Type 0} → Run A → Bool
is_panic (ok _) = false
is_panic (blocked _) = false
is_panic panic = true

-- The queues whose metrics are those of `defaultMetrics`.
abbrev pub has_metrics : String → MetricsProvider → Bool
has_metrics name provider = not (is_empty name || is_noop_value provider)

new_metrics-nil :
    (K : Type 0) (name : String) (provider : MetricsProvider)
    → nil_retries (Metrics.new_metrics {K = K} name provider) ≡ has_metrics name provider
unfolding Metrics.new_metrics
new_metrics-nil K name provider = ground arith

module _ {K : Type 0} where
  nil_of_retry : (m : Metrics.Metrics K) → Metrics.retry m ≡ none → nil_retries m ≡ true
  unfolding Metrics.retry Metrics.default_retry
  nil_of_retry m h = ground arith

  not_nil_of_retry : (m r : Metrics.Metrics K) → Metrics.retry m ≡ some r → nil_retries m ≡ false
  unfolding Metrics.retry Metrics.default_retry
  not_nil_of_retry m r h = ground arith

  retry-nil : (m r : Metrics.Metrics K) → Metrics.retry m ≡ some r → nil_retries r ≡ nil_retries m
  unfolding Metrics.retry Metrics.default_retry
  retry-nil m r h = ground arith

module _ {K : Type 0} (dec : Discrete K) where
  add-nil :
      (now : ℕ) (m : Metrics.Metrics K) (x : K)
      → nil_retries (Metrics.add dec now m x) ≡ nil_retries m
  unfolding Metrics.add Metrics.default_add
  add-nil now m x = ground arith

  get-nil :
      (now : ℕ) (m : Metrics.Metrics K) (x : K)
      → nil_retries (Metrics.get dec now m x) ≡ nil_retries m
  unfolding Metrics.get Metrics.default_get
  get-nil now m x = ground arith

  done-nil :
      (now : ℕ) (m : Metrics.Metrics K) (x : K)
      → nil_retries (Metrics.done dec now m x) ≡ nil_retries m
  unfolding Metrics.done Metrics.default_done
  done-nil now m x = ground arith

update-nil :
    {K : Type 0} (now : ℕ) (m : Metrics.Metrics K)
    → nil_retries (Metrics.update_unfinished_work now m) ≡ nil_retries m
unfolding Metrics.update_unfinished_work Metrics.default_update_unfinished_work
update-nil now m = ground arith

module _ {K S : Type 0} (dec : Discrete K) where
  abbrev pub SameNil : Queue K S → Queue K S → Type 0
  SameNil q r = nil_retries r.metrics ≡ nil_retries q.metrics

  add-SameNil :
      (now : ℕ) (q : Queue K S) (item : K) (fresh : Bool)
      → SameNil q (add_fresh_or_staled dec now q item fresh)
  unfolding add_fresh_or_staled
  add-SameNil now q item fresh = ground (arith, add-nil dec now q.metrics item)

  get-SameNil_lists :
      (now : ℕ) (q : Queue K S) (fs ss : List K) → SameNil q (get_case dec now q fs ss).0
  get-SameNil_lists now q (x ∷ fs) ss = get-nil dec now q.metrics x
  get-SameNil_lists now q [] (x ∷ ss) = get-nil dec now q.metrics x
  get-SameNil_lists now q [] [] = refl

  get-SameNil : (now : ℕ) (q : Queue K S) → SameNil q (get dec now q).0
  unfolding get
  get-SameNil now q = ground (arith, get-SameNil_lists now q q.queue_fresh q.queue_staled)

  get_fresh-SameNil_list :
      (now : ℕ) (q : Queue K S) (fs : List K) → SameNil q (get_fresh_case dec now q fs).0
  get_fresh-SameNil_list now q (x ∷ fs) = get-nil dec now q.metrics x
  get_fresh-SameNil_list now q [] = refl

  get_fresh-SameNil : (now : ℕ) (q : Queue K S) → SameNil q (get_fresh dec now q).0
  unfolding get_fresh
  get_fresh-SameNil now q = ground (arith, get_fresh-SameNil_list now q q.queue_fresh)

  select_send-SameNil :
      (pick : Bool) (q : Queue K S) (e : WaitFor K) → Ensures (SameNil q) (select_send pick q e)
  unfolding select_send
  select_send-SameNil pick q e = ground arith

  add_delayed-SameNil :
      (now : ℕ) (pick : Bool) (q : Queue K S) (item : K) (d : ℤ)
      → Ensures (SameNil q) (add_delayed dec now pick q item d)
  add_delayed-SameNil now pick q item (pos (suc n)) = select_send-SameNil pick q _
  add_delayed-SameNil now pick q item (pos zero) = add-SameNil now q item _
  add_delayed-SameNil now pick q item (negsuc n) = add-SameNil now q item _

  Ensures-SameNil :
      (q r : Queue K S) (o : Run (Queue K S))
      → SameNil q r
      → Ensures (SameNil r) o
      → Ensures (SameNil q) o
  Ensures-SameNil q r (ok t) e s = s ∙ e
  Ensures-SameNil q r (blocked t) e s = s ∙ e
  Ensures-SameNil q r panic e s = tt

  add_counted-SameNil :
      (now : ℕ) (pick : Bool) (q : Queue K S) (item : K) (d : ℤ) (m : Option (Metrics.Metrics K))
      → Metrics.retry q.metrics ≡ m
      → Ensures (SameNil q) (add_counted dec now pick q item d m)
  add_counted-SameNil now pick q item d none e = tt
  add_counted-SameNil now pick q item d (some m) e =
      Ensures-SameNil q (record q { metrics = m })
        (add_delayed dec now pick (record q { metrics = m }) item d) (retry-nil q.metrics m e)
        (add_delayed-SameNil now pick (record q { metrics = m }) item d)

  add_after-SameNil :
      (now : ℕ) (pick : Bool) (q : Queue K S) (item : K) (d : ℤ)
      → Ensures (SameNil q) (add_after dec now pick q item d)
  unfolding add_after
  add_after-SameNil now pick q item d =
      Ensures-if (SameNil q) q.shutting_down (ok q)
        (add_counted dec now pick q item d (Metrics.retry q.metrics)) (λ _. refl)
        (λ _. add_counted-SameNil now pick q item d (Metrics.retry q.metrics) refl)

  select_send-returns :
      (pick : Bool) (q : Queue K S) (e : WaitFor K) → is_panic (select_send pick q e) ≡ false
  unfolding select_send
  select_send-returns pick q e = ground arith

  add_delayed-returns :
      (now : ℕ) (pick : Bool) (q : Queue K S) (item : K) (d : ℤ)
      → is_panic (add_delayed dec now pick q item d) ≡ false
  add_delayed-returns now pick q item (pos (suc n)) = select_send-returns pick q _
  add_delayed-returns now pick q item (pos zero) = refl
  add_delayed-returns now pick q item (negsuc n) = refl

  add_counted_panics :
      (now : ℕ) (pick : Bool) (q : Queue K S) (item : K) (d : ℤ) (m : Option (Metrics.Metrics K))
      → Metrics.retry q.metrics ≡ m
      → is_panic (add_counted dec now pick q item d m) ≡ nil_retries q.metrics
  add_counted_panics now pick q item d none e = sym (nil_of_retry q.metrics e)
  add_counted_panics now pick q item d (some m) e =
      add_delayed-returns now pick (record q { metrics = m }) item d
      ∙ sym (not_nil_of_retry q.metrics m e)

  module _ (limiter : RateLimiter K S) where
    done-SameNil : (now : ℕ) (q : Queue K S) (item : K) → SameNil q (done dec limiter now q item)
    unfolding done
    done-SameNil now q item = ground (arith, done-nil dec now q.metrics item)

    step-SameNil :
        (now : ℕ) (q : Queue K S) (c : Call K) → Ensures (SameNil q) (step dec limiter now q c)
    unfolding step add add_rate_limited forget shut_down update_unfinished_work
    step-SameNil now q (adds item) = add-SameNil now q item true
    step-SameNil now q (adds_ready item) = add-SameNil now q item _
    step-SameNil now q (dones item) = done-SameNil now q item
    step-SameNil now q (forgets item) = refl
    step-SameNil now q gets = get-SameNil now q
    step-SameNil now q gets_fresh = get_fresh-SameNil now q
    step-SameNil now q shuts_down = ground arith
    step-SameNil now q updates = ground (arith, update-nil now q.metrics)
    step-SameNil now q receives = refl
    step-SameNil now q (adds_after pick item d) = add_after-SameNil now pick q item d
    step-SameNil now q (adds_rate_limited pick item) = add_after-SameNil now pick _ item _

    Reach-nil :
        {n : ℕ} {s : S} {name : String} {provider : MetricsProvider} {q : Queue K S}
        → Reach dec limiter n s name provider q
        → nil_retries q.metrics ≡ has_metrics name provider
    unfolding new_named_playboy_queue
    Reach-nil {name} {provider} start = new_metrics-nil K name provider
    Reach-nil (later {q} now c r a (inl e)) = (rw e at (step-SameNil now q c)) ∙ Reach-nil r
    Reach-nil (later {q} now c r a (inr e)) = (rw e at (step-SameNil now q c)) ∙ Reach-nil r

    -- In every reachable state of a queue that is not shut down, `AddAfter` panics exactly if the
    -- queue has a name and the provider is not the no-op value: then the metrics are those of
    -- `defaultMetrics`, whose `retries` no code sets. A queue without a name never panics.
    pub add_after_panics :
        {n : ℕ} {s : S} {name : String} {provider : MetricsProvider} {q : Queue K S}
        → Reach dec limiter n s name provider q
        → q.shutting_down ≡ false
        → (now : ℕ) (pick : Bool) (item : K) (d : ℤ)
        → is_panic (add_after dec now pick q item d) ≡ has_metrics name provider
    unfolding add_after
    add_after_panics {q} r up now pick item d =
        let p = add_counted_panics now pick q item d (Metrics.retry q.metrics) refl in
        simp up (p ∙ Reach-nil r)
