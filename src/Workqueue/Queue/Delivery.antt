-- ===== src/Workqueue/Queue/Delivery.antt =====
-- pkg/utils/workqueue/playboyqueue.go: what `Get` and `GetFresh` hand out, and when they wait.
use k8s_controller_the_hard.Prelude.{
  ℕ, ◌≡◌, refl, ite, ◌⊎◌, inl, inr, Bool, true, false, List, [], ◌∷◌, arith, if◌then◌else◌,
}
use k8s_controller_the_hard.Workqueue.Set.{has, has-insert, has-delete}
use k8s_controller_the_hard.Workqueue.Queue.Placement.{pending}
use k8s_controller_the_hard.Workqueue.Queue.Invariant.{IsValid}
use k8s_controller_the_hard.Workqueue.Queue.{
  Queue, Got, got, shutdown, wait, get_case, get, get_fresh,
}

module _ {K S : Type 0} (dec : Discrete K) where
  -- The call handed out `x`: it was requested and with no worker, and now is with one.
  pub record HandsOut (q : Queue K S) (x : K) (r : Queue K S) : Type 0 where
    pub was_requested : has dec q.dirty x ≡ true
    pub was_idle : has dec q.processing x ≡ false
    pub requested : (y : K) → has dec r.dirty y ≡ ite (dec x y) false (has dec q.dirty y)
    pub in_process : (y : K) → has dec r.processing y ≡ ite (dec x y) true (has dec q.processing y)
    pub closed : r.shutting_down ≡ q.shutting_down

  -- `x` came from the head of the fresh queue.
  abbrev pub FromFresh : Queue K S → K → Queue K S → Type 0
  FromFresh q x r = (q.queue_fresh ≡ x ∷ r.queue_fresh) × (r.queue_staled ≡ q.queue_staled)

  -- `x` came from the head of the staled queue, with the fresh queue empty.
  abbrev pub FromStaled : Queue K S → K → Queue K S → Type 0
  FromStaled q x r =
      (q.queue_fresh ≡ []) × (r.queue_fresh ≡ []) × (q.queue_staled ≡ x ∷ r.queue_staled)

  abbrev pub NonePending : Queue K S → Type 0
  NonePending q = (x : K) → pending dec q x ≡ false

  abbrev pub Delivers : Queue K S → Queue K S × Got K → Type 0
  Delivers q (r, got x) = HandsOut q x r × (FromFresh q x r ⊎ FromStaled q x r)
  Delivers q (r, shutdown) = (r ≡ q) × (q.shutting_down ≡ true) × NonePending q
  Delivers q (r, wait) = (r ≡ q) × (q.shutting_down ≡ false) × NonePending q

  none_pending :
      (q : Queue K S) → IsValid dec q → q.queue_fresh ≡ [] → q.queue_staled ≡ [] → NonePending q
  none_pending q v f s x = ground (arith, v.placed x)

  pub fresh-HandsOut :
      (now : ℕ) (q : Queue K S) (x : K) (fs ss : List K)
      → IsValid dec q
      → q.queue_fresh ≡ x ∷ fs
      → HandsOut q x (get_case dec now q (x ∷ fs) ss).0
  fresh-HandsOut now q x fs ss v f = record {
    was_requested = ground (arith, v.placed x);
    was_idle = ground (arith, v.placed x);
    requested = has-delete dec q.dirty x;
    in_process = has-insert dec q.processing x;
    closed = refl;
  }

  pub staled-HandsOut :
      (now : ℕ) (q : Queue K S) (x : K) (ss : List K)
      → IsValid dec q
      → q.queue_staled ≡ x ∷ ss
      → HandsOut q x (get_case dec now q [] (x ∷ ss)).0
  staled-HandsOut now q x ss v s = record {
    was_requested = ground (arith, v.placed x);
    was_idle = ground (arith, v.placed x);
    requested = has-delete dec q.dirty x;
    in_process = has-insert dec q.processing x;
    closed = refl;
  }

  module _ (now : ℕ) (q : Queue K S) where
    pub get-eq_fresh :
        (x : K) (fs : List K)
        → q.queue_fresh ≡ x ∷ fs
        → get dec now q ≡ get_case dec now q (x ∷ fs) q.queue_staled
    unfolding get
    get-eq_fresh x fs f = ground arith

    pub get-eq_staled :
        (x : K) (ss : List K)
        → q.queue_fresh ≡ []
        → q.queue_staled ≡ x ∷ ss
        → get dec now q ≡ get_case dec now q [] (x ∷ ss)
    unfolding get
    get-eq_staled x ss f s = ground arith

    pub get-eq_none :
        q.queue_fresh ≡ []
        → q.queue_staled ≡ []
        → get dec now q ≡ (q, if q.shutting_down then shutdown else wait)
    unfolding get
    get-eq_none f s = ground arith

    pub get_fresh-eq_fresh :
        (x : K) (fs : List K)
        → q.queue_fresh ≡ x ∷ fs
        → get_fresh dec now q ≡ get_case dec now q (x ∷ fs) q.queue_staled
    unfolding get_fresh
    get_fresh-eq_fresh x fs f = ground arith

    pub get_fresh-eq_none :
        q.queue_fresh ≡ [] → get_fresh dec now q ≡ (q, if q.shutting_down then shutdown else wait)
    unfolding get_fresh
    get_fresh-eq_none f = ground arith

    -- The two queues as variables, so that clauses can match on them.
    get-Delivers_lists :
        IsValid dec q
        → (fs ss : List K) → q.queue_fresh ≡ fs
        → q.queue_staled ≡ ss
        → Delivers q (get dec now q)
    get-Delivers_lists v (x ∷ fs) ss f s =
        rw (get-eq_fresh x fs f) (fresh-HandsOut now q x fs q.queue_staled v f, inl (f, refl))
    get-Delivers_lists v [] (x ∷ ss) f s =
        rw (get-eq_staled x ss f s) (staled-HandsOut now q x ss v s, inr (f, f, s))
    get-Delivers_lists v [] [] f s = rw (get-eq_none f s) (idle q.shutting_down refl)
      where
        idle : (b : Bool) → q.shutting_down ≡ b → Delivers q (q, if b then shutdown else wait)
        idle true e = (refl, e, none_pending q v f s)
        idle false e = (refl, e, none_pending q v f s)

    -- `Get` on a valid queue. It hands out an item that was requested and not in process, and
    -- marks exactly this item as in process and no longer requested; it takes the head of the fresh
    -- queue, and the head of the staled queue only while the fresh queue is empty. It waits only
    -- while no item at all is pending and no shutdown has begun, and reports a shutdown only when
    -- one has begun and no item is pending; both leave the queue as it was.
    pub get-Delivers : IsValid dec q → Delivers q (get dec now q)
    get-Delivers v = get-Delivers_lists v q.queue_fresh q.queue_staled refl refl

  -- What `GetFresh` comes to: as `Get`, but the staled queue is left alone.
  abbrev pub DeliversFresh : Queue K S → Queue K S × Got K → Type 0
  DeliversFresh q (r, got x) = HandsOut q x r × FromFresh q x r
  DeliversFresh q (r, shutdown) = (r ≡ q) × (q.shutting_down ≡ true) × (q.queue_fresh ≡ [])
  DeliversFresh q (r, wait) = (r ≡ q) × (q.shutting_down ≡ false) × (q.queue_fresh ≡ [])

  module _ (now : ℕ) (q : Queue K S) where
    get_fresh-Delivers_list :
        IsValid dec q → (fs : List K) → q.queue_fresh ≡ fs → DeliversFresh q (get_fresh dec now q)
    get_fresh-Delivers_list v (x ∷ fs) f =
        rw (get_fresh-eq_fresh now q x fs f)
          (fresh-HandsOut now q x fs q.queue_staled v f, (f, refl))
    get_fresh-Delivers_list v [] f = rw (get_fresh-eq_none now q f) (idle q.shutting_down refl)
      where
        idle : (b : Bool) → q.shutting_down ≡ b → DeliversFresh q (q, if b then shutdown else wait)
        idle true e = (refl, e, f)
        idle false e = (refl, e, f)

    -- `GetFresh` on a valid queue. It hands out the head of the fresh queue, which was requested
    -- and not in process, and never an item of the staled queue; with an empty fresh queue it waits,
    -- or reports the shutdown if one has begun, and leaves the queue as it was.
    pub get_fresh-Delivers : IsValid dec q → DeliversFresh q (get_fresh dec now q)
    get_fresh-Delivers v = get_fresh-Delivers_list v q.queue_fresh refl
