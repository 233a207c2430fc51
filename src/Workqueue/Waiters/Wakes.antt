-- ===== src/Workqueue/Waiters/Wakes.antt =====
-- pkg/utils/workqueue/playboyqueue.go: whom the `Signal` of an added item wakes.
use k8s_controller_the_hard.Prelude.{
  ℕ, ◌≡◌, refl, Bool, true, false, Option, some, List, [], ◌∷◌, ◌++◌, ◌∙◌, ap, if◌then◌else◌, arith,
}
use k8s_controller_the_hard.Prelude.Places.{get_elem?}
use k8s_controller_the_hard.Workqueue.Set.{has}
use k8s_controller_the_hard.Workqueue.Queue.{
  Queue, signal, Got, got, shutdown, wait, get_fresh, add_fresh_or_staled,
}
use k8s_controller_the_hard.Workqueue.Queue.Delivery.{
  get-eq_fresh, get-eq_staled, get_fresh-eq_fresh, get_fresh-eq_none,
}
use k8s_controller_the_hard.Workqueue.Waiters.{
  Waiters, remove_at, new_notice, after_call, try, resume,
}

module _ {K S : Type 0} (dec : Discrete K) where
  -- The item is taken, and the others sleep on.
  abbrev pub Taken : K → List Bool → Option (Waiters K S × Got K) → Type 0
  Taken x others r =
      (t : Waiters K S) × (r ≡ some (t, got x)) × (t.asleep ≡ others) × (t.awake ≡ [])

  -- The item waits in the staled queue, and all goroutines sleep.
  abbrev pub Lost : K → List Bool → Option (Waiters K S × Got K) → Type 0
  Lost x others r =
      (t : Waiters K S) × (r ≡ some (t, wait))
      × (Queue.queue_staled t.queue ≡ x ∷ [])
      × (t.asleep ≡ others ++ true ∷ [])
      × (t.awake ≡ [])

  -- From the queue that the item was added to, and the kind of the goroutine that was woken.
  abbrev pub Comes : Bool → Bool → K → List Bool → Option (Waiters K S × Got K) → Type 0
  Comes true g x others r = Taken x others r
  Comes false false x others r = Taken x others r
  Comes false true x others r = Lost x others r

  added :
      (now : ℕ) (q : Queue K S) (x : K) (fresh : Bool)
      → q.shutting_down ≡ false
      → has dec q.dirty x ≡ false
      → has dec q.processing x ≡ false
      → new_notice q (add_fresh_or_staled dec now q x fresh) ≡ some signal
  unfolding add_fresh_or_staled new_notice
  added now q x fresh up d p = ground (arith, up, d, p)

  -- An attempt hands out the item.
  abbrev Hands : K → Queue K S × Got K → Type 0
  Hands x o = (q : Queue K S) × (o ≡ (q, got x))

  try-fresh :
      (now : ℕ) (q : Queue K S) (x : K) (g : Bool)
      → q.queue_fresh ≡ x ∷ []
      → Hands x (try dec now q g)
  try-fresh now q x true f = (_, get_fresh-eq_fresh dec now q x [] f)
  try-fresh now q x false f = (_, get-eq_fresh dec now q x [] f)

  resume-Taken :
      (now : ℕ) (q : Queue K S) (asleep : List Bool) (x : K) (g : Bool)
      → Hands x (try dec now q g)
      → Taken x asleep (resume dec now (record { queue = q; asleep = asleep; awake = g ∷ [] }))
  unfolding resume
  resume-Taken now q asleep x g (r, e) =
      (record { queue = r; asleep = asleep; awake = [] }, rw e refl, refl, refl)

  -- What the queue has of the item that was added.
  added-fresh :
      (now : ℕ) (q : Queue K S) (x : K)
      → q.shutting_down ≡ false
      → has dec q.dirty x ≡ false
      → has dec q.processing x ≡ false
      → q.queue_fresh ≡ []
      → Queue.queue_fresh (add_fresh_or_staled dec now q x true) ≡ x ∷ []
  unfolding add_fresh_or_staled
  added-fresh now q x up d p f = ground (arith, up, d, p, f)

  added-staled :
      (now : ℕ) (q : Queue K S) (x : K)
      → q.shutting_down ≡ false
      → has dec q.dirty x ≡ false
      → has dec q.processing x ≡ false
      → q.queue_fresh ≡ []
      → q.queue_staled ≡ []
      → (Queue.queue_fresh (add_fresh_or_staled dec now q x false) ≡ [])
        × (Queue.queue_staled (add_fresh_or_staled dec now q x false) ≡ x ∷ [])
        × (Queue.shutting_down (add_fresh_or_staled dec now q x false) ≡ false)
  unfolding add_fresh_or_staled
  added-staled now q x up d p f s =
      (ground (arith, up, d, p, f), ground (arith, up, d, p, s), ground (arith, up, d, p))

  resume-Comes :
      (now later : ℕ) (q : Queue K S) (asleep : List Bool) (x : K) (fresh g : Bool)
      → q.shutting_down ≡ false
      → has dec q.dirty x ≡ false
      → has dec q.processing x ≡ false
      → q.queue_fresh ≡ []
      → q.queue_staled ≡ []
      → Comes fresh g x asleep (
          resume dec later (record {
            queue = add_fresh_or_staled dec now q x fresh;
            asleep = asleep;
            awake = g ∷ [];
          }))
  unfolding resume
  resume-Comes now later q asleep x true g up d p f s =
      resume-Taken later (add_fresh_or_staled dec now q x true) asleep x g
        (try-fresh later _ x g (added-fresh now q x up d p f))
  resume-Comes now later q asleep x false false up d p f s =
      let (nf, st, up_still) = added-staled now q x up d p f s in
      resume-Taken later (add_fresh_or_staled dec now q x false) asleep x false
        (_, get-eq_staled dec later _ x [] nf st)
  resume-Comes now later q asleep x false true up d p f s =
      let r = add_fresh_or_staled dec now q x false in
      let (nf, st, up_still) = added-staled now q x up d p f s in
      let e : get_fresh dec later r ≡ (r, wait) =
        get_fresh-eq_none dec later r nf ∙ ap (λ b. (r, if b then shutdown else wait)) up_still in
      (record { queue = r; asleep = asleep ++ true ∷ []; awake = [] }, rw e refl, st, refl, refl)

  woken :
      (now pick : ℕ) (s : Waiters K S) (x : K) (fresh g : Bool)
      → s.awake ≡ []
      → get_elem? s.asleep pick ≡ some g
      → Queue.shutting_down s.queue ≡ false
      → has dec s.queue.dirty x ≡ false
      → has dec s.queue.processing x ≡ false
      → after_call s pick (add_fresh_or_staled dec now s.queue x fresh) ≡ record {
        queue = add_fresh_or_staled dec now s.queue x fresh;
        asleep = remove_at s.asleep pick;
        awake = g ∷ [];
      }
  unfolding after_call
  woken now pick s x fresh g w e up d p = rw (added now s.queue x fresh up d p, e, w) refl

  -- On an open queue with nothing queued and all goroutines asleep, an item that is neither requested
  -- nor in process is added, and one goroutine is woken. If the item was added to the fresh queue, or
  -- the goroutine is in `Get`, it takes the item. But if the item was added to the staled queue and the
  -- goroutine is in `GetFresh`, it goes to sleep again, and the item stands in the queue with all
  -- goroutines asleep.
  pub add-Comes :
      (now later pick : ℕ) (s : Waiters K S) (x : K) (fresh g : Bool)
      → s.awake ≡ []
      → get_elem? s.asleep pick ≡ some g
      → Queue.shutting_down s.queue ≡ false
      → has dec s.queue.dirty x ≡ false
      → has dec s.queue.processing x ≡ false
      → Queue.queue_fresh s.queue ≡ []
      → Queue.queue_staled s.queue ≡ []
      → Comes fresh g x
          (remove_at s.asleep pick)
          (resume dec later (after_call s pick (add_fresh_or_staled dec now s.queue x fresh)))
  add-Comes now later pick s x fresh g w e up d p f st =
      rw (woken now pick s x fresh g w e up d p)
        (resume-Comes now later s.queue (remove_at s.asleep pick) x fresh g up d p f st)
