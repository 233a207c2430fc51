-- ===== src/Workqueue/Known/Agrees.antt =====
-- pkg/utils/workqueue: the queue of waiting entries and the map of the known ones agree, and what is
-- known is a map from each waiting item to its time.
use k8s_controller_the_hard.Prelude.Places.{get_elem?, set_elem}
use k8s_controller_the_hard.Prelude.{
  ℕ, ◌+◌, ◌≤◌, ◌<◌, ◌≡◌, refl, sym, ap, ◌∙◌, inl, inr, true, Option, none, some, List, ltb, ite,
  arith, Bool-cases,
}
use k8s_controller_the_hard.Prelude.Int.{ℤ, pos}
use k8s_controller_the_hard.Prelude.GoMap
use k8s_controller_the_hard.Prelude.GoMap.{GoMap}
use k8s_controller_the_hard.Workqueue.PriorityQueue.{Entry, heap_fix}
use k8s_controller_the_hard.Workqueue.PriorityQueue.Places.{weight, weigh}
use k8s_controller_the_hard.Workqueue.PriorityQueue.Calls.{
  IsValid, Keeps, push-Keeps, fix-Keeps, at_time,
}
use k8s_controller_the_hard.Workqueue.Waiting.Received.{earliest}
use k8s_controller_the_hard.Workqueue.Known.{
  Known, fix_at, set_time, insert_existing, insert_waiting,
}
use k8s_controller_the_hard.Workqueue.Known.Weights.{
  only, known_weight, known_time, find_place-some, replaced_weight, ite_same,
}

module _ {K : Type 0} where
  fix_at-Keeps :
      (W : (K → ℕ → ℕ) → ℕ → Type 0) (pq : List (Entry K)) (i : ℕ) (z : ℤ)
      → z ≡ pos i
      → Keeps W (heap_fix pq i)
      → Keeps W (fix_at pq z)
  fix_at-Keeps W pq i z e k = rw e k

  pub set_time-Keeps :
      (pq : List (Entry K)) (i t : ℕ) (e : Entry K)
      → IsValid pq
      → get_elem? pq i ≡ some e
      → Keeps (λ w n. n + weight w e ≡ weigh w pq + weight w (at_time e t)) (set_time pq i t)
  unfolding set_time
  set_time-Keeps pq i t e v h = rw h (
      fix_at-Keeps (λ w n. n + weight w e ≡ weigh w pq + weight w (at_time e t))
        (set_elem pq i (at_time e t)) i e.index (v.indexed i e h) (fix-Keeps pq i t e v h))

module _ {K : Type 0} (dec : Discrete K) where
  -- The queue is valid, and each item weighs what its known time does: it has one entry, of this
  -- time, or none if it is not known.
  pub record Agrees (q : Known K) : Type 0 where
    pub valid : IsValid q.entries
    pub same :
        (x : K) (w : ℕ → ℕ)
        → weigh (only dec x w) q.entries ≡ known_weight w (GoMap.get dec q.times x)

  -- After the insertion the item has the earlier of its times, and the other items theirs.
  abbrev pub Inserts : Known K → Entry K → Option (Known K) → Type 0
  Inserts q e r =
      (s : Known K) × (r ≡ some s)
      × Agrees s
      × ((y : K)
          → GoMap.get dec s.times y
            ≡ ite (dec e.entry_data y)
                (some (earliest (GoMap.get dec q.times e.entry_data) e.ready_at))
                (GoMap.get dec q.times y))

  pub push-Agrees :
      (q : Known K) (e : Entry K) (s : List (Entry K))
      → Agrees q
      → GoMap.get dec q.times e.entry_data ≡ none
      → IsValid s
      → ((w : K → ℕ → ℕ) → weigh w s ≡ weight w e + weigh w q.entries)
      → Agrees (record { entries = s; times = GoMap.put dec q.times e.entry_data e.ready_at })
  push-Agrees q e s a h v ws = record {
    valid = v;
    same = λ x w. rw (GoMap.get-put dec q.times e.entry_data x e.ready_at) (
        replaced_weight dec q.times e.entry_data x (some e.ready_at) w _ _ (dec e.entry_data x)
          (rw h (omega (arith, ws (only dec x w), ite_same (dec e.entry_data x) 0))) (a.same x w));
  }

  push-Inserts :
      (q : Known K) (e : Entry K)
      → Agrees q
      → GoMap.get dec q.times e.entry_data ≡ none
      → Inserts q e (insert_existing dec q e none)
  push-Inserts q e a h =
      let (s, r, v, ws) = push-Keeps q.entries e a.valid in
      (
        record q { entries = s; times = GoMap.put dec q.times e.entry_data e.ready_at },
        rw r refl,
        push-Agrees q e s a h v ws,
        λ y. rw h (GoMap.get-put dec q.times e.entry_data y e.ready_at),
      )

  pub lower-Agrees :
      (q : Known K) (e o : Entry K) (s : List (Entry K))
      → Agrees q
      → GoMap.get dec q.times e.entry_data ≡ some o.ready_at
      → o.entry_data ≡ e.entry_data
      → IsValid s
      → ((w : K → ℕ → ℕ)
          → weigh w s + weight w o ≡ weigh w q.entries + weight w (at_time o e.ready_at))
      → Agrees (record { entries = s; times = GoMap.put dec q.times e.entry_data e.ready_at })
  lower-Agrees q e o s a h p v ws = record {
    valid = v;
    same = λ x w. rw (GoMap.get-put dec q.times e.entry_data x e.ready_at) (
        replaced_weight dec q.times e.entry_data x (some e.ready_at) w _ _ (dec e.entry_data x)
          (rw h (rw p at (ws (only dec x w)))) (a.same x w));
  }

  lower-Inserts :
      (q : Known K) (e : Entry K) (old : ℕ)
      → Agrees q
      → GoMap.get dec q.times e.entry_data ≡ some old
      → e.ready_at < old
      → Inserts q e (insert_existing dec q e (some old))
  lower-Inserts q e old a h l =
      let (i, o, f, g, p) =
        find_place-some dec q.entries e.entry_data (λ t. 1)
          (omega (arith, a.same e.entry_data (λ t. 1), ap (known_weight (λ t. 1)) h)) in
      let (s, r, v, ws) = set_time-Keeps q.entries i e.ready_at o a.valid g in
      let sooner : ltb e.ready_at old ≡ true = ground (arith, l) in
      let known : GoMap.get dec q.times e.entry_data ≡ some o.ready_at = rw p at (
        known_time dec q.entries i o (GoMap.get dec q.times o.entry_data) (a.same o.entry_data)
          g) in
      (
        record { entries = s; times = GoMap.put dec q.times e.entry_data e.ready_at },
        rw (sooner, f, r) refl,
        lower-Agrees q e o s a known p v ws,
        λ y. rw h (ground (arith, sooner, GoMap.get-put dec q.times e.entry_data y e.ready_at)),
      )

  kept_time :
      (times : GoMap K ℕ) (k y : K) (old t : ℕ) (d : Dec (k ≡ y))
      → GoMap.get dec times k ≡ some old
      → old ≤ t
      → GoMap.get dec times y
        ≡ ite d (some (earliest (GoMap.get dec times k) t)) (GoMap.get dec times y)
  kept_time times k y old t (yes p) h l =
      let e : earliest (some old) t ≡ old = ground (arith, l) in
      sym (ap (λ z. GoMap.get dec times z) p) ∙ h ∙ ap some (sym (ap (λ o. earliest o t) h ∙ e))
  kept_time times k y old t (no n) h l = refl

  existing-Inserts :
      (q : Known K) (e : Entry K) (o : Option ℕ)
      → Agrees q
      → GoMap.get dec q.times e.entry_data ≡ o
      → Inserts q e (insert_existing dec q e o)
  existing-Inserts q e none a h = push-Inserts q e a h
  existing-Inserts q e (some old) a h = elim (Bool-cases (ltb e.ready_at old)) [
    | inl sooner ↦ lower-Inserts q e old a h (ground (arith, sooner))
    | inr later ↦ rw later (
      q,
      refl,
      a,
      λ y.
          kept_time q.times e.entry_data y old e.ready_at (dec e.entry_data y) h
            (ground (arith, later)),
    )
  ]

  -- `insert` of an entry in a queue that agrees with the map of the known entries finds its entry and
  -- all its indices, and returns a queue and a map that agree: each known item has one entry, of its
  -- known time, and no other item has one. The item then has the earlier of its old and its new time,
  -- and the others have theirs.
  pub insert_waiting-Inserts :
      (q : Known K) (e : Entry K) → Agrees q → Inserts q e (insert_waiting dec q e)
  unfolding insert_waiting
  insert_waiting-Inserts q e a = existing-Inserts q e (GoMap.get dec q.times e.entry_data) a refl
