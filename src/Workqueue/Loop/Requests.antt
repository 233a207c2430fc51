-- ===== src/Workqueue/Loop/Requests.antt =====
-- pkg/utils/workqueue/playboyqueue.go: an item that waits is requested by the loop in time.
use k8s_controller_the_hard.Prelude.{
  ℕ, ◌≤◌, ◌≡◌, refl, ◌∙◌, ◌⊎◌, inl, inr, Bool, true, false, if◌then◌else◌, some, List, [], ◌∷◌,
  ◌++◌, arith,
}
use k8s_controller_the_hard.Prelude.GoMap
use k8s_controller_the_hard.Workqueue.Set.{has}
use k8s_controller_the_hard.Workqueue.Queue.{Queue}
use k8s_controller_the_hard.Workqueue.Waiting.{WaitingState, receive_all}
use k8s_controller_the_hard.Workqueue.Waiting.Entries.{entry_heap}
use k8s_controller_the_hard.Workqueue.Loop.{Wake, LoopRound, ready_part, select_part, loop_round}
use k8s_controller_the_hard.Workqueue.Loop.Linked.{Loop, IsLinked}
use k8s_controller_the_hard.Workqueue.Loop.Served.{Advances, receive_all-Advances, ready_part-cases}

module _ {K : Type 0} where
  -- The rounds in which the loop goes on: the queue is not shut down, and `stopCh` is not closed.
  abbrev pub GoesOn : Wake K → Type 0
  GoesOn Wake.stopped = ⊥
  GoesOn Wake.heartbeat = Unit {0}
  GoesOn Wake.timer = Unit {0}
  GoesOn (Wake.received at e rest) = Unit {0}

module _ {K S : Type 0} where
  abbrev pub Runs : List (LoopRound K S) → Type 0
  Runs [] = Unit {0}
  Runs (r ∷ rs) = (Queue.shutting_down r.found ≡ false) × GoesOn r.wake × Runs rs

if_false : {A : Type 0} (x y : A) (b : Bool) → b ≡ false → (if b then x else y) ≡ y
if_false x y true h = cc
if_false x y false h = refl

module _ {K S : Type 0} (dec : Discrete K) where
  -- One of the rounds has the item requested by its loop over the ready entries.
  abbrev pub Requests : K → Loop K S → List (LoopRound K S) → Type 0
  Requests y s [] = ⊥
  Requests y s (r ∷ rs) =
      (has dec (Queue.dirty (WaitingState.queue (ready_part dec (entry_heap dec) r s))) y ≡ true)
      ⊎ ((t : Loop K S) × (loop_round dec (entry_heap dec) r s ≡ some t) × Requests y t rs)

  select-Advances :
      (w : Wake K) (s : Loop K S)
      → IsLinked dec s
      → GoesOn w
      → (t : Loop K S) × (select_part dec (entry_heap dec) w s ≡ some t) × Advances dec s t
  unfolding receive_all
  select-Advances Wake.stopped s a g = absurd g
  select-Advances Wake.heartbeat s a g =
      (s, refl, record { linked = a; times = λ y u h. (u, h, omega arith) })
  select-Advances Wake.timer s a g =
      (s, refl, record { linked = a; times = λ y u h. (u, h, omega arith) })
  select-Advances (Wake.received at e rest) s a g =
      (_, refl, receive_all-Advances dec s ((at, e) ∷ rest) a)

  round-some :
      (r : LoopRound K S) (s next : Loop K S)
      → Queue.shutting_down r.found ≡ false
      → select_part dec (entry_heap dec) r.wake (ready_part dec (entry_heap dec) r s) ≡ some next
      → loop_round dec (entry_heap dec) r s ≡ some next
  unfolding loop_round
  round-some r s next up e = if_false _ _ _ up ∙ e

  -- An item that waits is requested in time: from a state in which the queue of entries and the map of
  -- known ones agree, with a known time for the item, in rounds of the loop that do not end it and of
  -- which the last starts at the time or later, the item is requested by one of them. In each round
  -- the queue is as the other goroutines have left it, and the loop may be woken by anything but
  -- `stopCh`, with any entries from the channel.
  pub loop-Requests :
      (y : K) (t : ℕ) (s : Loop K S) (rs : List (LoopRound K S)) (last : LoopRound K S)
      → IsLinked dec s
      → Runs (rs ++ last ∷ [])
      → GoMap.get dec s.known y ≡ some t
      → t ≤ last.now
      → Requests y s (rs ++ last ∷ [])
  loop-Requests y t s [] last a (up, g, rest) h due =
      elim (ready_part-cases dec last s y t a up h).1 [
        | inl (late, k) ↦ absurd (omega (arith, late, due))
        | inr d ↦ inl d
      ]
  loop-Requests y t s (r ∷ rs) last a (up, g, rest) h due =
      let (linked, cases) = ready_part-cases dec r s y t a up h in
      elim cases [
        | inr d ↦ inl d
        | inl (late, k) ↦
            let (next, e, adv) =
              select-Advances r.wake (ready_part dec (entry_heap dec) r s) linked g in
            let (v, j, l) = adv.times y t k in
            inr (
              next,
              round-some r s next up e,
              loop-Requests y v next rs last adv.linked rest j (omega (arith, l, due)),
            )
      ]
