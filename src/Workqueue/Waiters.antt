-- ===== src/Workqueue/Waiters.antt =====
-- pkg/utils/workqueue/playboyqueue.go: the goroutines in the `cond.Wait` of `Get` and `GetFresh`. They
-- share one condition variable, of which `Signal` wakes one goroutine, whichever the runtime picks,
-- and `Broadcast` all; a goroutine that is woken tries again.
pub mod Wakes
mod Tests
use k8s_controller_the_hard.Prelude.{
  ℕ, zero, suc, Bool, true, false, Option, none, some, List, [], ◌∷◌, ◌++◌, ◌==◌, if◌then◌else◌,
  length,
}
use k8s_controller_the_hard.Prelude.Places.{get_elem?}
use k8s_controller_the_hard.Workqueue.Queue.{
  Queue, Notify, signal, broadcast, Got, got, shutdown, wait, get, get_fresh,
}

-- The queue, and the goroutines that sleep and that are woken; true for `GetFresh`.
pub record Waiters (K S : Type 0) : Type 0 where
  pub queue : Queue K S
  pub asleep : List Bool
  pub awake : List Bool

module _ {A : Type 0} where
  unfoldable pub remove_at : List A → ℕ → List A
  remove_at [] i = []
  remove_at (x ∷ xs) zero = xs
  remove_at (x ∷ xs) (suc i) = x ∷ remove_at xs i

-- The call of a method on the condition variable that is in the log of `r` and not in that of `q`.
-- A method makes one at most.
abbrev pub head_notice : List Notify → Option Notify
head_notice [] = none
head_notice (n ∷ ns) = some n

module _ {K S : Type 0} where
  unfoldable pub new_notice : Queue K S → Queue K S → Option Notify
  new_notice q r = if length r.cond == length q.cond then none else head_notice r.cond

  -- The goroutine at the place that the runtime picks is woken.
  abbrev pub wake_one : Waiters K S → ℕ → Option Bool → Waiters K S
  wake_one s pick none = s
  wake_one s pick (some g) = record s {
    asleep = remove_at s.asleep pick;
    awake = s.awake ++ g ∷ [];
  }

  abbrev pub deliver : Waiters K S → ℕ → Option Notify → Waiters K S
  deliver s pick none = s
  deliver s pick (some signal) = wake_one s pick (get_elem? s.asleep pick)
  deliver s pick (some broadcast) = record s { asleep = []; awake = s.awake ++ s.asleep }

  -- A call of a method left the queue `r`.
  unfoldable pub after_call : Waiters K S → ℕ → Queue K S → Waiters K S
  after_call s pick r = deliver (record s { queue = r }) pick (new_notice s.queue r)

  -- What an attempt of a goroutine comes to: it sleeps again, or its call returns.
  abbrev pub after_try : Waiters K S → Bool → Queue K S × Got K → Waiters K S × Got K
  after_try s g (q, wait) = (record s { queue = q; asleep = s.asleep ++ g ∷ [] }, wait)
  after_try s g (q, shutdown) = (record s { queue = q }, shutdown)
  after_try s g (q, got x) = (record s { queue = q }, got x)

module _ {K S : Type 0} (dec : Discrete K) where
  -- One round of the `for` loop of `GetFresh` or of `Get`.
  abbrev pub try : ℕ → Queue K S → Bool → Queue K S × Got K
  try now q true = get_fresh dec now q
  try now q false = get dec now q

  -- The first goroutine that is awake tries.
  abbrev pub resume_first : ℕ → Waiters K S → List Bool → Option (Waiters K S × Got K)
  resume_first now s [] = none
  resume_first now s (g ∷ gs) = some (after_try (record s { awake = gs }) g (try now s.queue g))

  unfoldable pub resume : ℕ → Waiters K S → Option (Waiters K S × Got K)
  resume now s = resume_first now s s.awake
