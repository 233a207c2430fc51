-- ===== src/Startup/Leading/Guards.antt =====
-- main.go: what holds of the leader election and the group of goroutines in every state of `main`.
use k8s_controller_the_hard.Prelude.{
  ℕ, ◌+◌, ◌≤◌, ◌≡◌, refl, sym, ap, ◌∙◌, subst, Run, Bool, true, false, Option, none, some, List, [],
  ◌∷◌, ◌++◌, ok, arith,
}
use k8s_controller_the_hard.Startup.Leading.{
  GroupTask, run_redis, run_tenant, watch_leadership, GroupError, MainPhase, syncing, electing,
  leading, stopping, returned, exited, MainState, wait_state, synced, on_started_leading,
  on_stopped_leading, end_task, in_election, MainStep, signalled, syncs, acquires, starts, loses,
  returns, ends, MainReach, waits, goes,
}

abbrev pub bit : Bool → ℕ
bit false = 0
bit true = 1

abbrev pub occurrences : (GroupTask → Bool) → List GroupTask → ℕ
occurrences p [] = 0
occurrences p (f ∷ fs) = bit (p f) + occurrences p fs

occurrences-append :
    (p : GroupTask → Bool) (fs gs : List GroupTask)
    → occurrences p (fs ++ gs) ≡ occurrences p fs + occurrences p gs
occurrences-append p [] gs = omega arith
occurrences-append p (f ∷ fs) gs = let ih = occurrences-append p fs gs in omega arith

abbrev pub is_redis : GroupTask → Bool
is_redis run_redis = true
is_redis _ = false

abbrev pub is_tenant : GroupTask → Bool
is_tenant run_tenant = true
is_tenant _ = false

abbrev pub is_watch : GroupTask → Bool
is_watch watch_leadership = true
is_watch _ = false

-- How often a function for the leader may run: not before `main` leads, and then once.
abbrev pub leader_runs : MainPhase → ℕ
leader_runs syncing = 0
leader_runs electing = 0
leader_runs _ = 1

-- `elector.Run` is behind.
abbrev pub is_over : MainPhase → Bool
is_over stopping = true
is_over returned = true
is_over _ = false

-- A group without an error, or a context that is done.
abbrev pub is_cancelled_on_error : MainState → Bool
is_cancelled_on_error s = elim s.group_error [ none ↦ true | some e ↦ s.run_ctx_done ]

-- The runs of a function for the leader, with one more if its start is ahead.
abbrev pub runs_of : (GroupTask → Bool) → MainState → ℕ
runs_of p s = occurrences p s.group + bit s.gained

pub record IsGuarded (s : MainState) : Type 0 where
  pub redis : runs_of is_redis s ≤ leader_runs s.phase
  pub tenant : runs_of is_tenant s ≤ leader_runs s.phase
  pub watch : runs_of is_watch s ≤ leader_runs s.phase
  pub signal : s.lost_leader_signal ≡ is_over s.phase
  pub error : is_cancelled_on_error s ≡ true

module _ (p : GroupTask → Bool)
    (once : bit (p run_redis) + (bit (p run_tenant) + bit (p watch_leadership)) ≡ 1) where
  runs_of-started :
      (s : MainState)
      → s.gained ≡ true
      → runs_of p (on_started_leading (record s { gained = false })) ≡ runs_of p s
  unfolding on_started_leading
  runs_of-started s g =
      let r = occurrences-append p s.group (run_redis ∷ []) in
      let t = occurrences-append p (s.group ++ run_redis ∷ []) (run_tenant ∷ []) in
      let w =
        occurrences-append p ((s.group ++ run_redis ∷ []) ++ run_tenant ∷ [])
          (watch_leadership ∷ []) in
      let b = ap bit g in omega arith

runs_of-ended :
    (p : GroupTask → Bool) (s : MainState) (before after : List GroupTask) (f : GroupTask)
    (e : Option GroupError)
    → s.group ≡ before ++ f ∷ after
    → runs_of p (end_task (before ++ after) e s) ≤ runs_of p s
unfolding end_task
runs_of-ended p s before after f none eq =
    let b = occurrences-append p before after in
    let g = occurrences-append p before (f ∷ after) in let o = ap (occurrences p) eq in omega arith
runs_of-ended p s before after f (some e) eq =
    let b = occurrences-append p before after in
    let g = occurrences-append p before (f ∷ after) in let o = ap (occurrences p) eq in omega arith

wait_state-IsGuarded : IsGuarded wait_state
unfolding wait_state
wait_state-IsGuarded = record {
  redis = omega arith;
  tenant = omega arith;
  watch = omega arith;
  signal = refl;
  error = refl;
}

error-done : (e : Option GroupError) → elim e [ none ↦ true | some _ ↦ true ] ≡ true
error-done none = refl
error-done (some _) = refl

leader_runs_le : (m : MainPhase) → leader_runs m ≤ 1
leader_runs_le syncing = omega arith
leader_runs_le electing = omega arith
leader_runs_le leading = omega arith
leader_runs_le stopping = omega arith
leader_runs_le returned = omega arith
leader_runs_le exited = omega arith

in_election_open : (m : MainPhase) → in_election m ≡ true → is_over m ≡ false
in_election_open syncing e = refl
in_election_open electing e = refl
in_election_open leading e = refl
in_election_open stopping e = cc
in_election_open returned e = cc
in_election_open exited e = refl

-- The channel is open while `elector.Run` has not returned, so that `close` does not panic.
pub closes_once :
    (s : MainState)
    → s.lost_leader_signal ≡ is_over s.phase
    → in_election s.phase ≡ true
    → on_stopped_leading s ≡ ok (record s { lost_leader_signal = true })
unfolding on_stopped_leading
closes_once s g a = rw (g, in_election_open s.phase a) refl

state_or : MainState → Run MainState → MainState
state_or s (ok t) = t
state_or s _ = s

closed_state :
    (s t : MainState)
    → s.lost_leader_signal ≡ is_over s.phase
    → in_election s.phase ≡ true
    → on_stopped_leading s ≡ ok t
    → record s { lost_leader_signal = true } ≡ t
unfolding state_or
closed_state s t g a e = ap (state_or s) (sym (closes_once s g a) ∙ e)

step-runs :
    (p : GroupTask → Bool) {s t : MainState}
    → bit (p run_redis) + (bit (p run_tenant) + bit (p watch_leadership)) ≡ 1
    → s.lost_leader_signal ≡ is_over s.phase
    → MainStep s t
    → runs_of p s ≤ leader_runs s.phase
    → runs_of p t ≤ leader_runs t.phase
unfolding synced on_started_leading end_task
step-runs p once g (signalled a) h = h
step-runs p once g (syncs false e) h = let n = ap leader_runs e in omega arith
step-runs p once g (syncs true e) h = let n = ap leader_runs e in omega arith
step-runs p once g (acquires e) h = let n = ap leader_runs e in omega arith
step-runs p {s} once g (starts a e) h = let r = runs_of-started p once s e in omega arith
step-runs p {s} once g (loses {t} a e) h =
    let n = leader_runs_le s.phase in
    subst (λ v. runs_of p v ≤ 1) (closed_state s t g a e) (omega arith)
step-runs p {s} once g (returns e) h = let n = leader_runs_le s.phase in omega arith
step-runs p {s} once g (ends before after f none a eq r) h =
    let n = runs_of-ended p s before after f none eq in omega arith
step-runs p {s} once g (ends before after f (some e) a eq r) h =
    let n = runs_of-ended p s before after f (some e) eq in omega arith

step-signal :
    {s t : MainState}
    → MainStep s t
    → s.lost_leader_signal ≡ is_over s.phase
    → t.lost_leader_signal ≡ is_over t.phase
unfolding synced on_started_leading end_task
step-signal (signalled a) g = g
step-signal (syncs false e) g = g ∙ ap is_over e
step-signal (syncs true e) g = g ∙ ap is_over e
step-signal (acquires e) g = g ∙ ap is_over e
step-signal (starts a e) g = g
step-signal {s} (loses {t} a e) g =
    subst (λ v. v.lost_leader_signal ≡ true) (closed_state s t g a e) refl
step-signal (returns e) g = g ∙ ap is_over e
step-signal (ends before after f none a eq r) g = g
step-signal (ends before after f (some e) a eq r) g = g

step-error :
    {s t : MainState}
    → s.lost_leader_signal ≡ is_over s.phase
    → MainStep s t
    → is_cancelled_on_error s ≡ true
    → is_cancelled_on_error t ≡ true
unfolding synced on_started_leading end_task
step-error {s} g (signalled a) h = error-done s.group_error
step-error g (syncs false e) h = h
step-error g (syncs true e) h = h
step-error g (acquires e) h = h
step-error g (starts a e) h = h
step-error {s} g (loses {t} a e) h =
    subst (λ v. is_cancelled_on_error v ≡ true) (closed_state s t g a e) h
step-error g (returns e) h = h
step-error g (ends before after f none a eq r) h = h
step-error g (ends before after f (some e) a eq r) h = refl

-- In every state that `main` reaches, the `Run` of either controller and the watch of the leadership
-- are in the group at most once, and not at all while `main` waits for the caches or is a candidate;
-- the channel of the lost leadership is closed exactly from the return of `elector.Run` to the end
-- of `main`; and with an error in the group the context is done.
pub Reach-IsGuarded : {s : MainState} → MainReach s → IsGuarded s
Reach-IsGuarded waits = wait_state-IsGuarded
Reach-IsGuarded (goes before step) =
    let g = Reach-IsGuarded before in
    record {
      redis = step-runs is_redis refl g.signal step g.redis;
      tenant = step-runs is_tenant refl g.signal step g.tenant;
      watch = step-runs is_watch refl g.signal step g.watch;
      signal = step-signal step g.signal;
      error = step-error g.signal step g.error;
    }
