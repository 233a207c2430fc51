-- ===== src/Startup/Leading.antt =====
-- main.go: `main` from `run informers` on, with the callbacks of the leader election and the
-- goroutines of `runErrGroup`, as steps that come in any order. As documented for client-go, the elector
-- calls `OnStartedLeading` in a goroutine once it leads, and `OnStoppedLeading` when `Run` returns.
pub mod Guards
mod Tests
use k8s_controller_the_hard.Prelude.{
  ◌≡◌, Bool, true, false, Option, none, some, List, [], ◌∷◌, ◌++◌, if◌then◌else◌, Run, ok, panic,
}

-- The functions given to `runErrGroup.Go`: `redisController.Run`, `tenantController.Run`, the `select`
-- on the lost leadership, `informers.Start` and `ListenAndServe`.
pub data GroupTask : Type 0 where
  run_redis run_tenant watch_leadership start_informers serve_telemetry : GroupTask

-- What they return an error for.
pub data GroupError : Type 0 where
  lost_leadership start_informers_error serve_telemetry_error : GroupError

-- Where `main` is: in `WaitForCacheSync`, in `elector.Run` as a candidate or as the leader, behind
-- `OnStoppedLeading`, and at its end by a return or by `os.Exit(1)`.
pub data MainPhase : Type 0 where
  syncing electing leading stopping returned exited : MainPhase

pub record MainState : Type 0 where
  pub phase : MainPhase
  pub gained : Bool  -- The goroutine of `OnStartedLeading` is there and has not run.
  pub run_ctx_done : Bool
  pub lost_leader_signal : Bool  -- closed
  pub group : List GroupTask  -- running, the oldest first
  pub group_error : Option GroupError

-- `runErrGroup.Go(f)`
abbrev pub go : GroupTask → MainState → MainState
go f s = record s { group = s.group ++ f ∷ [] }

abbrev start_state : MainState
start_state = record {
  phase = syncing;
  gained = false;
  run_ctx_done = false;
  lost_leader_signal = false;
  group = [];
  group_error = none;
}

-- `main` when it waits for the caches.
unfoldable pub wait_state : MainState
wait_state = go serve_telemetry (go start_informers start_state)

-- The return of `WaitForCacheSync`.
unfoldable pub synced : Bool → MainState → MainState
synced false s = record s { phase = exited }
synced true s = record s { phase = electing }

unfoldable pub on_started_leading : MainState → MainState
on_started_leading s = go watch_leadership (go run_tenant (go run_redis s))

-- `close` panics on a channel that is closed.
unfoldable pub on_stopped_leading : MainState → Run MainState
on_stopped_leading s =
    if s.lost_leader_signal then panic else ok (record s { lost_leader_signal = true })

-- The group keeps its first error.
abbrev pub first_of : Option GroupError → GroupError → GroupError
first_of none e = e
first_of (some first) e = first

-- A function of the group returned; the first error cancels the context.
unfoldable pub end_task : List GroupTask → Option GroupError → MainState → MainState
end_task rest none s = record s { group = rest }
end_task rest (some e) s = record s {
  group = rest;
  run_ctx_done = true;
  group_error = some (first_of s.group_error e);
}

-- Whether a function of the group can return this now. The informers and the server may return at
-- any time.
abbrev pub MayReturn : MainState → GroupTask → Option GroupError → Type 0
MayReturn s run_redis none = s.run_ctx_done ≡ true
MayReturn s run_tenant none = s.run_ctx_done ≡ true
MayReturn s watch_leadership none = s.run_ctx_done ≡ true
MayReturn s watch_leadership (some lost_leadership) = s.lost_leader_signal ≡ true
MayReturn s start_informers none = Unit {0}
MayReturn s start_informers (some start_informers_error) = Unit {0}
MayReturn s serve_telemetry none = Unit {0}
MayReturn s serve_telemetry (some serve_telemetry_error) = Unit {0}
MayReturn s _ _ = ⊥

-- `elector.Run` has not returned.
abbrev pub in_election : MainPhase → Bool
in_election electing = true
in_election leading = true
in_election _ = false

-- The program has not ended.
abbrev pub is_alive : MainPhase → Bool
is_alive returned = false
is_alive exited = false
is_alive _ = true

pub data MainStep : MainState → MainState → Type 0 where
  signalled :
      {s : MainState} → is_alive s.phase ≡ true → MainStep s (record s { run_ctx_done = true })
  syncs : {s : MainState} (b : Bool) → s.phase ≡ syncing → MainStep s (synced b s)
  acquires :
      {s : MainState}
      → s.phase ≡ electing
      → MainStep s (record s { phase = leading; gained = true })
  starts :
      {s : MainState}
      → is_alive s.phase ≡ true
      → s.gained ≡ true
      → MainStep s (on_started_leading (record s { gained = false }))
  loses :
      {s t : MainState}
      → in_election s.phase ≡ true
      → on_stopped_leading s ≡ ok t
      → MainStep s (record t { phase = stopping })
  returns : {s : MainState} → s.phase ≡ stopping → MainStep s (record s { phase = returned })
  ends :
      {s : MainState} (before after : List GroupTask) (f : GroupTask) (e : Option GroupError)
      → is_alive s.phase ≡ true
      → s.group ≡ before ++ f ∷ after
      → MayReturn s f e
      → MainStep s (end_task (before ++ after) e s)

pub data MainReach : MainState → Type 0 where
  waits : MainReach wait_state
  goes : {s t : MainState} → MainReach s → MainStep s t → MainReach t
