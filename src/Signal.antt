-- ===== src/Signal.antt =====
-- pkg/utils/signal/signal.go: the handler of shutdown signals, its channel and its goroutine.
pub mod Counts
mod Tests
use k8s_controller_the_hard.Prelude.{
  ℕ, zero, suc, ◌+◌, Bool, true, false, not, ◌&&◌, if◌then◌else◌, ltb, Run, ok, blocked, panic,
}

-- Where the goroutine is: there is none, it waits for the first signal, it cancelled the context and
-- waits for the second, or it ended the program.
pub data Phase : Type 0 where
  absent waiting cancelled exited : Phase

-- The package variables and the goroutine. `pending` is the number of signals in `shutdownHandler`.
pub record SignalState : Type 0 where
  pub handler_closed : Bool  -- `onlyOneSignalHandler` is closed
  pub has_handler : Bool  -- `shutdownHandler` is not nil
  pub pending : ℕ
  pub phase : Phase

unfoldable pub initial_state : SignalState
initial_state = record { handler_closed = false; has_handler = false; pending = 0; phase = absent }

-- `make(chan os.Signal, 2)`
abbrev pub handler_size : ℕ
handler_size = 2

-- `SetupSignalContext`; to close a closed channel panics.
unfoldable pub setup_signal_context : SignalState → Run SignalState
setup_signal_context s =
    if s.handler_closed
    then panic
    else ok (record { handler_closed = true; has_handler = true; pending = 0; phase = waiting })

-- `RequestShutdown`, and what it returns. A signal of the system is sent in the same way.
unfoldable pub request_shutdown : SignalState → SignalState × Bool
request_shutdown s =
    if s.has_handler && ltb s.pending handler_size
    then (record s { pending = suc s.pending }, true)
    else (s, false)

-- The goroutine after a receive.
abbrev pub advance : Phase → Phase
advance absent = absent
advance waiting = cancelled
advance cancelled = exited
advance exited = exited

-- One receive of the goroutine, where it waits for one.
abbrev pub receive_signal : SignalState → ℕ → Phase → Run SignalState
receive_signal s n absent = blocked s
receive_signal s n exited = blocked s
receive_signal s zero p = blocked s
receive_signal s (suc n) p = ok (record s { pending = n; phase = advance p })

unfoldable pub goroutine : SignalState → Run SignalState
goroutine s = receive_signal s s.pending s.phase
