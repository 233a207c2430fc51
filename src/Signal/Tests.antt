-- ===== src/Signal/Tests.antt =====
-- The handler of shutdown signals: the theorem at a concrete state.
use k8s_controller_the_hard.Prelude.{refl, true}
use k8s_controller_the_hard.Signal.{
  cancelled, SignalState, initial_state, setup_signal_context, request_shutdown, goroutine,
}
use k8s_controller_the_hard.Signal.Counts.{
  Trace, begin, sets_up, sends, receives, Counts, Trace-Counts,
}

-- The first of two signals was received.
abbrev half_down : SignalState
half_down = record { handler_closed = true; has_handler = true; pending = 1; phase = cancelled }

half_down-Trace : Trace 2 half_down
unfolding initial_state setup_signal_context request_shutdown goroutine
half_down-Trace = receives (sends (sends (sets_up begin refl))) refl

Trace-Counts_example : Counts 2 half_down
Trace-Counts_example = Trace-Counts half_down-Trace
