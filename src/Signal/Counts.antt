-- ===== src/Signal/Counts.antt =====
-- pkg/utils/signal/signal.go: which signals lead to which phase.
use k8s_controller_the_hard.Prelude.{
  ℕ, zero, suc, ◌+◌, ◌≤◌, ◌≡◌, refl, sym, subst, ◌∙◌, inl, inr, Bool-cases, Bool, true, false,
  arith, Run, ok, blocked, panic, if◌then◌else◌,
}
use k8s_controller_the_hard.Signal.{
  Phase, absent, waiting, cancelled, exited, SignalState, initial_state, handler_size,
  setup_signal_context, request_shutdown, receive_signal, goroutine,
}

-- The states of the program, with the number of signals that the channel took.
pub data Trace : ℕ → SignalState → Type 0 where
  begin : Trace 0 initial_state
  sets_up : {n : ℕ} {s t : SignalState} → Trace n s → setup_signal_context s ≡ ok t → Trace n t
  sends :
      {n : ℕ} {s : SignalState}
      → Trace n s
      → Trace (if (request_shutdown s).1 then suc n else n) (request_shutdown s).0
  receives : {n : ℕ} {s t : SignalState} → Trace n s → goroutine s ≡ ok t → Trace n t

-- The signals that the goroutine received.
abbrev pub received : Phase → ℕ
received absent = 0
received waiting = 0
received cancelled = 1
received exited = 2

-- There is a goroutine exactly if the handler is set up.
abbrev pub is_present : Phase → Bool
is_present absent = false
is_present waiting = true
is_present cancelled = true
is_present exited = true

pub record Counts (n : ℕ) (s : SignalState) : Type 0 where
  pub sent : s.pending + received s.phase ≡ n
  pub bounded : s.pending ≤ handler_size
  pub present : is_present s.phase ≡ s.has_handler
  pub closed : s.handler_closed ≡ s.has_handler
  pub idle : s.has_handler ≡ false → s.pending ≡ 0

-- It holds after a call that returned.
abbrev After : (SignalState → Type 0) → Run SignalState → Type 0
After P (ok s) = P s
After P (blocked s) = Unit
After P panic = Unit

unused : (n : ℕ) (p : Phase) (m : ℕ) → m + received p ≡ n → is_present p ≡ false → m ≡ 0 → n ≡ 0
unused n absent m e q z = omega (arith, e, z)
unused n waiting m e q z = cc
unused n cancelled m e q z = cc
unused n exited m e q z = cc

setup-Counts : (n : ℕ) (s : SignalState) → Counts n s → After (Counts n) (setup_signal_context s)
unfolding setup_signal_context
setup-Counts n s c = elim (Bool-cases s.handler_closed) [
  | inl closed ↦ rw closed tt
  | inr free ↦
      let z = c.idle (sym c.closed ∙ free) in
      let none_sent = unused n s.phase s.pending c.sent (c.present ∙ sym c.closed ∙ free) z in
      rw free (record {
        sent = sym none_sent;
        bounded = omega arith;
        present = refl;
        closed = refl;
        idle = λ h. refl;
      })
]

receive-Counts :
    (n : ℕ) (s : SignalState) (m : ℕ) (p : Phase)
    → s.pending ≡ m
    → s.phase ≡ p
    → Counts n s
    → After (Counts n) (receive_signal s m p)
receive-Counts n s m absent e f c = tt
receive-Counts n s m exited e f c = tt
receive-Counts n s zero waiting e f c = tt
receive-Counts n s zero cancelled e f c = tt
receive-Counts n s (suc m) waiting e f c = record {
  sent = ground (arith, c.sent, e, f);
  bounded = ground (arith, c.bounded, e);
  present = ground (arith, c.present, f);
  closed = c.closed;
  idle = λ h. ground (arith, c.idle h, e);
}
receive-Counts n s (suc m) cancelled e f c = record {
  sent = ground (arith, c.sent, e, f);
  bounded = ground (arith, c.bounded, e);
  present = ground (arith, c.present, f);
  closed = c.closed;
  idle = λ h. ground (arith, c.idle h, e);
}

send-Counts :
    (n : ℕ) (s : SignalState)
    → Counts n s
    → Counts (if (request_shutdown s).1 then suc n else n) (request_shutdown s).0
unfolding request_shutdown
send-Counts n s c = record {
  sent = ground (arith, c.sent);
  bounded = ground (arith, c.bounded);
  present = ground (arith, c.present);
  closed = ground (arith, c.closed);
  idle = λ h. ground (arith, h, c.idle);
}

-- The signals that the channel took are those in it and those that the goroutine received: none until
-- the context is cancelled, one from then on, two once the program ended. The channel holds at most
-- two, and none without a handler; the goroutine is there exactly if the handler is set up.
pub Trace-Counts : {n : ℕ} {s : SignalState} → Trace n s → Counts n s
unfolding initial_state goroutine
Trace-Counts begin = record {
  sent = refl;
  bounded = omega arith;
  present = refl;
  closed = refl;
  idle = λ h. refl;
}
Trace-Counts (sets_up {n} {s} {t} trace e) =
    subst (λ r. After (Counts n) r) e (setup-Counts n s (Trace-Counts trace))
Trace-Counts (sends {n} {s} trace) = send-Counts n s (Trace-Counts trace)
Trace-Counts (receives {n} {s} {t} trace e) =
    subst (λ r. After (Counts n) r) e
      (receive-Counts n s s.pending s.phase refl refl (Trace-Counts trace))
