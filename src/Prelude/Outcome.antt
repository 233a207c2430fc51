-- ===== src/Prelude/Outcome.antt =====
-- How a call of a method that changes a state `S` ends.

-- It returns, it blocks in the state reached so far, or it panics.
pub data Run {ℓ} (S : Type ℓ) : Type ℓ where
  ok : S → Run S
  blocked : S → Run S
  panic : Run S

infixl 5 ◌>>=◌
abbrev pub ◌>>=◌ {ℓ} : {S : Type ℓ} → Run S → (S → Run S) → Run S
ok s >>= f = f s
blocked s >>= f = blocked s
panic >>= f = panic
