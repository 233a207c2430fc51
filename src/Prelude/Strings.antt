-- ===== src/Prelude/Strings.antt =====
-- Equality of Go's strings, as map keys.
use Prim.Native.String.{String}
use mathlib.Core.Path.{sym, ◌∙◌}
use mathlib.Core.Logic.{inl, inr}
use mathlib.Core.Bool.{false≢true}
use text.Mathlib.Text.{◌==◌ as str_eq}
use text.Mathlib.TextEquality.{eq_iff}
use k8s_controller_the_hard.Prelude.Tests.{Bool-cases}

pub String-discrete : Discrete String
String-discrete a b = elim (Bool-cases (str_eq a b)) [
  | inl e ↦ yes ((eq_iff a b).0 e)
  | inr n ↦ no (λ p. false≢true (sym n ∙ (eq_iff a b).1 p))
]
