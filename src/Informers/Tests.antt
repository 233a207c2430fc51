-- ===== src/Informers/Tests.antt =====
-- The factory of informers: the theorems at concrete inputs. Types are numbers, and an informer is
-- its period.
use k8s_controller_the_hard.Prelude.{ℕ, ◌≡◌, List, [], ◌∷◌, if◌then◌else◌, count, ℕ_discrete as dec}
use k8s_controller_the_hard.Prelude.Int.{ℤ, pos}
use k8s_controller_the_hard.Informers.{
  SharedInformerFactory, FactoryOption, new_factory, is_started,
}
use k8s_controller_the_hard.Informers.Started.{FactoryCall, starts, asks, calls, runs_once}

abbrev options : List (FactoryOption ℕ)
options = FactoryOption.with_custom_resync_config ((1, pos 60) ∷ []) ∷ []

abbrev session : List (FactoryCall ℕ ℤ)
session = asks 1 (λ d. d) ∷ starts ∷ asks 2 (λ d. d) ∷ starts ∷ starts ∷ []

abbrev factory : SharedInformerFactory ℕ ℤ
factory = calls dec (new_factory dec (pos 5) options) session

runs_once_example : count dec 2 factory.runs ≡ (if is_started dec factory 2 then 1 else 0)
runs_once_example = runs_once dec (pos 5) options session 2
