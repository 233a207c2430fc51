-- ===== src/Controller/Handler.antt =====
-- pkg/utils/controller/controller.go: the handler of resource events, over objects `O`. A nil
-- interface or pointer is `none`; log lines are left out.
pub mod Kept
use Prim.Native.String.{String}
use text.Mathlib.Text.{◌==◌ as str_eq}
use k8s_controller_the_hard.Prelude.{ℕ, Bool, true, false, not, Option, none, some, if◌then◌else◌}
use k8s_controller_the_hard.Controller.Predicate.{Predicate, predicate_func}
use k8s_controller_the_hard.Controller.Worker.{RateLimitingInterface}

pub record EnqueueHandler (O K Q : Type 0) : Type 0 where
  pub queue : RateLimitingInterface K Q
  pub get_key_func : O → Option K  -- `none` is an error
  pub predicate : Option (Predicate O)

-- `GetName`, with the group and kind that `GVKForObject` finds.
unfoldable pub get_name : String → Option String → String
get_name name group_kind =
    if not (str_eq name "") then name else elim group_kind [ none ↦ "<UNKNOWN>" | some gk ↦ gk ]

-- `eh.predicate == nil || …`
abbrev pub nil_or : {O : Type 0} → Option (Predicate O) → (Predicate O → Bool) → Bool
nil_or none test = true
nil_or (some p) test = test p

module _ {O K Q : Type 0} where
  unfoldable pub new_enqueue_handler :
      RateLimitingInterface K Q → (O → Option K) → Option (Predicate O) → EnqueueHandler O K Q
  new_enqueue_handler queue get_key_func predicate = record {
    queue = queue;
    get_key_func = get_key_func;
    predicate = elim predicate [
      | none ↦
          some (predicate_func (record { add_func = none; update_func = none; delete_func = none }))
      | some p ↦ some p
    ];
  }

  -- The end of each handler, with what `getKeyFunc` returned.
  abbrev pub enqueue_key : EnqueueHandler O K Q → ℕ → Q → Option K → Q
  enqueue_key eh now q none = q
  enqueue_key eh now q (some key) = eh.queue.add now q key

  unfoldable pub on_add : EnqueueHandler O K Q → ℕ → Q → O → Q
  on_add eh now q obj =
      if nil_or eh.predicate (λ p. p.add obj) then enqueue_key eh now q (eh.get_key_func obj) else q

  unfoldable pub on_update : EnqueueHandler O K Q → ℕ → Q → O → O → Q
  on_update eh now q old_obj new_obj =
      if nil_or eh.predicate (λ p. p.update old_obj new_obj)
      then enqueue_key eh now q (eh.get_key_func new_obj)
      else q

  unfoldable pub on_delete : EnqueueHandler O K Q → ℕ → Q → O → Q
  on_delete eh now q obj =
      if nil_or eh.predicate (λ p. p.delete obj)
      then enqueue_key eh now q (eh.get_key_func obj)
      else q
