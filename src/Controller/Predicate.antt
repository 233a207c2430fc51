-- ===== src/Controller/Predicate.antt =====
-- pkg/utils/controller/predicate.go, over objects `O`. `accessor` is `meta.Accessor` of apimachinery,
-- with `none` for an error, and a selector is its method `Matches`.
pub mod Laws
use Prim.Native.String.{String}
use text.Mathlib.Text.{◌==◌ as str_eq}
use k8s_controller_the_hard.Prelude.{
  ℕ, Bool, true, false, not, ◌&&◌, ◌||◌, Option, none, some, List, [], ◌∷◌, if◌then◌else◌, ◌==◌,
}
use k8s_controller_the_hard.Prelude.GoMap.{GoMap}

pub record OwnerReference : Type 0 where
  pub api_version : String
  pub owner_kind : String

-- The part of `metav1.Object` that the package reads.
pub record ObjectMeta : Type 0 where
  pub name : String
  pub namespace : String
  pub resource_version : String
  pub generation : ℕ
  pub labels : GoMap String String
  pub annotations : GoMap String String
  pub owner_references : List OwnerReference

-- `schema.GroupVersionKind`, with what its `GroupVersion().String()` returns.
pub record GroupVersionKind : Type 0 where
  pub group_version : String
  pub kind : String

-- The interface.
pub record Predicate (O : Type 0) : Type 0 where
  pub add : O → Bool
  pub update : O → O → Bool
  pub delete : O → Bool

-- The struct of functions, each of which may be nil.
pub record PredicateFunc (O : Type 0) : Type 0 where
  pub add_func : Option (O → Bool)
  pub update_func : Option (O → O → Bool)
  pub delete_func : Option (O → Bool)

module _ {O : Type 0} where
  unfoldable pub predicates_add : List (Predicate O) → O → Bool
  predicates_add [] obj = true
  predicates_add (p ∷ ps) obj = if not (p.add obj) then false else predicates_add ps obj

  unfoldable pub predicates_update : List (Predicate O) → O → O → Bool
  predicates_update [] old new = true
  predicates_update (p ∷ ps) old new =
      if not (p.update old new) then false else predicates_update ps old new

  unfoldable pub predicates_delete : List (Predicate O) → O → Bool
  predicates_delete [] obj = true
  predicates_delete (p ∷ ps) obj = if not (p.delete obj) then false else predicates_delete ps obj

  -- The list as one predicate.
  abbrev pub predicates : List (Predicate O) → Predicate O
  predicates ps = record {
    add = predicates_add ps;
    update = predicates_update ps;
    delete = predicates_delete ps;
  }

  abbrev pub call_or_true : Option (O → Bool) → O → Bool
  call_or_true none obj = true
  call_or_true (some f) obj = f obj

  abbrev pub call_update_or_true : Option (O → O → Bool) → O → O → Bool
  call_update_or_true none old new = true
  call_update_or_true (some f) old new = f old new

  -- The struct as a predicate.
  abbrev pub predicate_func : PredicateFunc O → Predicate O
  predicate_func p = record {
    add = call_or_true p.add_func;
    update = call_update_or_true p.update_func;
    delete = call_or_true p.delete_func;
  }

-- Two accesses, with `false` on an error of either.
abbrev pub both_meta :
    (ObjectMeta → ObjectMeta → Bool) → Option ObjectMeta → Option ObjectMeta → Bool
both_meta f none new = false
both_meta f (some old) none = false
both_meta f (some old) (some new) = f old new

unfoldable pub version_changed : ObjectMeta → ObjectMeta → Bool
version_changed old new =
    str_eq new.resource_version "" || not (str_eq old.resource_version new.resource_version)

unfoldable pub generation_changed : ObjectMeta → ObjectMeta → Bool
generation_changed old new = not (old.generation == new.generation)

unfoldable pub annotations_match : (GoMap String String → Bool) → Option ObjectMeta → Bool
annotations_match selector none = true
annotations_match selector (some o) = selector o.annotations

-- The loop of `isOwnedByKind`.
unfoldable pub is_owned_by : GroupVersionKind → List OwnerReference → Bool
is_owned_by kind [] = false
is_owned_by kind (r ∷ rs) =
    if str_eq r.api_version kind.group_version && str_eq r.owner_kind kind.kind
    then true
    else is_owned_by kind rs

abbrev pub either_owned : GroupVersionKind → ObjectMeta → ObjectMeta → Bool
either_owned kind old new =
    is_owned_by kind old.owner_references || is_owned_by kind new.owner_references

module _ {O : Type 0} (accessor : O → Option ObjectMeta) where
  abbrev pub resource_version_predicate : Predicate O
  resource_version_predicate = predicate_func (record {
    add_func = none;
    update_func = some (λ old new. both_meta version_changed (accessor old) (accessor new));
    delete_func = none;
  })

  abbrev pub generation_predicate : Predicate O
  generation_predicate = predicate_func (record {
    add_func = none;
    update_func = some (λ old new. both_meta generation_changed (accessor old) (accessor new));
    delete_func = none;
  })

  abbrev pub annotation_predicate : (GoMap String String → Bool) → Predicate O
  annotation_predicate selector = predicate_func (record {
    add_func = some (λ obj. annotations_match selector (accessor obj));
    update_func = some (λ _ obj. annotations_match selector (accessor obj));
    delete_func = some (λ obj. annotations_match selector (accessor obj));
  })

  abbrev pub owner_predicate : GroupVersionKind → Predicate O
  owner_predicate kind = predicate_func (record {
    add_func = some (λ _. false);
    update_func = some (λ old new. both_meta (either_owned kind) (accessor old) (accessor new));
    delete_func = some (λ _. false);
  })
