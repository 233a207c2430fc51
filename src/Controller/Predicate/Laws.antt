-- ===== src/Controller/Predicate/Laws.antt =====
-- pkg/utils/controller/predicate.go: which events pass.
use text.Mathlib.Text.{◌==◌ as str_eq}
use text.Mathlib.TextEquality.{eq_iff}
use mathlib.Core.List.{Memᴰ}
use k8s_controller_the_hard.Prelude.{
  ◌≡◌, ◌≢◌, ◌↔◌, ◌⊎◌, inl, inr, refl, sym, ◌∙◌, Bool, true, false, not, ◌&&◌, ◌||◌, Option, none,
  some, List, [], ◌∷◌, arith, Bool-cases, false≢true,
}
use k8s_controller_the_hard.Controller.Predicate.{
  OwnerReference, ObjectMeta, GroupVersionKind, Predicate, predicates, predicates_add,
  predicates_update, predicates_delete, version_changed, is_owned_by, both_meta, either_owned,
  owner_predicate, resource_version_predicate,
}

-- A resource event.
pub data Event (O : Type 0) : Type 0 where
  added deleted : O → Event O
  updated : O → O → Event O

abbrev pub All {ℓ κ} : {A : Type ℓ} → (A → Type κ) → List A → Type κ
All P [] = Unit
All P (x ∷ xs) = P x × All P xs

module _ {O : Type 0} where
  abbrev pub accepts : Predicate O → Event O → Bool
  accepts p (added obj) = p.add obj
  accepts p (updated old new) = p.update old new
  accepts p (deleted obj) = p.delete obj

  predicates-cons :
      (p : Predicate O) (ps : List (Predicate O)) (e : Event O)
      → accepts (predicates (p ∷ ps)) e ≡ (accepts p e && accepts (predicates ps) e)
  unfolding predicates_add predicates_update predicates_delete
  predicates-cons p ps (added obj) = ground arith
  predicates-cons p ps (updated old new) = ground arith
  predicates-cons p ps (deleted obj) = ground arith

  predicates-nil : (e : Event O) → accepts (predicates []) e ≡ true
  unfolding predicates_add predicates_update predicates_delete
  predicates-nil (added obj) = refl
  predicates-nil (updated old new) = refl
  predicates-nil (deleted obj) = refl

  -- A list of predicates accepts an event, of any of the three kinds, exactly if each member
  -- accepts it.
  pub predicates_iff :
      (ps : List (Predicate O)) (e : Event O)
      → (accepts (predicates ps) e ≡ true) ↔ All (λ p. accepts p e ≡ true) ps
  predicates_iff [] e = (λ _. tt, λ _. predicates-nil e)
  predicates_iff (p ∷ ps) e =
      let ih = predicates_iff ps e in
      (
        λ h.
            let both : (accepts p e && accepts (predicates ps) e) ≡ true =
              ground (arith, predicates-cons p ps e) in
            (ground arith, ih.0 (ground arith)),
        λ h. ground (arith, predicates-cons p ps e, ih.1 h.1),
      )

and_left : (a b : Bool) → (a && b) ≡ true → a ≡ true
and_left true b h = refl
and_left false b h = h

and_right : (a b : Bool) → (a && b) ≡ true → b ≡ true
and_right true b h = h
and_right false b h = cc

-- The list holds a reference to the kind.
abbrev pub Owned : GroupVersionKind → List OwnerReference → Type 0
Owned kind refs =
    (r : OwnerReference) × Memᴰ r refs
    × (r.api_version ≡ kind.group_version)
    × (r.owner_kind ≡ kind.kind)

-- The test on one reference.
is_reference_to : GroupVersionKind → OwnerReference → Bool
is_reference_to kind r = str_eq r.api_version kind.group_version && str_eq r.owner_kind kind.kind

reference_iff :
    (kind : GroupVersionKind) (r : OwnerReference)
    → (is_reference_to kind r ≡ true)
      ↔ ((r.api_version ≡ kind.group_version) × (r.owner_kind ≡ kind.kind))
unfolding is_reference_to
reference_iff kind r =
    let v = eq_iff r.api_version kind.group_version in
    let k = eq_iff r.owner_kind kind.kind in
    (λ h. (v.0 (ground arith), k.0 (ground arith)), λ h. ground (arith, v.1 h.0, k.1 h.1))

is_owned_by-cons :
    (kind : GroupVersionKind) (r : OwnerReference) (rs : List OwnerReference)
    → is_owned_by kind (r ∷ rs) ≡ (is_reference_to kind r || is_owned_by kind rs)
unfolding is_owned_by is_reference_to
is_owned_by-cons kind r rs = ground arith

is_owned_by-Owned :
    (kind : GroupVersionKind) (rs : List OwnerReference)
    → is_owned_by kind rs ≡ true
    → Owned kind rs
unfolding is_owned_by
is_owned_by-Owned kind [] h = cc
is_owned_by-Owned kind (r ∷ rs) h = elim (Bool-cases (is_reference_to kind r)) [
  | inl here ↦
      (r, Memᴰ.head refl, ((reference_iff kind r).0 here).0, ((reference_iff kind r).0 here).1)
  | inr there ↦
      let (o, m, v, k) = is_owned_by-Owned kind rs (ground (arith, is_owned_by-cons kind r rs)) in
      (o, Memᴰ.tail m, v, k)
]

Owned-is_owned_by :
    (kind : GroupVersionKind) (rs : List OwnerReference) (o : OwnerReference)
    → Memᴰ o rs
    → o.api_version ≡ kind.group_version
    → o.owner_kind ≡ kind.kind
    → is_owned_by kind rs ≡ true
Owned-is_owned_by kind [] o m v k = elim m [ ]
Owned-is_owned_by kind (r ∷ rs) o (Memᴰ.head e) v k =
    let here = (reference_iff kind r).1 (rw e at v, rw e at k) in
    ground (arith, is_owned_by-cons kind r rs, here)
Owned-is_owned_by kind (r ∷ rs) o (Memᴰ.tail m) v k =
    ground (arith, is_owned_by-cons kind r rs, Owned-is_owned_by kind rs o m v k)

-- The new resource version is empty, or is not the old one.
abbrev pub VersionChanged : ObjectMeta → ObjectMeta → Type 0
VersionChanged old new = (new.resource_version ≡ "") ⊎ (old.resource_version ≢ new.resource_version)

or-not_iff :
    (e d : Bool) (E D : Type 0)
    → (e ≡ true) ↔ E
    → (d ≡ true) ↔ D
    → ((e || not d) ≡ true) ↔ (E ⊎ (¬ D))
or-not_iff true d E D p q = (λ _. inl (p.0 refl), λ _. refl)
or-not_iff false true E D p q =
    (λ h. cc, λ h. elim h [ inl e ↦ p.1 e | inr n ↦ absurd (n (q.0 refl)) ])
or-not_iff false false E D p q = (λ _. inr (λ d. false≢true (q.1 d)), λ _. refl)

pub version_changed_iff :
    (old new : ObjectMeta) → (version_changed old new ≡ true) ↔ VersionChanged old new
unfolding version_changed
version_changed_iff old new =
    or-not_iff _ _ _ _ (eq_iff new.resource_version "")
      (eq_iff old.resource_version new.resource_version)

module _ {O : Type 0} (accessor : O → Option ObjectMeta) (kind : GroupVersionKind) where
  -- The events that the controller of the kind takes from the objects that it owns.
  abbrev pub Watched : Event O → Type 0
  Watched (added obj) = ⊥
  Watched (deleted obj) = ⊥
  Watched (updated old new) =
      (a b : ObjectMeta) × (accessor old ≡ some a)
      × (accessor new ≡ some b)
      × (Owned kind a.owner_references ⊎ Owned kind b.owner_references)
      × VersionChanged a b

  abbrev pub watch_predicate : Predicate O
  watch_predicate =
      predicates (owner_predicate accessor kind ∷ resource_version_predicate accessor ∷ [])

  accepts-Watched :
      (old new : O) (a b : Option ObjectMeta)
      → accessor old ≡ a
      → accessor new ≡ b
      → both_meta (either_owned kind) a b ≡ true
      → both_meta version_changed a b ≡ true
      → Watched (updated old new)
  accepts-Watched old new (some a) (some b) ea eb h v =
      (a, b, ea, eb, owned, (version_changed_iff a b).0 v)
    where
      owned : Owned kind a.owner_references ⊎ Owned kind b.owner_references
      owned = elim (Bool-cases (is_owned_by kind a.owner_references)) [
        | inl o ↦ inl (is_owned_by-Owned kind a.owner_references o)
        | inr n ↦ inr (is_owned_by-Owned kind b.owner_references (ground arith))
      ]
  accepts-Watched old new (some a) none ea eb h v = cc
  accepts-Watched old new none b ea eb h v = cc

  accepts-updated :
      (old new : O)
      → accepts watch_predicate (updated old new) ≡ (
          both_meta (either_owned kind) (accessor old) (accessor new)
          && both_meta version_changed (accessor old) (accessor new))
  unfolding predicates_update
  accepts-updated old new = ground arith

  either_owned_of :
      (a b : ObjectMeta)
      → Owned kind a.owner_references ⊎ Owned kind b.owner_references
      → either_owned kind a b ≡ true
  either_owned_of a b (inl (o, m, v, k)) =
      let t = Owned-is_owned_by kind a.owner_references o m v k in ground (arith, t)
  either_owned_of a b (inr (o, m, v, k)) =
      let t = Owned-is_owned_by kind b.owner_references o m v k in ground (arith, t)

  Watched-accepts :
      (old new : O) → Watched (updated old new) → accepts watch_predicate (updated old new) ≡ true
  Watched-accepts old new (a, b, ea, eb, owned, v) =
      rw (accepts-updated old new, ea, eb, either_owned_of a b owned, (version_changed_iff a b).1 v)

  -- The predicate that `main` gives to the watches of StatefulSets and Services accepts no add and
  -- no delete, and an update exactly if both objects can be read, the old or the new one has an owner
  -- reference to the kind, and the new resource version is empty or is not the old one.
  pub watch_predicate_iff : (e : Event O) → (accepts watch_predicate e ≡ true) ↔ Watched e
  unfolding predicates_add predicates_delete
  watch_predicate_iff (added obj) = (λ h. cc, λ h. absurd h)
  watch_predicate_iff (deleted obj) = (λ h. cc, λ h. absurd h)
  watch_predicate_iff (updated old new) = (
    λ h.
        let p = sym (accepts-updated old new) ∙ h in
        accepts-Watched old new (accessor old) (accessor new) refl refl (and_left _ _ p)
          (and_right _ _ p),
    Watched-accepts old new,
  )
