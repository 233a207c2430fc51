-- ===== src/Workqueue/Contract.antt =====
-- What a work queue of pkg/utils/workqueue promises its callers: sets of items that are requested
-- and in process, with no order, no counters and no timers.
use k8s_controller_the_hard.Prelude.{◌≡◌, ite, Bool, true, false, if◌then◌else◌}

-- The abstract state.
pub record View (K : Type 0) : Type 0 where
  pub requested : K → Bool
  pub in_process : K → Bool
  pub closed : Bool

-- The abstract moves.
pub data Label (K : Type 0) : Type 0 where
  requests starts finishes : K → Label K
  closes keeps : Label K

module _ {K : Type 0} (dec : Discrete K) where
  -- A request after the close is dropped; a request for an item that is requested changes nothing.
  abbrev pub move : View K → Label K → View K
  move v (requests x) = record v {
    requested = λ y. ite (dec x y) (if v.closed then v.requested x else true) (v.requested y);
  }
  move v (starts x) = record v {
    requested = λ y. ite (dec x y) false (v.requested y);
    in_process = λ y. ite (dec x y) true (v.in_process y);
  }
  move v (finishes x) = record v { in_process = λ y. ite (dec x y) false (v.in_process y) }
  move v closes = record v { closed = true }
  move v keeps = v

  -- A start needs a request, and no other run of the item.
  abbrev pub Enabled : View K → Label K → Type 0
  Enabled v (starts x) = (v.requested x ≡ true) × (v.in_process x ≡ false)
  Enabled v _ = Unit {0}

pub record SameView {K : Type 0} (v w : View K) : Type 0 where
  pub requested : (x : K) → v.requested x ≡ w.requested x
  pub in_process : (x : K) → v.in_process x ≡ w.in_process x
  pub closed : v.closed ≡ w.closed
