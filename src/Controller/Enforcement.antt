-- ===== src/Controller/Enforcement.antt =====
-- What applyAction leaves of an approved action.
use net_soldier.Prelude.{
  ℕ, ◌≡◌, refl, inl, inr, ◌⊎◌, false, Option, none, some, arith, Text, Option-cases, str_eq,
}
use net_soldier.Events.Action.{State, EnforcementAction, approved, active, failed}
use net_soldier.Actions.Store
use net_soldier.Actions.Store.{Store, StoreError, get}
use net_soldier.Actions.Store.Changes.{activate-Change, record_failure-Change}
use net_soldier.Actions.Store.Steps.{activate_lem, record_failure_lem, Change-others}
use net_soldier.Drivers.{Driver}
use net_soldier.Controller.{World, apply_action, applied, no_driver}

-- The state of the action under an id.
pub state_of : Text → Store → Option State
state_of id s = elim (get id s) [ none ↦ none | some a ↦ some a.state ]

pub state_of_found :
    (id : Text) (s : Store) {a : EnforcementAction}
    → get id s ≡ some a
    → state_of id s ≡ some a.state
unfolding state_of
state_of_found id s e = rw (e, state_of)

pub state_of_inv :
    (id : Text) (s : Store) (x : State)
    → state_of id s ≡ some x
    → (a : EnforcementAction) × (get id s ≡ some a) × (a.state ≡ x)
unfolding state_of
state_of_inv id s x = elim (Option-cases (get id s)) [
  | inl e ↦ rw (e, state_of) (λ h. cc)
  | inr (a, e) ↦ rw (e, state_of) (λ h. (a, refl, ground arith))
]

module _ {W : Type 0} (resolve : Text → Option (Driver W)) where
  applied_honest :
      (now : ℕ) (a : EnforcementAction) (s : Store) (r : W × Option Text)
      → get a.id s ≡ some a
      → a.state ≡ approved
      → ((r.1 ≡ none) × (state_of a.id (applied resolve now a s r).store ≡ some active))
        ⊎ (state_of a.id (applied resolve now a s r).store ≡ some failed)
  unfolding applied
  applied_honest now a s (n, none) found at =
      let t = activate_lem a.id now s a found at in
      inl (refl, ground (arith, state_of_found a.id (Store.activate a.id now s).0 t.found, t.state))
  applied_honest now a s (n, some e) found at =
      let t = record_failure_lem a.id e now s a found in
      inr (ground (arith, state_of_found a.id (Store.record_failure a.id e now s) t.found, t.state))

  -- applyAction on an approved action of the store: the action is active afterwards, and then a
  -- driver for its type applied it without an error, or else it is failed.
  pub apply_action_honest :
      (now : ℕ) (a : EnforcementAction) (w : World W)
      → get a.id w.store ≡ some a
      → a.state ≡ approved
      → ((d : Driver W) × (resolve a.action_type ≡ some d)
          × ((d.apply a w.network).1 ≡ none)
          × (state_of a.id (apply_action resolve now a w).store ≡ some active))
        ⊎ (state_of a.id (apply_action resolve now a w).store ≡ some failed)
  unfolding apply_action
  apply_action_honest now a w found at = elim (Option-cases (resolve a.action_type)) [
    | inl e ↦
        let t = record_failure_lem a.id (no_driver a) now w.store a found in
        rw (e, apply_action)
          (inr (
            ground (
              arith,
              state_of_found a.id (Store.record_failure a.id (no_driver a) now w.store) t.found,
              t.state,
            )))
    | inr (d, e) ↦
        rw (e, apply_action)
          (elim (applied_honest now a w.store (d.apply a w.network) found at) [
            | inl (ok, on) ↦ inl (d, refl, ok, on)
            | inr off ↦ inr off
          ])
  ]

  -- applyAction leaves every other action of the store as it is.
  pub apply_action_others :
      (now : ℕ) (a : EnforcementAction) (w : World W) (j : Text)
      → str_eq a.id j ≡ false
      → get j (apply_action resolve now a w).store ≡ get j w.store
  unfolding apply_action
  apply_action_others now a w j other = elim (Option-cases (resolve a.action_type)) [
    | inl e ↦
        rw (e, apply_action)
          (Change-others j (record_failure-Change a.id (no_driver a) now w.store) other)
    | inr (d, e) ↦ rw (e, apply_action) (others_of (d.apply a w.network))
  ]
    where
      others_of :
          (r : W × Option Text) → get j (applied resolve now a w.store r).store ≡ get j w.store
      others_of (n, none) = Change-others j (activate-Change a.id now w.store) other
      others_of (n, some e) = Change-others j (record_failure-Change a.id e now w.store) other
