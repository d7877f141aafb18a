-- ===== src/Actions/Store/Steps.antt =====
-- What each method does to an action that is in a state it accepts, and that it does nothing to any
-- other action.
use net_soldier.Prelude.{
  ℕ, ◌≡◌, refl, ◌⊎◌, true, false, ◌||◌, Option, none, some, [], ◌∷◌, arith, Text, insert,
  lookup-insert, str_eq, str_eq_refl,
}
use net_soldier.Events.Action.{
  State, EnforcementAction, pending, approved, active, reverted, failed,
}
use net_soldier.Actions.Store.{
  Store, StoreError, get, state_eq, write_audit, transition, moved, undone, failing, approve,
  activate, revert, record_failure,
}
use net_soldier.Actions.Store.Changes.{
  SameTarget, Change, stay, written, moved-SameTarget, undone-SameTarget, failing-SameTarget,
}
use net_soldier.Actions.Store.Lifecycle.{actions-write_audit}

-- A call succeeded: the action under an id is now in a state, aimed as before.
pub record Succeeds (id : Text) (a : EnforcementAction) (x : State) (r : Store × Option StoreError)
    : Type 0 where
  pub succeeded : r.1 ≡ none
  pub action : EnforcementAction
  pub found : get id r.0 ≡ some action
  pub state : action.state ≡ x
  pub same : SameTarget a action

found-write :
    (id : Text) (from : Option State) (to : State) (actor reason : Text) (b : EnforcementAction)
    (now : ℕ) (s : Store)
    → get id (write_audit from to actor reason b now (record s { actions = insert id b s.actions }))
      ≡ some b
unfolding get
found-write id from to actor reason b now s =
    rw
      (actions-write_audit from to actor reason b now
        (record s { actions = insert id b s.actions }))
      (rw (lookup-insert id id b s.actions) (rw (str_eq_refl id)))

transition_lem :
    (id : Text) (from to : State) (actor reason : Text) (now : ℕ) (s : Store)
    (a : EnforcementAction)
    → get id s ≡ some a
    → state_eq a.state to ≡ false
    → state_eq a.state from ≡ true
    → Succeeds id a to (transition id to actor reason (from ∷ []) now s)
unfolding transition get
transition_lem id from to actor reason now s a found other at =
    rw (found, transition)
      (rw other (
        rw at (record {
          succeeded = refl;
          action = moved to actor a;
          found = found-write id (some a.state) to actor reason (moved to actor a) now s;
          state = refl;
          same = moved-SameTarget to actor a;
        })))

pub activate_lem :
    (id : Text) (now : ℕ) (s : Store) (a : EnforcementAction)
    → get id s ≡ some a
    → a.state ≡ approved
    → Succeeds id a active (activate id now s)
unfolding activate
activate_lem id now s a found at =
    transition_lem id approved active _ _ now s a found (rw at (unfold state_eq in refl))
      (rw at (unfold state_eq in refl))

pub approve_lem :
    (id by : Text) (now : ℕ) (s : Store) (a : EnforcementAction)
    → get id s ≡ some a
    → a.state ≡ pending
    → Succeeds id a approved (approve id by now s)
unfolding approve
approve_lem id by now s a found at =
    transition_lem id pending approved _ _ now s a found (rw at (unfold state_eq in refl))
      (rw at (unfold state_eq in refl))

pub revert_lem :
    (id reason : Text) (now : ℕ) (s : Store) (a : EnforcementAction)
    → get id s ≡ some a
    → (a.state ≡ active) ⊎ (a.state ≡ failed)
    → Succeeds id a reverted (revert id reason now s)
unfolding revert get
revert_lem id reason now s a found at =
    let other : state_eq a.state reverted ≡ false = unfold state_eq in ground arith in
    let either : (state_eq a.state active || state_eq a.state failed) ≡ true =
      unfold state_eq in ground arith in
    rw (found, revert)
      (rw other (
        rw either (record {
          succeeded = refl;
          action = undone now a;
          found = found-write id (some a.state) reverted _ reason (undone now a) now s;
          state = refl;
          same = undone-SameTarget now a;
        })))

pub record_failure_lem :
    (id reason : Text) (now : ℕ) (s : Store) (a : EnforcementAction)
    → get id s ≡ some a
    → Succeeds id a failed (record_failure id reason now s, none)
unfolding record_failure get
record_failure_lem id reason now s a found =
    rw (found, record_failure)
      (record {
        succeeded = refl;
        action = failing reason a;
        found = found-write id (some a.state) failed _ reason (failing reason a) now s;
        state = refl;
        same = failing-SameTarget reason a;
      })

-- A change under one id leaves every other action as it is.
pub Change-others :
    {id : Text} {s t : Store} (j : Text) → Change id s t → str_eq id j ≡ false → get j t ≡ get j s
unfolding get
Change-others j stay other = refl
Change-others {id} {s} j (written a b actor reason now found e same) other =
    rw
      (actions-write_audit (some a.state) b.state actor reason b now
        (record s { actions = insert id b s.actions }))
      (rw (lookup-insert id j b s.actions) (rw other))

-- Reverting a reverted action changes nothing.
pub revert_reverted :
    (id reason : Text) (now : ℕ) (s : Store) (a : EnforcementAction)
    → get id s ≡ some a
    → a.state ≡ reverted
    → (revert id reason now s).0 ≡ s
unfolding revert get
revert_reverted id reason now s a found at =
    let done : state_eq a.state reverted ≡ true = rw at (unfold state_eq in refl) in
    rw (found, revert) (rw done)
