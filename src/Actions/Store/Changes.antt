-- ===== src/Actions/Store/Changes.antt =====
-- What a method of the store does to the actions it finds: it leaves the store alone, or writes one
-- successor along an edge of the lifecycle and audits that step.
use net_soldier.Prelude.{
  ◌||◌, ℕ, ◌≡◌, refl, inl, inr, Bool, true, false, some, [], ◌∷◌, arith, Text, lookup, insert,
  Option-cases, Bool-cases,
}
use net_soldier.Events.Action.{
  State, EnforcementAction, pending, approved, active, reverted, rejected, failed,
}
use net_soldier.Actions.Store.{
  Store, state_eq, write_audit, transition, approve, reject, activate, revert, record_failure,
  moved, undone, failing,
}

-- The diagram: a step from the first state to the second.
abbrev pub edge : State → State → Bool
edge pending approved = true
edge pending rejected = true
edge approved active = true
edge active reverted = true
edge failed reverted = true
edge _ failed = true
edge _ _ = false

-- What the action is aimed at, and until when.
pub record SameTarget (a b : EnforcementAction) : Type 0 where
  pub id : b.id ≡ a.id
  pub mac : b.target_mac ≡ a.target_mac
  pub ip : b.target_ip ≡ a.target_ip
  pub domain : b.blocked_domain ≡ a.blocked_domain
  pub kind : b.action_type ≡ a.action_type
  pub deadline : b.expires_at ≡ a.expires_at

pub data Change (id : Text) (s : Store) : Store → Type 0 where
  stay : Change id s s
  written :
      (a b : EnforcementAction) (actor reason : Text) (now : ℕ)
      → lookup id s.actions ≡ some a
      → edge a.state b.state ≡ true
      → SameTarget a b
      → Change id s (
          write_audit
            (some a.state)
            b.state
            actor
            reason
            b
            now
            (record s { actions = insert id b s.actions }))

pub state_eq→eq : (x y : State) → state_eq x y ≡ true → x ≡ y
unfolding state_eq
state_eq→eq x y h = ground arith

pub moved-SameTarget :
    (to : State) (actor : Text) (a : EnforcementAction) → SameTarget a (moved to actor a)
unfolding moved
moved-SameTarget to actor a = record {
  id = refl;
  mac = refl;
  ip = refl;
  domain = refl;
  kind = refl;
  deadline = refl;
}

pub undone-SameTarget : (now : ℕ) (a : EnforcementAction) → SameTarget a (undone now a)
unfolding undone
undone-SameTarget now a = record {
  id = refl;
  mac = refl;
  ip = refl;
  domain = refl;
  kind = refl;
  deadline = refl;
}

pub failing-SameTarget : (reason : Text) (a : EnforcementAction) → SameTarget a (failing reason a)
unfolding failing
failing-SameTarget reason a = record {
  id = refl;
  mac = refl;
  ip = refl;
  domain = refl;
  kind = refl;
  deadline = refl;
}

transition-Change :
    (id : Text) (from to : State) (actor reason : Text) (now : ℕ) (s : Store)
    → edge from to ≡ true
    → Change id s (transition id to actor reason (from ∷ []) now s).0
unfolding transition
transition-Change id from to actor reason now s e = elim (Option-cases (lookup id s.actions)) [
  | inl absent ↦ rw (absent, transition) stay
  | inr (a, found) ↦
      rw (found, transition)
        (elim (Bool-cases (state_eq a.state to)) [
          | inl same ↦ rw same stay
          | inr moves ↦ rw moves (elim (Bool-cases (state_eq a.state from)) [
            | inl at ↦ rw at (
                written a (moved to actor a) actor reason now found
                  (rw (state_eq→eq a.state from at) e) (moved-SameTarget to actor a))
            | inr elsewhere ↦ rw elsewhere stay
          ])
        ])
]

pub approve-Change : (id by : Text) (now : ℕ) (s : Store) → Change id s (approve id by now s).0
unfolding approve
approve-Change id by now s = transition-Change id pending approved by _ now s refl

pub reject-Change :
    (id reason : Text) (now : ℕ) (s : Store) → Change id s (reject id reason now s).0
unfolding reject
reject-Change id reason now s = transition-Change id pending rejected _ reason now s refl

pub activate-Change : (id : Text) (now : ℕ) (s : Store) → Change id s (activate id now s).0
unfolding activate
activate-Change id now s = transition-Change id approved active _ _ now s refl

edge-reverted :
    (x : State) → (state_eq x active || state_eq x failed) ≡ true → edge x reverted ≡ true
unfolding state_eq
edge-reverted x h = ground arith

pub revert-Change :
    (id reason : Text) (now : ℕ) (s : Store) → Change id s (revert id reason now s).0
unfolding revert
revert-Change id reason now s = elim (Option-cases (lookup id s.actions)) [
  | inl absent ↦ rw (absent, revert) stay
  | inr (a, found) ↦
      rw (found, revert)
        (elim (Bool-cases (state_eq a.state reverted)) [
          | inl same ↦ rw same stay
          | inr moves ↦
              rw moves (elim (Bool-cases (state_eq a.state active || state_eq a.state failed)) [
                | inl at ↦ rw at (
                    written a (undone now a) _ reason now found (edge-reverted a.state at)
                      (undone-SameTarget now a))
                | inr elsewhere ↦ rw elsewhere stay
              ])
        ])
]

edge-failed : (x : State) → edge x failed ≡ true
edge-failed x = ground arith

pub record_failure-Change :
    (id reason : Text) (now : ℕ) (s : Store) → Change id s (record_failure id reason now s)
unfolding record_failure
record_failure-Change id reason now s = elim (Option-cases (lookup id s.actions)) [
  | inl absent ↦ rw (absent, record_failure) stay
  | inr (a, found) ↦
      rw (found, record_failure)
        (written a (failing reason a) _ reason now found (edge-failed a.state)
          (failing-SameTarget reason a))
]
