-- ===== src/Actions/Store/Lifecycle.antt =====
-- The lifecycle of an action: what the calls of the store may do to the action under an id.
use net_soldier.Prelude.{
  length, ◌≤◌, ℕ, ◌+◌, ◌≡◌, refl, ◌⊎◌, inl, inr, true, Option, none, some, [], ◌∷◌, ◌++◌, arith,
  Text, lookup, insert, lookup-insert, Assoc, str_eq, str_eq_iff, Bool-cases,
}
use net_soldier.Events.Action.{State, EnforcementAction, pending, approved}
use net_soldier.Actions.Store.{
  Store, NewAction, Op, create_op, approve_op, reject_op, revert_op, failure_op, activate_op,
  terminal, write_audit, evict, create, exec, action_id, new_action,
}
use net_soldier.Actions.Store.Eviction.{Survives, evict-Survives, evict_bound, IsLive}
use net_soldier.Actions.Store.Validity.{IsValid, insert-IsValid}
use net_soldier.Actions.Store.Changes.{
  edge, SameTarget, Change, stay, written, approve-Change, reject-Change, activate-Change,
  revert-Change, record_failure-Change,
}

-- One step of the action under an id: it stays as it is, follows an edge, is created pending or
-- approved, or is dropped from a terminal state.
abbrev pub Evolves : Option EnforcementAction → Option EnforcementAction → Type 0
Evolves none none = Unit
Evolves none (some b) = (b.state ≡ pending) ⊎ (b.state ≡ approved)
Evolves (some a) none = terminal a.state ≡ true
Evolves (some a) (some b) = (a ≡ b) ⊎ ((edge a.state b.state ≡ true) × SameTarget a b)

Evolves-refl : (o : Option EnforcementAction) → Evolves o o
Evolves-refl none = tt
Evolves-refl (some a) = inl refl

Evolves-insert :
    (id j : Text) (a b : EnforcementAction) (m : Assoc EnforcementAction)
    → lookup id m ≡ some a
    → edge a.state b.state ≡ true
    → SameTarget a b
    → Evolves (lookup j m) (lookup j (insert id b m))
Evolves-insert id j a b m found e t = elim (Bool-cases (str_eq id j)) [
  | inl same ↦
      rw (lookup-insert id j b m, same) (rw (← (str_eq_iff id j).0 same) (rw found (inr (e, t))))
  | inr other ↦ rw (lookup-insert id j b m, other) (Evolves-refl (lookup j m))
]

pub actions-write_audit :
    (from : Option State) (to : State) (actor reason : Text) (a : EnforcementAction) (now : ℕ)
    (s : Store)
    → (write_audit from to actor reason a now s).actions ≡ s.actions
unfolding write_audit
actions-write_audit from to actor reason a now s = ground arith

Change-Evolves :
    {id : Text} {s t : Store} (j : Text)
    → Change id s t
    → Evolves (lookup j s.actions) (lookup j t.actions)
Change-Evolves {s} j stay = Evolves-refl (lookup j s.actions)
Change-Evolves {id} {s} j (written a b actor reason now found e same) =
    rw
      (actions-write_audit (some a.state) b.state actor reason b now
        (record s { actions = insert id b s.actions }))
      (Evolves-insert id j a b s.actions found e same)

Evolves-Survives : (o o' : Option EnforcementAction) → Survives o o' → Evolves o o'
Evolves-Survives none none h = tt
Evolves-Survives none (some b) h = ground arith
Evolves-Survives (some a) none h = ground arith
Evolves-Survives (some a) (some b) h = inl (ground arith)

-- A new action is not terminal, so the eviction that follows its insertion leaves it.
Evolves-created :
    (a : EnforcementAction) (o : Option EnforcementAction)
    → (a.state ≡ pending) ⊎ (a.state ≡ approved)
    → Survives (some a) o
    → Evolves none o
unfolding terminal
Evolves-created a none new h = tt
Evolves-created a (some b) new h = ground arith

state-new_action :
    (r : NewAction) (id : Text) (now : ℕ)
    → ((new_action r id now).state ≡ pending) ⊎ ((new_action r id now).state ≡ approved)
unfolding new_action
state-new_action r id now = ground arith

create-Evolves :
    (r : NewAction) (now : ℕ) (s : Store) (j : Text)
    → IsValid s
    → Evolves (lookup j s.actions) (lookup j (create r now s).0.actions)
unfolding create
create-Evolves r now s j v =
    let id = action_id s.id_prefix (s.counter + 1) in
    let a = new_action r id now in
    let t = record s {
      counter = s.counter + 1;
      actions = insert id a s.actions;
      order = s.order ++ id ∷ [];
    } in
    rw (actions-write_audit none a.state _ _ a now (evict t)) (elim (Bool-cases (str_eq id j)) [
      | inl same ↦
          let at : lookup j (insert id a s.actions) ≡ some a =
            rw (lookup-insert id j a s.actions, same) in
          let absent : lookup j s.actions ≡ none =
            rw (← (str_eq_iff id j).0 same) (v.fresh (s.counter + 1) (omega arith)) in
          rw absent
            (Evolves-created a _ (state-new_action r id now) (rw at at (evict-Survives t j)))
      | inr other ↦
          let at : lookup j (insert id a s.actions) ≡ lookup j s.actions =
            rw (lookup-insert id j a s.actions, other) in
          Evolves-Survives _ _ (rw at at (evict-Survives t j))
    ])

-- Every call of the store, on a valid store, moves each action along an edge of the lifecycle,
-- without changing what it is aimed at, or leaves it as it is; an id that held nothing may get a
-- new action, pending or approved; and an action is dropped only from a terminal state.
pub exec-Evolves :
    (op : Op) (s : Store) (j : Text)
    → IsValid s
    → Evolves (lookup j s.actions) (lookup j (exec op s).actions)
unfolding exec
exec-Evolves (create_op r now) s j v = create-Evolves r now s j v
exec-Evolves (approve_op id by now) s j v = Change-Evolves j (approve-Change id by now s)
exec-Evolves (reject_op id reason now) s j v = Change-Evolves j (reject-Change id reason now s)
exec-Evolves (activate_op id now) s j v = Change-Evolves j (activate-Change id now s)
exec-Evolves (revert_op id reason now) s j v = Change-Evolves j (revert-Change id reason now s)
exec-Evolves (failure_op id reason now) s j v =
    Change-Evolves j (record_failure-Change id reason now s)

-- After `Create` on a valid store, the map is within its bound, or it holds no action that may be
-- evicted: every action left in it is pending, approved or active.
pub create_bound :
    (r : NewAction) (now : ℕ) (s : Store)
    → IsValid s
    → (length (create r now s).0.actions ≤ s.max_actions) ⊎ IsLive (create r now s).0.actions
unfolding create
create_bound r now s v =
    let id = action_id s.id_prefix (s.counter + 1) in
    let a = new_action r id now in
    let t = record s {
      counter = s.counter + 1;
      actions = insert id a s.actions;
      order = s.order ++ id ∷ [];
    } in
    let w : IsValid t = insert-IsValid a s v refl in
    rw (actions-write_audit none a.state _ _ a now (evict t))
      (evict_bound t w.unique (λ j b at. inr (w.ordered j b at)))
