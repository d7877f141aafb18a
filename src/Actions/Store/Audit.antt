-- ===== src/Actions/Store/Audit.antt =====
-- The audit entries, in the order of the changes, as the account of every state change.
use net_soldier.Prelude.{
  ℕ, ◌+◌, ◌≡◌, refl, true, Option, none, some, List, [], ◌∷◌, ◌++◌, arith, Text, lookup, insert,
  lookup-insert, str_eq, str_eq_iff, if◌then◌else◌,
}
use net_soldier.Events.Action.{State, EnforcementAction}
use net_soldier.Actions.Store.{
  Store, StoreOptions, AuditEntry, NewAction, Op, exec, exec_all, create_op, approve_op, reject_op,
  revert_op, failure_op, activate_op, evict, write_audit, create, action_id, new_action, new_store,
}
use net_soldier.Actions.Store.Changes.{
  Change, stay, written, approve-Change, reject-Change, activate-Change, revert-Change,
  record_failure-Change,
}
use net_soldier.Actions.Store.Eviction.{Survives, evict-Survives}
use net_soldier.Actions.Store.Validity.{IsValid, exec-IsValid, inserted, new_store-IsValid}

-- The state that the last entry about an action ends in.
pub last_state : Text → List AuditEntry → Option State
last_state id [] = none
last_state id (e ∷ es) = elim (last_state id es) [
  | none ↦ if str_eq e.action_id id then some e.to_state else none
  | some x ↦ some x
]

last_state-append :
    (id : Text) (es : List AuditEntry) (e : AuditEntry)
    → last_state id (es ++ e ∷ [])
      ≡ (if str_eq e.action_id id then some e.to_state else last_state id es)
unfolding last_state
last_state-append id [] e = ground arith
last_state-append id (d ∷ es) e = ground (arith, last_state-append id es e)

last_state-write_audit :
    (id : Text) (from : Option State) (to : State) (actor reason : Text) (a : EnforcementAction)
    (now : ℕ) (s : Store)
    → s.auditing ≡ true
    → last_state id (write_audit from to actor reason a now s).audit
      ≡ (if str_eq a.id id then some to else last_state id s.audit)
unfolding write_audit
last_state-write_audit id from to actor reason a now s on = rw on (last_state-append id s.audit _)

-- With an audit writer, the entries tell the state of every action in the store.
pub record Agrees (s : Store) : Type 0 where
  pub on : s.auditing ≡ true
  pub at :
      (id : Text) (a : EnforcementAction)
      → lookup id s.actions ≡ some a
      → last_state id s.audit ≡ some a.state

fields-write_audit :
    (from : Option State) (to : State) (actor reason : Text) (a : EnforcementAction) (now : ℕ)
    (s : Store)
    → ((write_audit from to actor reason a now s).auditing ≡ s.auditing)
      × ((write_audit from to actor reason a now s).actions ≡ s.actions)
unfolding write_audit
fields-write_audit from to actor reason a now s = ground arith

Change-Agrees : {id : Text} {s t : Store} → Change id s t → IsValid s → Agrees s → Agrees t
Change-Agrees stay v g = g
Change-Agrees {id} {s} (written a b actor reason now found e same) v g =
    let u = record s { actions = insert id b s.actions } in
    let w = write_audit (some a.state) b.state actor reason b now u in
    record {
      on = ground (arith, fields-write_audit (some a.state) b.state actor reason b now u, g.on);
      at = λ j c at. ground (
        arith,
        g.on,
        fields-write_audit (some a.state) b.state actor reason b now u,
        last_state-write_audit j (some a.state) b.state actor reason b now u,
        lookup-insert id j b s.actions,
        v.keyed id a found,
        same.id,
        str_eq_iff id j,
        g.at j c,
      );
    }

fields-evict : (s : Store) → ((evict s).auditing ≡ s.auditing) × ((evict s).audit ≡ s.audit)
unfolding evict
fields-evict s = ground arith

-- The record of a creation, in a store that an eviction left.
creation-Agrees :
    (a : EnforcementAction) (actor reason : Text) (now : ℕ) (s u : Store)
    → Agrees s
    → (u.audit ≡ s.audit)
    → (u.auditing ≡ s.auditing)
    → ((j : Text)
        → Survives (if str_eq a.id j then some a else lookup j s.actions) (lookup j u.actions))
    → Agrees (write_audit none a.state actor reason a now u)
creation-Agrees a actor reason now s u g same on kept = record {
  on = ground (arith, fields-write_audit none a.state actor reason a now u, g.on);
  at = λ j c at. ground (
    arith,
    fields-write_audit none a.state actor reason a now u,
    g.on,
    last_state-write_audit j none a.state actor reason a now u,
    kept j,
    g.at j c,
  );
}

create-Agrees : (r : NewAction) (now : ℕ) (s : Store) → Agrees s → Agrees (create r now s).0
unfolding create
create-Agrees r now s g =
    let id = action_id s.id_prefix (s.counter + 1) in
    let a = new_action r id now in
    let t = inserted a id s in
    creation-Agrees a _ _ now s (evict t) g (fields-evict t).1 (fields-evict t).0
      (λ j. rw (lookup-insert id j a s.actions) at (evict-Survives t j))

pub exec-Agrees : (op : Op) (s : Store) → IsValid s → Agrees s → Agrees (exec op s)
unfolding exec
exec-Agrees (create_op r now) s v g = create-Agrees r now s g
exec-Agrees (approve_op id by now) s v g = Change-Agrees (approve-Change id by now s) v g
exec-Agrees (reject_op id reason now) s v g = Change-Agrees (reject-Change id reason now s) v g
exec-Agrees (activate_op id now) s v g = Change-Agrees (activate-Change id now s) v g
exec-Agrees (revert_op id reason now) s v g = Change-Agrees (revert-Change id reason now s) v g
exec-Agrees (failure_op id reason now) s v g =
    Change-Agrees (record_failure-Change id reason now s) v g

exec_all-Agrees : (ops : List Op) (s : Store) → IsValid s → Agrees s → Agrees (exec_all ops s)
unfolding exec_all
exec_all-Agrees [] s v g = g
exec_all-Agrees (op ∷ ops) s v g =
    exec_all-Agrees ops (exec op s) (exec-IsValid op s v) (exec-Agrees op s v g)

pub new_store-Agrees : (opts : StoreOptions) → Agrees (new_store true opts)
unfolding new_store lookup
new_store-Agrees opts = record { on = refl; at = λ j a at. cc }

-- Whatever calls are made of a new store with an audit writer, the last entry about an action that the
-- store holds ends in that action's state, in the order of the changes.
pub last_state-exec_all :
    (ops : List Op) (opts : StoreOptions) (id : Text) {a : EnforcementAction}
    → lookup id (exec_all ops (new_store true opts)).actions ≡ some a
    → last_state id (exec_all ops (new_store true opts)).audit ≡ some a.state
last_state-exec_all ops opts id {a} found =
    (exec_all-Agrees ops (new_store true opts) (new_store-IsValid true opts)
        (new_store-Agrees opts)).at
      id a found
