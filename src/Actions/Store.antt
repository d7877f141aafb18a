-- ===== src/Actions/Store.antt =====
-- apps/killswitch-controller/internal/actions/store.go: the state machine of enforcement actions.
-- Each method holds the mutex for its whole change, so a method is a function on the store. The
-- process-wide counter of `actionCounter` is a field and the clock is an argument. `audit` has the
-- entries that the changes call for, in the order of the changes. writeAudit itself runs after the
-- mutex is released: Delivery has the writes as steps of their own, in any order, of which each
-- may fail.
pub mod Changes
pub mod Validity
pub mod Lifecycle
pub mod Audit
pub mod Delivery
pub mod Eviction
pub mod Steps
pub mod Deadline
mod Examples
use net_soldier.Prelude.{
  ◌&&◌, ◌||◌, ℕ, ◌+◌, ◌-◌, ◌*◌, Bool, true, false, Option, none, some, List, [], ◌∷◌, ◌++◌, Text,
  codes, ℤ, pos, negsuc, ltb, leb, ltb_ℤ, signed64, add_to, decimal, is_empty, keep, exists, length,
  Assoc, lookup, insert, delete, map, if◌then◌else◌, ◌==◌,
}
use net_soldier.Events.Action.{
  State, EnforcementAction, enforcement_schema_version, pending, approved, active, reverted,
  rejected, failed,
}

pub record StoreOptions : Type 0 where
  pub max_actions : ℤ
  pub id_prefix : Text

-- An absent `from` is the empty text of a creation.
pub record AuditEntry : Type 0 where
  pub timestamp : ℕ
  pub action_id : Text
  pub from_state : Option State
  pub to_state : State
  pub actor : Text
  pub reason : Text
  pub detection_id : Text
  pub target_mac : Text
  pub target_ip : Text
  pub action_type : Text

-- `auditing` is whether the audit writer is not nil.
pub record Store : Type 0 where
  pub actions : Assoc EnforcementAction
  pub order : List Text
  pub auditing : Bool
  pub audit : List AuditEntry
  pub max_actions : ℕ
  pub id_prefix : Text
  pub counter : ℕ

-- The errors of the methods.
pub data StoreError : Type 0 where
  not_found : Text → StoreError
  cannot_revert : Text → State → StoreError
  cannot_transition : Text → State → State → StoreError

default_max_actions : ℤ → ℕ
default_max_actions (negsuc n) = 10000
default_max_actions (pos n) = if ltb 0 n then n else 10000

-- NewStore
unfoldable pub new_store : Bool → StoreOptions → Store
unfolding default_max_actions
new_store auditing opts = record {
  actions = [];
  order = [];
  auditing = auditing;
  audit = [];
  max_actions = default_max_actions opts.max_actions;
  id_prefix = if is_empty opts.id_prefix then codes "ACT" else opts.id_prefix;
  counter = 0;
}

-- terminalStates
unfoldable pub terminal : State → Bool
terminal reverted = true
terminal rejected = true
terminal failed = true
terminal _ = false

unfoldable pub state_eq : State → State → Bool
state_eq pending pending = true
state_eq approved approved = true
state_eq active active = true
state_eq reverted reverted = true
state_eq rejected rejected = true
state_eq failed failed = true
state_eq _ _ = false

pub audit_entry : Option State → State → Text → Text → EnforcementAction → ℕ → AuditEntry
audit_entry from to actor reason a now = record {
  timestamp = now;
  action_id = a.id;
  from_state = from;
  to_state = to;
  actor = actor;
  reason = reason;
  detection_id = a.detection_id;
  target_mac = a.target_mac;
  target_ip = a.target_ip;
  action_type = a.action_type;
}

-- The entry that a change hands to writeAudit, which is nothing without an audit writer.
pub write_audit : Option State → State → Text → Text → EnforcementAction → ℕ → Store → Store
unfolding audit_entry
write_audit from to actor reason a now s =
    if s.auditing
    then record s { audit = s.audit ++ audit_entry from to actor reason a now ∷ [] }
    else s

-- What the loop of `evictLocked` does with one id of the order.
pub data Verdict : Type 0 where
  gone drop hold : Verdict

pub verdict : Option EnforcementAction → ℕ → ℕ → Verdict
verdict none removed target = gone
verdict (some a) removed target = if ltb removed target && terminal a.state then drop else hold

-- The loop: the map and the order that it leaves.
pub evict_loop : List Text → ℕ → ℕ → Assoc EnforcementAction → Assoc EnforcementAction × List Text
evict_loop [] removed target m = (m, [])
evict_loop (id ∷ ids) removed target m = elim (verdict (lookup id m) removed target) [
  | gone ↦ evict_loop ids removed target m
  | drop ↦ evict_loop ids (removed + 1) target (delete id m)
  | hold ↦ let (m', kept) = evict_loop ids removed target m in (m', id ∷ kept)
]

-- evictLocked
pub evict : Store → Store
unfolding evict_loop verdict
evict s =
    let (m, kept) = evict_loop s.order 0 (length s.actions - s.max_actions) s.actions in
    if leb (length s.actions) s.max_actions then s else record s { actions = m; order = kept }

-- time.Duration(ttl) * time.Second, a product of 64-bit integers
expiry : ℕ → ℤ → Option ℤ
expiry now (negsuc n) = none
expiry now (pos n) = if ltb 0 n then some (add_to now (signed64 (n * 1000000000))) else none

-- fmt.Sprintf("%s-%d", prefix, n)
pub action_id : Text → ℕ → Text
action_id prefix n = prefix ++ b'-' ∷ decimal n

-- The arguments of `Create`.
pub record NewAction : Type 0 where
  pub detection_id : Text
  pub target_mac : Text
  pub target_ip : Text
  pub action_type : Text
  pub policy_rule : Text
  pub ttl : ℤ
  pub auto_approved : Bool
  pub domain : Text

pub new_action : NewAction → Text → ℕ → EnforcementAction
unfolding expiry
new_action r id now = record {
  schema_version = enforcement_schema_version;
  id = id;
  timestamp = now;
  detection_id = r.detection_id;
  action_type = r.action_type;
  state = if r.auto_approved then approved else pending;
  target_mac = r.target_mac;
  target_ip = r.target_ip;
  blocked_domain = r.domain;
  policy_rule = r.policy_rule;
  auto_approved = r.auto_approved;
  ttl_seconds = r.ttl;
  expires_at = expiry now r.ttl;
  reverted_at = none;
  approved_by = if r.auto_approved then codes "auto-policy" else [];
  reason = [];
  failure_reason = [];
}

-- Create
unfoldable pub create : NewAction → ℕ → Store → Store × EnforcementAction
unfolding evict write_audit new_action action_id
create r now s =
    let id = action_id s.id_prefix (s.counter + 1) in
    let a = new_action r id now in
    let t = record s {
      counter = s.counter + 1;
      actions = insert id a s.actions;
      order = s.order ++ id ∷ [];
    } in
    (write_audit none a.state (codes "system") (codes "created") a now (evict t), a)

-- The writes of the three kinds of step.
pub moved : State → Text → EnforcementAction → EnforcementAction
moved to actor a = record a {
  state = to;
  approved_by = if state_eq to approved then actor else a.approved_by;
}

pub undone : ℕ → EnforcementAction → EnforcementAction
undone now a = record a { state = reverted; reverted_at = some now }

pub failing : Text → EnforcementAction → EnforcementAction
failing reason a = record a { state = failed; failure_reason = reason }

-- What `transition` does with an action that it found.
move :
    Text
    → State
    → Text
    → Text
    → List State
    → ℕ
    → Store
    → EnforcementAction
    → Store × Option StoreError
move id to actor reason allowed now s a =
    let b = moved to actor a in
    let t =
      write_audit (some a.state) to actor reason b now
        (record s { actions = insert id b s.actions }) in
    if state_eq a.state to
    then (s, none)
    else if exists (λ f. state_eq a.state f) allowed
    then (t, none)
    else (s, some (cannot_transition id a.state to))

-- transition
transition : Text → State → Text → Text → List State → ℕ → Store → Store × Option StoreError
unfolding move moved write_audit state_eq
transition id to actor reason allowed now s = elim (lookup id s.actions) [
  | none ↦ (s, some (not_found id))
  | some a ↦ move id to actor reason allowed now s a
]

-- Approve
unfoldable pub approve : Text → Text → ℕ → Store → Store × Option StoreError
unfolding transition
approve id by = transition id approved by (codes "approved by " ++ by) (pending ∷ [])

-- Reject
unfoldable pub reject : Text → Text → ℕ → Store → Store × Option StoreError
unfolding transition
reject id reason = transition id rejected (codes "operator") reason (pending ∷ [])

-- Activate
unfoldable pub activate : Text → ℕ → Store → Store × Option StoreError
unfolding transition
activate id = transition id active (codes "system") (codes "enforcement applied") (approved ∷ [])

undo : Text → Text → ℕ → Store → EnforcementAction → Store × Option StoreError
undo id reason now s a =
    let b = undone now a in
    let t =
      write_audit (some a.state) reverted (codes "system") reason b now
        (record s { actions = insert id b s.actions }) in
    if state_eq a.state reverted
    then (s, none)
    else if state_eq a.state active || state_eq a.state failed
    then (t, none)
    else (s, some (cannot_revert id a.state))

-- Revert
unfoldable pub revert : Text → Text → ℕ → Store → Store × Option StoreError
unfolding undo undone write_audit state_eq
revert id reason now s = elim (lookup id s.actions) [
  | none ↦ (s, some (not_found id))
  | some a ↦ undo id reason now s a
]

fail : Text → Text → ℕ → Store → EnforcementAction → Store
fail id reason now s a =
    let b = failing reason a in
    write_audit (some a.state) failed (codes "system") reason b now
      (record s { actions = insert id b s.actions })

-- RecordFailure
unfoldable pub record_failure : Text → Text → ℕ → Store → Store
unfolding fail failing write_audit
record_failure id reason now s = elim (lookup id s.actions) [
  | none ↦ s
  | some a ↦ fail id reason now s a
]

-- Get
unfoldable pub get : Text → Store → Option EnforcementAction
get id s = lookup id s.actions

unfoldable pub values : Assoc EnforcementAction → List EnforcementAction
values [] = []
values ((k, a) ∷ m) = a ∷ values m

-- ListByState
unfoldable pub list_by_state : State → Store → List EnforcementAction
unfolding values state_eq
list_by_state state s = keep (λ a. state_eq a.state state) (values s.actions)

-- now.After(deadline), where a deadline is set
unfoldable pub after : ℕ → Option ℤ → Bool
after now none = false
after now (some t) = ltb_ℤ t (pos now)

-- ListExpired
unfoldable pub list_expired : ℕ → Store → List EnforcementAction
unfolding values after state_eq
list_expired now s =
    keep (λ a. state_eq a.state active && after now a.expires_at) (values s.actions)

-- A call of one of the methods that change the store.
pub data Op : Type 0 where
  create_op : NewAction → ℕ → Op
  approve_op reject_op revert_op failure_op : Text → Text → ℕ → Op
  activate_op : Text → ℕ → Op

unfoldable pub exec : Op → Store → Store
exec (create_op r now) s = (create r now s).0
exec (approve_op id by now) s = (approve id by now s).0
exec (reject_op id reason now) s = (reject id reason now s).0
exec (activate_op id now) s = (activate id now s).0
exec (revert_op id reason now) s = (revert id reason now s).0
exec (failure_op id reason now) s = record_failure id reason now s

-- The methods are atomic, so whatever the handlers do at once is a list of calls.
unfoldable pub exec_all : List Op → Store → Store
exec_all [] s = s
exec_all (op ∷ ops) s = exec_all ops (exec op s)
