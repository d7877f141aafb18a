-- ===== src/Controller.antt =====
-- apps/killswitch-controller/cmd/killswitch-controller/main.go: the handlers of the killswitch. The
-- world is the store with the network; the drivers are found by `resolve`. A request reads the
-- clock once, a JSON body is its decoded value, and error texts are cut to fixed phrases.
pub mod Enforcement
pub mod Approval
pub mod Evaluation
pub mod Release
pub mod Ticker
pub mod Auth
pub mod Setup
mod Examples
use net_soldier.Prelude.{
  ℕ, ◌++◌, Bool, true, false, not, ◌&&◌, ◌||◌, Option, none, some, List, [], ◌∷◌, Text, codes,
  is_empty, if◌then◌else◌,
}
use net_soldier.Net.Addr.{NetParser}
use net_soldier.Events.Action.{
  State, EnforcementAction, pending, approved, active, reverted, rejected, failed,
}
use net_soldier.Events.Detection.{DetectionEvent}
use net_soldier.Actions.Store
use net_soldier.Actions.Store.{
  Store, StoreError, not_found, cannot_revert, cannot_transition, NewAction, state_eq,
  list_by_state, list_expired,
}
use net_soldier.Policy.Rules.{Policy, Decision, Verdict, auto_block, ignore, evaluate}
use net_soldier.Drivers.{Driver}

pub record World (W : Type 0) : Type 0 where
  pub store : Store
  pub network : W

pub data Body : Type 0 where
  error_body : Text → Body
  action_body : Option EnforcementAction → Body
  actions_body : List EnforcementAction → Body
  decision_body : Decision → Option EnforcementAction → Body

pub record Response : Type 0 where
  pub status : ℕ
  pub body : Body

-- writeJSON, writeJSONError
abbrev pub reply : ℕ → Body → Response
reply status body = record { status = status; body = body }

state_text : State → Text
state_text pending = codes "pending"
state_text approved = codes "approved"
state_text active = codes "active"
state_text reverted = codes "reverted"
state_text rejected = codes "rejected"
state_text failed = codes "failed"

-- The texts of the store's errors.
error_text : StoreError → Text
unfolding state_text
error_text (not_found id) = codes "action " ++ id ++ codes " not found"
error_text (cannot_revert id x) =
    codes "action " ++ id ++ codes " is " ++ state_text x ++ codes ", cannot revert"
error_text (cannot_transition id x to) =
    codes "action "
    ++ id
    ++ codes " is "
    ++ state_text x
    ++ codes ", cannot transition to "
    ++ state_text to

-- The request's text, or a default where it is empty.
or_default : Text → Text → Text
or_default fallback t = if is_empty t then fallback else t

no_driver : EnforcementAction → Text
no_driver a = codes "no driver: no driver configured for action type " ++ a.action_type

-- The decision, with auto-block lowered to pending where it is not allowed.
lower : Bool → Decision → Decision
lower allowed d = elim d.action [
  | auto_block ↦ if allowed then d else record d {
    action = Verdict.pending;
    reason = codes "pending (auto-block disabled: allowlist is empty): " ++ d.reason;
  }
  | _ ↦ d
]

-- The arguments of `store.Create` in the handler.
new_of : DetectionEvent → Decision → Bool → NewAction
new_of ev d auto = record {
  detection_id = ev.id;
  target_mac = ev.client_mac;
  target_ip = ev.client_ip;
  action_type = d.action_type;
  policy_rule = d.reason;
  ttl = d.ttl_seconds;
  auto_approved = auto;
  domain = ev.domain;
}

module _ {W : Type 0} (resolve : Text → Option (Driver W)) where
  -- What follows the driver's Apply.
  applied : ℕ → EnforcementAction → Store → W × Option Text → World W
  applied now a s (n, none) = record { store = (Store.activate a.id now s).0; network = n }
  applied now a s (n, some e) = record { store = Store.record_failure a.id e now s; network = n }

  -- applyAction
  unfoldable pub apply_action : ℕ → EnforcementAction → World W → World W
  unfolding applied no_driver
  apply_action now a w = elim (resolve a.action_type) [
    | none ↦ record w { store = Store.record_failure a.id (no_driver a) now w.store }
    | some d ↦ applied now a w.store (d.apply a w.network)
  ]

  confirmed : ℕ → Text → EnforcementAction → Store → W × Option Text → World W
  confirmed now reason a s (n, none) = record {
    store = (Store.revert a.id reason now s).0;
    network = n;
  }
  confirmed now reason a s (n, some e) = record { store = s; network = n }

  -- revertOne
  unfoldable pub revert_one : ℕ → Text → EnforcementAction → World W → World W
  unfolding confirmed
  revert_one now reason a w = elim (resolve a.action_type) [
    | none ↦ w
    | some d ↦ confirmed now reason a w.store (d.revert a w.network)
  ]

  revert_each : ℕ → List EnforcementAction → World W → World W
  revert_each now [] w = w
  revert_each now (a ∷ as') w = revert_each now as' (revert_one now (codes "TTL expired") a w)

  -- One tick of runSafeTTLRevert.
  unfoldable pub ttl_tick : ℕ → World W → World W
  unfolding revert_each
  ttl_tick now w = revert_each now (list_expired now w.store) w

  -- The branches of handleEvaluate's switch.
  act : ℕ → DetectionEvent → Decision → Verdict → World W → World W × Response
  act now ev d auto_block w =
      let (s, a) = Store.create (new_of ev d true) now w.store in
      let w' = apply_action now a (record w { store = s }) in
      (w', reply 200 (decision_body d (Store.get a.id w'.store)))
  act now ev d Verdict.pending w =
      let (s, a) = Store.create (new_of ev d false) now w.store in
      (record w { store = s }, reply 200 (decision_body d (Store.get a.id s)))
  act now ev d ignore w = (w, reply 200 (decision_body d (Store.get [] w.store)))

  -- handleEvaluate
  unfoldable pub handle_evaluate :
      NetParser → Policy → Bool → ℕ → Option DetectionEvent → World W → World W × Response
  unfolding act lower new_of
  handle_evaluate net p allowed now none w = (w, reply 400 (error_body (codes "invalid body")))
  handle_evaluate net p allowed now (some ev) w =
      let d = lower allowed (evaluate net p ev) in act now ev d d.action w

  -- The enforcement that follows an approval.
  enforce_approved : ℕ → Option EnforcementAction → World W → World W
  enforce_approved now none w = w
  enforce_approved now (some a) w = if state_eq a.state approved then apply_action now a w else w

  after_approve : ℕ → Text → Store × Option StoreError → World W → World W × Response
  after_approve now id (s, some e) w =
      (record w { store = s }, reply 409 (error_body (error_text e)))
  after_approve now id (s, none) w =
      let w' = enforce_approved now (Store.get id s) (record w { store = s }) in
      (w', reply 200 (action_body (Store.get id w'.store)))

  -- handleApprove
  unfoldable pub handle_approve : ℕ → Text → Text → World W → World W × Response
  unfolding after_approve enforce_approved or_default error_text
  handle_approve now id by w =
      after_approve now id (Store.approve id (or_default (codes "operator") by) now w.store) w

  settled : Text → Store × Option StoreError → W → World W × Response
  settled id (s, some e) n =
      (record { store = s; network = n }, reply 409 (error_body (error_text e)))
  settled id (s, none) n =
      (record { store = s; network = n }, reply 200 (action_body (Store.get id s)))

  -- handleReject
  unfoldable pub handle_reject : ℕ → Text → Text → World W → World W × Response
  unfolding settled or_default error_text
  handle_reject now id reason w =
      settled id (Store.reject id (or_default (codes "rejected by operator") reason) now w.store)
        w.network

  -- What follows the driver's Revert in handleRevert.
  released : ℕ → Text → Text → Store → W × Option Text → World W × Response
  released now id reason s (n, some e) = (
    record { store = Store.record_failure id (codes "revert failed: " ++ e) now s; network = n },
    reply 502 (error_body (codes "revert failed, enforcement still active: " ++ e)),
  )
  released now id reason s (n, none) = settled id (Store.revert id reason now s) n

  release : ℕ → Text → Text → EnforcementAction → World W → World W × Response
  release now id reason a w = elim (resolve a.action_type) [
    | none ↦ (
      w,
      reply 503 (error_body (codes "no driver for action type; enforcement may still be active")),
    )
    | some d ↦ released now id reason w.store (d.revert a w.network)
  ]

  release_found : ℕ → Text → Text → Option EnforcementAction → World W → World W × Response
  release_found now id reason none w = (w, reply 404 (error_body (codes "not found")))
  release_found now id reason (some a) w =
      if state_eq a.state active
      then release now id reason a w
      else settled id (Store.revert id reason now w.store) w.network

  -- handleRevert
  unfoldable pub handle_revert : ℕ → Text → Text → World W → World W × Response
  unfolding release_found release released settled or_default error_text
  handle_revert now id reason w =
      release_found now id (or_default (codes "manual revert") reason) (Store.get id w.store) w

  shown : Option EnforcementAction → Response
  shown none = reply 404 (error_body (codes "not found"))
  shown (some a) = reply 200 (action_body (some a))

  -- handleGetAction
  unfoldable pub handle_get_action : Text → World W → Response
  unfolding shown
  handle_get_action id w = shown (Store.get id w.store)

  -- handleListByState
  unfoldable pub handle_list_by_state : State → World W → Response
  handle_list_by_state state w = reply 200 (actions_body (list_by_state state w.store))
