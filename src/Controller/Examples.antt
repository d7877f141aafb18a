-- ===== src/Controller/Examples.antt =====
-- Tests and examples of the handlers.
use net_soldier.Prelude.{
  ℕ, ◌+◌, ◌≡◌, ◌≤◌, ◌⊎◌, ◌++◌, refl, inl, inr, Bool, true, false, Option, none, some, List, [], ◌∷◌,
  Text, codes, pos, length, str_eq, is_empty, strip_prefix, if◌then◌else◌,
}
use net_soldier.Net.Addr.{v4}
use net_soldier.Net.Samples.{sample_net}
use net_soldier.Events.Action.{pending, EnforcementAction, approved, active, failed, reverted}
use net_soldier.Events.Examples.{sample_event}
use net_soldier.Actions.Store
use net_soldier.Actions.Store.{
  Store, NewAction, Op, create_op, activate_op, exec, exec_all, new_store, get, after,
}
use net_soldier.Actions.Store.Validity.{IsValid, new_store-IsValid, exec_all-IsValid}
use net_soldier.Policy.Allowlist.{Allowlist, contains}
use net_soldier.Policy.Rules.{Policy, default_policy}
use net_soldier.Policy.Rules.Gates.{IsBlockable}
use net_soldier.Drivers.{Driver}
use net_soldier.Drivers.Examples.{sample_action}
use net_soldier.Controller.{World, handle_evaluate, handle_revert, apply_action, ttl_tick}
use net_soldier.Controller.Enforcement.{state_of, apply_action_honest}
use net_soldier.Controller.Release.{handle_revert_active, handle_revert_twice}
use net_soldier.Controller.Evaluation.{handle_evaluate_safe}
use net_soldier.Controller.Ticker.{Works, ttl_tick_reverts}
use net_soldier.Prelude.{arith}
use net_soldier.Controller.{handle_approve}
use net_soldier.Controller.Approval.{IsSettled, handle_approve_pending}

-- A network of the ids that are enforced on it.
abbrev willing : Driver (List Text)
willing = record {
  apply = λ a n. (a.id ∷ n, none);
  revert = λ a n. ([], none);
  name = codes "willing";
}

-- A driver that cannot revert.
abbrev broken : Driver (List Text)
broken = record {
  apply = λ a n. (a.id ∷ n, none);
  revert = λ a n. (n, some (codes "down"));
  name = codes "broken";
}

abbrev all_willing : Text → Option (Driver (List Text))
all_willing action_type = some willing

abbrev all_broken : Text → Option (Driver (List Text))
all_broken action_type = some broken

abbrev store_of : EnforcementAction → Store
store_of a = record {
  actions = (codes "ACT-1", a) ∷ [];
  order = codes "ACT-1" ∷ [];
  auditing = false;
  audit = [];
  max_actions = 10;
  id_prefix = codes "ACT";
  counter = 1;
}

abbrev quiet : World (List Text)
quiet = record {
  store = new_store true (record { max_actions = pos 10; id_prefix = [] });
  network = [];
}

handle_evaluate_safe_example :
    ((handle_evaluate all_willing sample_net default_policy true 7
        (some sample_event)
        quiet).0.network
      ≡ quiet.network)
    ⊎ ((true ≡ true) × IsBlockable sample_net default_policy sample_event)
handle_evaluate_safe_example =
    handle_evaluate_safe all_willing sample_net default_policy true 7 sample_event quiet

abbrev friendly : Policy
friendly = record default_policy {
  allowlist = record { macs = []; addrs = v4 167772165 ∷ []; nets = [] };
}

listed : contains sample_net [] (codes "10.0.0.5") friendly.allowlist ≡ true
unfolding contains is_empty str_eq net_soldier.Prelude.trim_space net_soldier.Net.Addr.addr_eq
    net_soldier.Policy.Allowlist.canonical_addr net_soldier.Net.Addr.with_zone
    net_soldier.Net.Addr.is_4in6
listed = refl

abbrev approved_action : EnforcementAction
approved_action = record sample_action { state = approved }

abbrev awaiting : World (List Text)
awaiting = record { store = store_of approved_action; network = [] }

finds_approved : get (codes "ACT-1") awaiting.store ≡ some approved_action
unfolding get net_soldier.Prelude.lookup str_eq
finds_approved = refl

apply_action_honest_example :
    ((d : Driver (List Text)) × (all_willing approved_action.action_type ≡ some d)
      × ((d.apply approved_action awaiting.network).1 ≡ none)
      × (state_of (codes "ACT-1") (apply_action all_willing 7 approved_action awaiting).store
          ≡ some active))
    ⊎ (state_of (codes "ACT-1") (apply_action all_willing 7 approved_action awaiting).store
        ≡ some failed)
apply_action_honest_example =
    apply_action_honest all_willing 7 approved_action awaiting finds_approved refl

other_id : str_eq (codes "ACT-1") (codes "ACT-2") ≡ false
unfolding str_eq
other_id = refl

abbrev enforced : World (List Text)
enforced = record { store = store_of sample_action; network = codes "ACT-1" ∷ [] }

finds_active : get (codes "ACT-1") enforced.store ≡ some sample_action
unfolding get net_soldier.Prelude.lookup str_eq
finds_active = refl

handle_revert_active_example :
    let t = handle_revert all_willing 8 (codes "ACT-1") [] enforced in
    ((all_willing sample_action.action_type ≡ none) × (t.1.status ≡ 503) × (t.0 ≡ enforced))
    ⊎ ((d : Driver (List Text)) × (all_willing sample_action.action_type ≡ some d)
        × (t.0.network ≡ (d.revert sample_action enforced.network).0)
        × (((d.revert sample_action enforced.network).1 ≡ none)
              × (t.1.status ≡ 200)
              × (state_of (codes "ACT-1") t.0.store ≡ some reverted)
            ⊎ ((e : Text) × ((d.revert sample_action enforced.network).1 ≡ some e)
                × (t.1.status ≡ 502)
                × (state_of (codes "ACT-1") t.0.store ≡ some failed))))
handle_revert_active_example =
    handle_revert_active all_willing 8 (codes "ACT-1") [] sample_action enforced finds_active refl

handle_revert_twice_example :
    let first = handle_revert all_broken 8 (codes "ACT-1") [] enforced in
    let second = handle_revert all_broken 9 (codes "ACT-1") [] first.0 in
    (first.1.status ≡ 502)
    × (second.1.status ≡ 200)
    × (state_of (codes "ACT-1") second.0.store ≡ some reverted)
    × (second.0.network ≡ codes "ACT-1" ∷ [])
handle_revert_twice_example =
    handle_revert_twice all_broken 8 9 (codes "ACT-1") [] sample_action broken enforced finds_active
      refl refl refl

abbrev sample_new : NewAction
sample_new = record {
  detection_id = codes "d1";
  target_mac = codes "02-00-AB-CD-10-FF";
  target_ip = codes "10.0.0.5";
  action_type = codes "dns_sinkhole";
  policy_rule = codes "auto";
  ttl = pos 60;
  auto_approved = true;
  domain = codes "Evil.example.";
}

abbrev calls : List Op
calls = create_op sample_new 5 ∷ activate_op (codes "ACT-1") 6 ∷ []

-- The world that these calls leave.
abbrev running : World (List Text)
running = record { store = exec_all calls quiet.store; network = codes "ACT-1" ∷ [] }

running-IsValid : IsValid running.store
running-IsValid =
    exec_all-IsValid calls quiet.store
      (new_store-IsValid true (record { max_actions = pos 10; id_prefix = [] }))

finds_running : get (codes "ACT-1") running.store ≡ some sample_action
unfolding get exec_all exec net_soldier.Prelude.lookup Store.activate Store.create
    net_soldier.Prelude.insert new_store str_eq is_empty net_soldier.Prelude.decimal
    net_soldier.Prelude.add_to
finds_running = refl

late : after 90000000000 sample_action.expires_at ≡ true
unfolding after
late = refl

-- A driver for the sinkhole alone.
abbrev sinkhole_only : Text → Option (Driver (List Text))
sinkhole_only t = if str_eq t (codes "dns_sinkhole") then some willing else none

willing-Works : Works sinkhole_only sample_action
unfolding str_eq
willing-Works = (willing, refl, λ n. refl)

ttl_tick_reverts_example :
    state_of (codes "ACT-1") (ttl_tick sinkhole_only 90000000000 running).store ≡ some reverted
ttl_tick_reverts_example =
    ttl_tick_reverts sinkhole_only 90000000000 running (codes "ACT-1") sample_action running-IsValid
      willing-Works finds_running refl late

abbrev waiting_action : EnforcementAction
waiting_action = record sample_action { state = pending; auto_approved = false; approved_by = [] }

abbrev manual_calls : List Op
manual_calls = create_op (record sample_new { auto_approved = false }) 5 ∷ []

-- A world with one action that waits for an operator.
abbrev waiting : World (List Text)
waiting = record { store = exec_all manual_calls quiet.store; network = [] }

waiting-IsValid : IsValid waiting.store
waiting-IsValid =
    exec_all-IsValid manual_calls quiet.store
      (new_store-IsValid true (record { max_actions = pos 10; id_prefix = [] }))

finds_waiting : get (codes "ACT-1") waiting.store ≡ some waiting_action
unfolding get exec_all exec net_soldier.Prelude.lookup Store.create net_soldier.Prelude.insert
    new_store str_eq is_empty net_soldier.Prelude.decimal net_soldier.Prelude.add_to
finds_waiting = refl

handle_approve_pending_example :
    IsSettled all_willing
      (codes "ACT-1")
      waiting_action
      []
      (handle_approve all_willing 9 (codes "ACT-1") (codes "ann") waiting)
handle_approve_pending_example =
    handle_approve_pending all_willing 9 (codes "ACT-1") (codes "ann") waiting_action waiting
      waiting-IsValid finds_waiting refl
