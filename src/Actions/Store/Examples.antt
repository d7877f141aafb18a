-- ===== src/Actions/Store/Examples.antt =====
-- Tests and examples of the store.
use net_soldier.Prelude.{
  ltb, arith, ◌+◌, ◌*◌, ◌<◌, ◌≡◌, ◌≤◌, ◌⊎◌, refl, true, some, none, List, [], ◌∷◌, codes, pos,
  lookup, add_to, length,
}
use net_soldier.Events.Action.{EnforcementAction, approved, active, reverted}
use net_soldier.Actions.Store.{
  AuditEntry, audit_entry, new_action, Store, StoreOptions, NewAction, Op, create_op, activate_op,
  revert_op, exec, exec_all, create, new_store,
}
use net_soldier.Actions.Store.Validity.{IsValid, new_store-IsValid, exec_all-IsValid}
use net_soldier.Actions.Store.Lifecycle.{Evolves, exec-Evolves, create_bound}
use net_soldier.Actions.Store.Eviction.{IsLive}
use net_soldier.Actions.Store.{after}
use net_soldier.Actions.Store.Deadline.{create_deadline}

abbrev options : StoreOptions
options = record { max_actions = pos 1; id_prefix = codes "ACT" }

abbrev sample_new : NewAction
sample_new = record {
  detection_id = codes "d1";
  target_mac = codes "02:00:00:00:00:05";
  target_ip = codes "10.0.0.5";
  action_type = codes "dns_sinkhole";
  policy_rule = codes "auto";
  ttl = pos 60;
  auto_approved = true;
  domain = codes "evil.example";
}

-- A full store: one action, enforced.
abbrev first_calls : List Op
first_calls = create_op sample_new 5 ∷ activate_op (codes "ACT-1") 6 ∷ []

abbrev calls : List Op
calls =
    create_op sample_new 5
    ∷ activate_op (codes "ACT-1") 6
    ∷ revert_op (codes "ACT-1") (codes "manual") 7
    ∷ []

abbrev after_enforced : Store
after_enforced = exec_all first_calls (new_store true options)

after_enforced-IsValid : IsValid after_enforced
after_enforced-IsValid =
    exec_all-IsValid first_calls (new_store true options) (new_store-IsValid true options)

exec_all-IsValid_example : IsValid (exec_all calls (new_store true options))
exec_all-IsValid_example =
    exec_all-IsValid calls (new_store true options) (new_store-IsValid true options)

exec-Evolves_example : Evolves (lookup (codes "ACT-1") after_enforced.actions) (
    lookup
      (codes "ACT-1")
      (exec (revert_op (codes "ACT-1") (codes "manual") 7) after_enforced).actions)
exec-Evolves_example =
    exec-Evolves (revert_op (codes "ACT-1") (codes "manual") 7) after_enforced (codes "ACT-1")
      after_enforced-IsValid

create_bound_example :
    (length (create sample_new 8 after_enforced).0.actions ≤ after_enforced.max_actions)
    ⊎ IsLive (create sample_new 8 after_enforced).0.actions
create_bound_example = create_bound sample_new 8 after_enforced after_enforced-IsValid

abbrev after_calls : Store
after_calls = exec_all calls (new_store true options)

abbrev lifted : EnforcementAction
lifted = record {
  schema_version = codes "1.0";
  id = codes "ACT-1";
  timestamp = 5;
  detection_id = codes "d1";
  action_type = codes "dns_sinkhole";
  state = reverted;
  target_mac = codes "02:00:00:00:00:05";
  target_ip = codes "10.0.0.5";
  blocked_domain = codes "evil.example";
  policy_rule = codes "auto";
  auto_approved = true;
  ttl_seconds = pos 60;
  expires_at = some (pos 60000000005);
  reverted_at = some 7;
  approved_by = codes "auto-policy";
  reason = [];
  failure_reason = [];
}

-- The three entries, of which the last is written first and the second is lost.
abbrev created_entry : AuditEntry
created_entry =
    audit_entry none approved (codes "system") (codes "created")
      (new_action sample_new (codes "ACT-1") 5) 5

abbrev activated_entry : AuditEntry
activated_entry =
    audit_entry (some approved) active (codes "system") (codes "enforcement applied")
      (new_action sample_new (codes "ACT-1") 5) 6

abbrev reverted_entry : AuditEntry
reverted_entry = audit_entry (some active) reverted (codes "system") (codes "manual") lifted 7

in_range : 60 ≤ 9223372036
in_range = omega arith

positive : 0 < 60
positive = omega arith

create_deadline_example :
    after 60000000006 (create sample_new 5 after_enforced).1.expires_at
    ≡ ltb (5 + 60 * 1000000000) 60000000006
create_deadline_example =
    create_deadline sample_new 5 60 60000000006 after_enforced refl positive in_range

-- One second more than the bound, and the deadline has passed at once.
passes_at_once :
    after 1700000000000000000
      (create
        (record sample_new { ttl = pos 9223372037 })
        1700000000000000000
        after_enforced).1.expires_at
    ≡ true
unfolding create after add_to
passes_at_once = refl
