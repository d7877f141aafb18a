-- ===== src/Actions/Store/Delivery.antt =====
-- What becomes of the audit entries. writeAudit runs after the mutex is released, so the entries of calls
-- that overlap reach the audit writer in any order, and a write may fail, which is only logged.
use mathlib.Core.List.{Perm}
use mathlib.Core.List.Perm
use net_soldier.Prelude.{
  ℕ, ◌+◌, none, codes, arith, ◌≡◌, refl, ap, ◌∙◌, sym, Bool-cases, inl, inr, true, some, List, [],
  ◌∷◌, ◌++◌, Text, Option,
}
use net_soldier.Events.Action.{State, EnforcementAction}
use net_soldier.Actions.Store.{
  Store, StoreOptions, AuditEntry, Op, exec, create_op, approve_op, reject_op, revert_op,
  failure_op, activate_op, write_audit, audit_entry, create, action_id, new_action, evict,
  new_store,
}
use net_soldier.Actions.Store.Changes.{
  Change, stay, written, approve-Change, reject-Change, activate-Change, revert-Change,
  record_failure-Change,
}
use net_soldier.Actions.Store.Validity.{IsValid, inserted}
use net_soldier.Actions.Store.Audit.{Agrees}

-- A store that handlers call at once: the entries that are on their way to the audit writer, those that
-- it wrote, the newest first, and those whose write failed.
pub data Interleaves (opts : StoreOptions)
    : Store → List AuditEntry → List AuditEntry → List AuditEntry → Type 0 where
  opened : Interleaves opts (new_store true opts) [] [] []
  called :
      {s : Store} {flight log lost : List AuditEntry} (op : Op) (fresh : List AuditEntry)
      → Interleaves opts s flight log lost
      → (exec op s).audit ≡ s.audit ++ fresh
      → Interleaves opts (exec op s) (fresh ++ flight) log lost
  wrote :
      {s : Store} {log lost : List AuditEntry} (before after : List AuditEntry) (e : AuditEntry)
      → Interleaves opts s (before ++ e ∷ after) log lost
      → Interleaves opts s (before ++ after) (e ∷ log) lost
  write_failed :
      {s : Store} {log lost : List AuditEntry} (before after : List AuditEntry) (e : AuditEntry)
      → Interleaves opts s (before ++ e ∷ after) log lost
      → Interleaves opts s (before ++ after) log (e ∷ lost)

++_nil : {A : Type 0} (xs : List A) → xs ++ [] ≡ xs
++_nil [] = refl
++_nil (x ∷ xs) = ap (λ t. x ∷ t) (++_nil xs)

-- Each call only adds entries, so that every call can be a step.
Appends : Store → Store → Type 0
Appends s t = (fresh : List AuditEntry) × (t.audit ≡ s.audit ++ fresh)

nothing : (s : Store) → Appends s s
unfolding Appends
nothing s = ([], sym (++_nil s.audit))

Appends-write_audit :
    (from : Option State) (to : State) (actor reason : Text) (a : EnforcementAction) (now : ℕ)
    (s t : Store)
    → t.audit ≡ s.audit
    → Appends s (write_audit from to actor reason a now t)
unfolding Appends write_audit nothing
Appends-write_audit from to actor reason a now s t h = elim (Bool-cases t.auditing) [
  | inl on ↦
      rw (write_audit, on)
        (
          audit_entry from to actor reason a now ∷ [],
          ap (λ es. es ++ audit_entry from to actor reason a now ∷ []) h,
        )
  | inr off ↦ rw (write_audit, off) ((nothing s).0, h ∙ (nothing s).1)
]

Change-Appends : {id : Text} {s t : Store} → Change id s t → Appends s t
Change-Appends {id} {s} stay = nothing s
Change-Appends {id} {s} (written a b actor reason now found e same) =
    Appends-write_audit (some a.state) b.state actor reason b now s _ refl

evict-audit : (s : Store) → (evict s).audit ≡ s.audit
unfolding evict
evict-audit s = ground arith

exec-Appends : (op : Op) (s : Store) → Appends s (exec op s)
unfolding exec create
exec-Appends (create_op r now) s =
    let id = action_id s.id_prefix (s.counter + 1) in
    let a = new_action r id now in
    Appends-write_audit none a.state (codes "system") (codes "created") a now s
      (evict (inserted a id s)) (evict-audit (inserted a id s))
exec-Appends (approve_op id by now) s = Change-Appends (approve-Change id by now s)
exec-Appends (reject_op id reason now) s = Change-Appends (reject-Change id reason now s)
exec-Appends (activate_op id now) s = Change-Appends (activate-Change id now s)
exec-Appends (revert_op id reason now) s = Change-Appends (revert-Change id reason now s)
exec-Appends (failure_op id reason now) s = Change-Appends (record_failure-Change id reason now s)

record Accounts (s : Store) (flight log lost : List AuditEntry) : Type 0 where
  valid : IsValid s
  agrees : Agrees s
  all_of : Perm (flight ++ (log ++ lost)) s.audit
