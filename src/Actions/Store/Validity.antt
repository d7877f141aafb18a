-- ===== src/Actions/Store/Validity.antt =====
-- The invariant of the store: ids are fresh, keys are unique and name their actions, and the
-- order lists every key.
use net_soldier.Prelude.{
  ℕ, ◌+◌, ◌-◌, ◌<◌, ◌≡◌, refl, inl, inr, Bool, true, Option, none, some, List, [], ◌∷◌, ◌++◌, arith,
  Text, lookup, insert, delete, lookup-insert, lookup-delete, Assoc, str_eq, str_eq_iff, Bool-cases,
  exists-append, leb, length, IsUnique, insert-IsUnique, delete-IsUnique, decimal,
  decimal-injective,
}
use net_soldier.Events.Action.{State, EnforcementAction}
use net_soldier.Actions.Store.{
  Store, StoreOptions, NewAction, Op, exec, exec_all, create_op, approve_op, reject_op, revert_op,
  failure_op, activate_op, evict_loop, evict, verdict, write_audit, create, action_id, new_action,
  new_store,
}
use net_soldier.Actions.Store.Changes.{
  Change, stay, written, approve-Change, reject-Change, activate-Change, revert-Change,
  record_failure-Change,
}
use net_soldier.Actions.Store.Eviction.{evict_loop-Survives, listed, Verdict-cases, verdict-gone}

pub record IsValid (s : Store) : Type 0 where
  pub fresh : (n : ℕ) → s.counter < n → lookup (action_id s.id_prefix n) s.actions ≡ none
  pub unique : IsUnique s.actions
  pub keyed : (k : Text) (a : EnforcementAction) → lookup k s.actions ≡ some a → a.id ≡ k
  pub ordered :
      (j : Text) (a : EnforcementAction) → lookup j s.actions ≡ some a → listed j s.order ≡ true

-- The audit record touches nothing else.
pub write_audit-IsValid :
    (from : Option State) (to : State) (actor reason : Text) (a : EnforcementAction) (now : ℕ)
    (s : Store)
    → IsValid s
    → IsValid (write_audit from to actor reason a now s)
unfolding write_audit
write_audit-IsValid from to actor reason a now s v = elim (Bool-cases s.auditing) [
  | inl on ↦
      rw on (record { fresh = v.fresh; unique = v.unique; keyed = v.keyed; ordered = v.ordered })
  | inr off ↦
      rw off (record { fresh = v.fresh; unique = v.unique; keyed = v.keyed; ordered = v.ordered })
]

-- Overwriting the action under its own id.
overwrite-IsValid :
    (id : Text) (s : Store) (a b : EnforcementAction)
    → IsValid s
    → lookup id s.actions ≡ some a
    → b.id ≡ a.id
    → IsValid (record s { actions = insert id b s.actions })
overwrite-IsValid id s a b v found same = record {
  fresh = λ n h. ground (
    arith,
    lookup-insert id (action_id s.id_prefix n) b s.actions,
    v.fresh n h,
    str_eq_iff id (action_id s.id_prefix n),
  );
  unique = insert-IsUnique id b s.actions v.unique;
  keyed = λ k c at.
      ground (arith, lookup-insert id k b s.actions, v.keyed k c, v.keyed id a, str_eq_iff id k);
  ordered = λ j c at.
      ground
        (arith, lookup-insert id j b s.actions, v.ordered j c, v.ordered id a, str_eq_iff id j);
}

pub Change-IsValid : {id : Text} {s t : Store} → Change id s t → IsValid s → IsValid t
Change-IsValid stay v = v
Change-IsValid {id} {s} (written a b actor reason now found e same) v =
    write_audit-IsValid (some a.state) b.state actor reason b now
      (record s { actions = insert id b s.actions }) (overwrite-IsValid id s a b v found same.id)

append_cancel : (p xs ys : Text) → (p ++ xs) ≡ (p ++ ys) → xs ≡ ys
append_cancel [] xs ys e = e
append_cancel (c ∷ p) xs ys e = append_cancel p xs ys (cc e)

-- Two ids of one prefix are equal only if their numbers are.
pub action_id-injective : (p : Text) (m n : ℕ) → action_id p m ≡ action_id p n → m ≡ n
unfolding action_id
action_id-injective p m n e =
    let tails : (b'-' ∷ decimal m) ≡ (b'-' ∷ decimal n) = append_cancel p _ _ e in
    decimal-injective m n (cc tails)

evict_loop-IsUnique :
    (ids : List Text) (removed target : ℕ) (m : Assoc EnforcementAction)
    → IsUnique m
    → IsUnique (evict_loop ids removed target m).0
unfolding evict_loop
evict_loop-IsUnique [] removed target m u = u
evict_loop-IsUnique (id ∷ ids) removed target m u =
    elim (Verdict-cases (verdict (lookup id m) removed target)) [
      | inl e ↦ rw (e, evict_loop) (evict_loop-IsUnique ids removed target m u)
      | inr (inl e) ↦
          rw (e, evict_loop)
            (evict_loop-IsUnique ids (removed + 1) target (delete id m) (delete-IsUnique id m u))
      | inr (inr e) ↦ rw (e, evict_loop) (evict_loop-IsUnique ids removed target m u)
    ]

-- What is not in the map before the loop is not in it afterwards.
evict_loop_absent :
    (ids : List Text) (removed target : ℕ) (m : Assoc EnforcementAction) (j : Text)
    → lookup j m ≡ none
    → lookup j (evict_loop ids removed target m).0 ≡ none
evict_loop_absent ids removed target m j h =
    ground (arith, evict_loop-Survives ids removed target m j)

evict_loop-listed :
    (ids : List Text) (removed target : ℕ) (m : Assoc EnforcementAction) (j : Text)
    (a : EnforcementAction)
    → lookup j (evict_loop ids removed target m).0 ≡ some a
    → listed j ids ≡ true
    → listed j (evict_loop ids removed target m).1 ≡ true
unfolding evict_loop
evict_loop-listed [] removed target m j a = λ h l. l
evict_loop-listed (id ∷ ids) removed target m j a =
    elim (Verdict-cases (verdict (lookup id m) removed target)) [
      | inl e ↦
          rw (e, evict_loop)
            (λ h l. ground (
              arith,
              evict_loop-listed ids removed target m j a h,
              str_eq_iff id j,
              verdict-gone (lookup id m) removed target e,
              evict_loop_absent ids removed target m j,
            ))
      | inr (inl e) ↦
          rw (e, evict_loop)
            (λ h l. ground (
              arith,
              evict_loop-listed ids (removed + 1) target (delete id m) j a h,
              lookup-delete id j m,
              evict_loop_absent ids (removed + 1) target (delete id m) j,
            ))
      | inr (inr e) ↦
          rw (e, evict_loop) (λ h l. ground (arith, evict_loop-listed ids removed target m j a h))
    ]

evict-IsValid : (s : Store) → IsValid s → IsValid (evict s)
unfolding evict
evict-IsValid s v =
    let target = length s.actions - s.max_actions in
    elim (Bool-cases (leb (length s.actions) s.max_actions)) [
      | inl small ↦ rw small v
      | inr large ↦ rw large (record {
        fresh = λ n h. evict_loop_absent s.order 0 target s.actions _ (v.fresh n h);
        unique = evict_loop-IsUnique s.order 0 target s.actions v.unique;
        keyed =
            λ k a h. ground (arith, evict_loop-Survives s.order 0 target s.actions k, v.keyed k a);
        ordered = λ j a h.
            evict_loop-listed s.order 0 target s.actions j a h
              (ground (arith, evict_loop-Survives s.order 0 target s.actions j, v.ordered j a));
      })
    ]

-- The store between the insertion of a new action and the eviction.
abbrev pub inserted : EnforcementAction → Text → Store → Store
inserted a id s = record s {
  counter = s.counter + 1;
  actions = insert id a s.actions;
  order = s.order ++ id ∷ [];
}

pub insert-IsValid :
    (a : EnforcementAction) (s : Store)
    → IsValid s
    → a.id ≡ action_id s.id_prefix (s.counter + 1)
    → IsValid (inserted a (action_id s.id_prefix (s.counter + 1)) s)
insert-IsValid a s v named =
    let id = action_id s.id_prefix (s.counter + 1) in
    record {
      fresh = λ n h. ground (
        arith,
        lookup-insert id (action_id s.id_prefix n) a s.actions,
        v.fresh n,
        str_eq_iff id (action_id s.id_prefix n),
        action_id-injective s.id_prefix (s.counter + 1) n,
      );
      unique = insert-IsUnique id a s.actions v.unique;
      keyed =
          λ k c at. ground (arith, lookup-insert id k a s.actions, v.keyed k c, str_eq_iff id k);
      ordered = λ j c at. ground (
        arith,
        lookup-insert id j a s.actions,
        v.ordered j c,
        exists-append (λ k. str_eq k j) s.order (id ∷ []),
      );
    }

pub create-IsValid : (r : NewAction) (now : ℕ) (s : Store) → IsValid s → IsValid (create r now s).0
unfolding create
create-IsValid r now s v =
    let id = action_id s.id_prefix (s.counter + 1) in
    let a = new_action r id now in
    write_audit-IsValid none a.state _ _ a now (evict (inserted a id s))
      (evict-IsValid (inserted a id s) (insert-IsValid a s v refl))

pub exec-IsValid : (op : Op) (s : Store) → IsValid s → IsValid (exec op s)
unfolding exec
exec-IsValid (create_op r now) s v = create-IsValid r now s v
exec-IsValid (approve_op id by now) s v = Change-IsValid (approve-Change id by now s) v
exec-IsValid (reject_op id reason now) s v = Change-IsValid (reject-Change id reason now s) v
exec-IsValid (activate_op id now) s v = Change-IsValid (activate-Change id now s) v
exec-IsValid (revert_op id reason now) s v = Change-IsValid (revert-Change id reason now s) v
exec-IsValid (failure_op id reason now) s v =
    Change-IsValid (record_failure-Change id reason now s) v

pub exec_all-IsValid : (ops : List Op) (s : Store) → IsValid s → IsValid (exec_all ops s)
unfolding exec_all
exec_all-IsValid [] s v = v
exec_all-IsValid (op ∷ ops) s v = exec_all-IsValid ops (exec op s) (exec-IsValid op s v)

pub new_store-IsValid : (auditing : Bool) (opts : StoreOptions) → IsValid (new_store auditing opts)
unfolding new_store lookup
new_store-IsValid auditing opts = record {
  fresh = λ n h. refl;
  unique = tt;
  keyed = λ k a h. cc;
  ordered = λ j a h. cc;
}
