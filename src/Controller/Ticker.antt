-- ===== src/Controller/Ticker.antt =====
-- What a tick of the TTL loop reverts.
use mathlib.Core.List.{Memᴰ}
use net_soldier.Prelude.{
  ℕ, ◌≡◌, refl, sym, ◌∙◌, ap, inl, inr, ◌⊎◌, Bool, true, false, Option, none, some, List, [], ◌∷◌,
  arith, Text, codes, Option-cases, Bool-cases, keep, lookup, Assoc, str_eq, str_eq_iff,
  str_eq_refl,
}
use net_soldier.Events.Action.{EnforcementAction, active, reverted}
use net_soldier.Actions.Store
use net_soldier.Actions.Store.{Store, get, list_expired, values, after, state_eq, revert}
use net_soldier.Actions.Store.Changes.{revert-Change}
use net_soldier.Actions.Store.Steps.{revert_lem, revert_reverted, Change-others}
use net_soldier.Actions.Store.Validity.{IsValid}
use net_soldier.Drivers.{Driver}
use net_soldier.Controller.{World, revert_one, revert_each, confirmed, ttl_tick}
use net_soldier.Controller.Enforcement.{state_of, state_of_found, state_of_inv}

Mem-values :
    (j : Text) (m : Assoc EnforcementAction) {a : EnforcementAction}
    → lookup j m ≡ some a
    → Memᴰ a (values m)
unfolding lookup values
Mem-values j [] = λ h. cc
Mem-values j ((k, b) ∷ m) = elim (Bool-cases (str_eq k j)) [
  | inl same ↦ rw same (λ h. Memᴰ.head (ground arith))
  | inr other ↦ rw other (λ h. Memᴰ.tail (Mem-values j m h))
]

Mem-keep {ℓ} :
    {A : Type ℓ} (p : A → Bool) (a : A) (xs : List A) → Memᴰ a xs → p a ≡ true → Memᴰ a (keep p xs)
Mem-keep p a [] m h = elim m [ ]
Mem-keep p a (x ∷ xs) (Memᴰ.head e) h = rw (ap p (sym e) ∙ h) (Memᴰ.head e)
Mem-keep p a (x ∷ xs) (Memᴰ.tail m) h = elim (Bool-cases (p x)) [
  | inl y ↦ rw y (Memᴰ.tail (Mem-keep p a xs m h))
  | inr n ↦ rw n (Mem-keep p a xs m h)
]

module _ {W : Type 0} (resolve : Text → Option (Driver W)) where
  -- Whether a driver for the action is there, and never fails.
  abbrev pub Works : EnforcementAction → Type 0
  Works a = (d : Driver W) × (resolve a.action_type ≡ some d) × ((n : W) → (d.revert a n).1 ≡ none)

  revert_one_ok :
      (now : ℕ) (reason : Text) (a : EnforcementAction) (w : World W)
      → Works a
      → (revert_one resolve now reason a w).store ≡ (Store.revert a.id reason now w.store).0
  unfolding revert_one
  revert_one_ok now reason a w (d, known, ok) =
      rw (known, revert_one) (of_answer (d.revert a w.network) (ok w.network))
    where
      of_answer :
          (r : W × Option Text)
          → r.1 ≡ none
          → (confirmed resolve now reason a w.store r).store
            ≡ (Store.revert a.id reason now w.store).0
      of_answer (n, none) e = refl
      of_answer (n, some x) e = cc

  -- A revert leaves the store as it is, or makes the transition of the store.
  revert_one-store :
      (now : ℕ) (reason : Text) (a : EnforcementAction) (w : World W)
      → ((revert_one resolve now reason a w).store ≡ w.store)
        ⊎ ((revert_one resolve now reason a w).store ≡ (Store.revert a.id reason now w.store).0)
  unfolding revert_one
  revert_one-store now reason a w = elim (Option-cases (resolve a.action_type)) [
    | inl e ↦ rw (e, revert_one) (inl refl)
    | inr (d, e) ↦ rw (e, revert_one) (either_store (d.revert a w.network))
  ]
    where
      either_store :
          (r : W × Option Text)
          → ((confirmed resolve now reason a w.store r).store ≡ w.store)
            ⊎ ((confirmed resolve now reason a w.store r).store
                ≡ (Store.revert a.id reason now w.store).0)
      either_store (n, none) = inr refl
      either_store (n, some x) = inl refl

  stays_reverted :
      (now : ℕ) (reason : Text) (a : EnforcementAction) (w : World W) (j : Text)
      → state_of j w.store ≡ some reverted
      → state_of j (revert_one resolve now reason a w).store ≡ some reverted
  stays_reverted now reason a w j h = elim (revert_one-store now reason a w) [
    | inl same ↦ rw same h
    | inr reverts ↦
        let (b, found, at) = state_of_inv j w.store reverted h in
        rw reverts (elim (Bool-cases (str_eq a.id j)) [
          | inl same ↦
              rw ((str_eq_iff a.id j).0 same)
                (rw (revert_reverted j reason now w.store b found at) h)
          | inr other ↦
              state_of_found j _
                (Change-others j (revert-Change a.id reason now w.store) other ∙ found)
              ∙ ap some at
        ])
  ]

  each_stays_reverted :
      (now : ℕ) (as' : List EnforcementAction) (w : World W) (j : Text)
      → state_of j w.store ≡ some reverted
      → state_of j (revert_each resolve now as' w).store ≡ some reverted
  unfolding revert_each
  each_stays_reverted now [] w j h = h
  each_stays_reverted now (a ∷ as') w j h =
      each_stays_reverted now as' (revert_one resolve now (codes "TTL expired") a w) j
        (stays_reverted now (codes "TTL expired") a w j h)

  twin_reverted :
      (now : ℕ) (reason : Text) (a : EnforcementAction) (w : World W) (j : Text)
      → str_eq a.id j ≡ true
      → state_of j w.store ≡ some active
      → state_of j (Store.revert a.id reason now w.store).0 ≡ some reverted
  twin_reverted now reason a w j same h =
      let (b, found, at) = state_of_inv j w.store active h in
      let t = revert_lem j reason now w.store b found (inl at) in
      rw ((str_eq_iff a.id j).0 same) (state_of_found j _ t.found ∙ ap some t.state)

  reverts_active :
      (now : ℕ) (reason : Text) (a : EnforcementAction) (w : World W) (j : Text)
      → Works a
      → str_eq a.id j ≡ true
      → state_of j w.store ≡ some active
      → state_of j (revert_one resolve now reason a w).store ≡ some reverted
  reverts_active now reason a w j works same h =
      rw (revert_one_ok now reason a w works) (twin_reverted now reason a w j same h)

  leaves_active :
      (now : ℕ) (reason : Text) (a : EnforcementAction) (w : World W) (j : Text)
      → str_eq a.id j ≡ false
      → state_of j w.store ≡ some active
      → state_of j (revert_one resolve now reason a w).store ≡ some active
  leaves_active now reason a w j other h = elim (revert_one-store now reason a w) [
    | inl same ↦ rw same h
    | inr reverts ↦
        let (b, found, at) = state_of_inv j w.store active h in
        rw reverts (
          state_of_found j _ (Change-others j (revert-Change a.id reason now w.store) other ∙ found)
          ∙ ap some at)
  ]

  each_reverts :
      (now : ℕ) (as' : List EnforcementAction) (w : World W) (j : Text) (a : EnforcementAction)
      → Works a
      → Memᴰ a as'
      → str_eq a.id j ≡ true
      → state_of j w.store ≡ some active
      → state_of j (revert_each resolve now as' w).store ≡ some reverted
  unfolding revert_each
  each_reverts now [] w j a works m same h = elim m [ ]
  each_reverts now (b ∷ bs) w j a works (Memᴰ.head e) same h =
      each_stays_reverted now bs _ j
        (reverts_active now (codes "TTL expired") b w j (rw (sym e) works) (rw (sym e) same) h)
  each_reverts now (b ∷ bs) w j a works (Memᴰ.tail m) same h = elim (Bool-cases (str_eq b.id j)) [
    | inl twin ↦ elim (revert_one-store now (codes "TTL expired") b w) [
      | inl kept ↦ each_reverts now bs _ j a works m same (rw kept h)
      | inr reverts ↦
          each_stays_reverted now bs _ j
            (rw reverts (twin_reverted now (codes "TTL expired") b w j twin h))
    ]
    | inr other ↦
        each_reverts now bs _ j a works m same
          (leaves_active now (codes "TTL expired") b w j other h)
  ]

  -- A tick reverts an active action of a valid store whose deadline has passed, if there is a driver
  -- for its type whose Revert of this action does not fail, whatever the drivers of the other
  -- actions do.
  pub ttl_tick_reverts :
      (now : ℕ) (w : World W) (j : Text) (a : EnforcementAction)
      → IsValid w.store
      → Works a
      → get j w.store ≡ some a
      → a.state ≡ active
      → after now a.expires_at ≡ true
      → state_of j (ttl_tick resolve now w).store ≡ some reverted
  unfolding ttl_tick list_expired get
  ttl_tick_reverts now w j a v works found at late =
      let is_active : state_eq a.state active ≡ true = rw at (unfold state_eq in refl) in
      each_reverts now (list_expired now w.store) w j a works
        (Mem-keep _ a (values w.store.actions) (Mem-values j w.store.actions found)
          (rw is_active late))
        (rw (v.keyed j a found) (str_eq_refl j)) (state_of_found j w.store found ∙ ap some at)
