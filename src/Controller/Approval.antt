-- ===== src/Controller/Approval.antt =====
-- What an approval does.
use net_soldier.Prelude.{
  ℕ, ◌≡◌, refl, sym, ap, ◌∙◌, inl, inr, ◌⊎◌, true, Option, none, some, Text, codes,
}
use net_soldier.Events.Action.{EnforcementAction, pending, approved, active, failed}
use net_soldier.Actions.Store.{Store, StoreError, get, state_eq}
use net_soldier.Actions.Store.Changes.{SameTarget}
use net_soldier.Actions.Store.Validity.{IsValid}
use net_soldier.Actions.Store.Steps.{Succeeds, approve_lem}
use net_soldier.Drivers.{Driver}
use net_soldier.Controller.{
  World, Response, handle_approve, after_approve, enforce_approved, or_default,
}
use net_soldier.Controller.Enforcement.{state_of, apply_action_honest}

module _ {W : Type 0} (resolve : Text → Option (Driver W)) where
  -- The action is active after a driver applied it, or it is failed.
  abbrev pub IsSettled : Text → EnforcementAction → W → World W × Response → Type 0
  IsSettled id a n t =
      (t.1.status ≡ 200)
      × (((d : Driver W) × (resolve a.action_type ≡ some d)
            × ((b : EnforcementAction) × SameTarget a b × ((d.apply b n).1 ≡ none))
            × (state_of id t.0.store ≡ some active))
          ⊎ (state_of id t.0.store ≡ some failed))

  after_approve-IsSettled :
      (now : ℕ) (id : Text) (a : EnforcementAction) (w : World W) (r : Store × Option StoreError)
      → a.id ≡ id
      → Succeeds id a approved r
      → IsSettled id a w.network (after_approve resolve now id r w)
  unfolding after_approve enforce_approved
  after_approve-IsSettled now id a w (s, some e) own t = cc t.succeeded
  after_approve-IsSettled now id a w (s, none) own t =
      let is_approved : state_eq t.action.state approved ≡ true =
        rw t.state (unfold state_eq in refl) in
      let named : t.action.id ≡ id = t.same.id ∙ own in
      let here : get t.action.id s ≡ some t.action = ap (λ j. get j s) named ∙ t.found in
      let w' : World W = record w { store = s } in
      rw (t.found, enforce_approved)
        (rw is_approved (
          refl,
          elim (apply_action_honest resolve now t.action w' here t.state) [
            | inl (d, known, ok, on) ↦
                inl
                  (d, sym (ap resolve t.same.kind) ∙ known, (t.action, t.same, ok), rw (← named) on)
            | inr off ↦ inr (rw (← named) off)
          ],
        ))

  -- An approval of a pending action of a valid store is answered 200. The action is active
  -- afterwards, and then a driver for its type applied it, aimed as it was, without an error; or
  -- else it is failed.
  pub handle_approve_pending :
      (now : ℕ) (id by : Text) (a : EnforcementAction) (w : World W)
      → IsValid w.store
      → get id w.store ≡ some a
      → a.state ≡ pending
      → IsSettled id a w.network (handle_approve resolve now id by w)
  unfolding handle_approve get
  handle_approve_pending now id by a w v found at =
      after_approve-IsSettled now id a w _ (v.keyed id a found)
        (approve_lem id (or_default (codes "operator") by) now w.store a found at)
