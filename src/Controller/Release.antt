-- ===== src/Controller/Release.antt =====
-- What reverting does: the driver first, the state after, and what is left after a failure.
use net_soldier.Prelude.{
  ℕ, ◌≡◌, refl, inl, inr, ◌⊎◌, true, false, Option, none, some, arith, Text, codes, Option-cases,
  ◌∙◌, ◌++◌, ap,
}
use net_soldier.Events.Action.{State, EnforcementAction, active, failed, reverted}
use net_soldier.Actions.Store.{Store, StoreError, get, state_eq}
use net_soldier.Actions.Store.Steps.{Succeeds, revert_lem, record_failure_lem}
use net_soldier.Drivers.{Driver}
use net_soldier.Controller.{
  World, handle_revert, release_found, release, released, settled, confirmed, or_default,
}
use net_soldier.Controller.Enforcement.{state_of, state_of_found, state_of_inv}

module _ {W : Type 0} (resolve : Text → Option (Driver W)) where
  settled_lem :
      (id : Text) (a : EnforcementAction) (x : State) (r : Store × Option StoreError) (n : W)
      → Succeeds id a x r
      → ((settled resolve id r n).1.status ≡ 200)
        × ((settled resolve id r n).0.network ≡ n)
        × (state_of id (settled resolve id r n).0.store ≡ some x)
  unfolding settled
  settled_lem id a x (s, none) n t =
      (refl, refl, ground (arith, state_of_found id s t.found, t.state))
  settled_lem id a x (s, some e) n t = cc t.succeeded

  released_lem :
      (now : ℕ) (id reason : Text) (a : EnforcementAction) (s : Store) (r : W × Option Text)
      → get id s ≡ some a
      → a.state ≡ active
      → let t = released resolve now id reason s r in
        (t.0.network ≡ r.0)
        × ((r.1 ≡ none) × (t.1.status ≡ 200) × (state_of id t.0.store ≡ some reverted)
            ⊎ ((e : Text) × (r.1 ≡ some e)
                × (t.1.status ≡ 502)
                × (state_of id t.0.store ≡ some failed)))
  unfolding released
  released_lem now id reason a s (n, none) found at =
      let t = settled_lem id a reverted _ n (revert_lem id reason now s a found (inl at)) in
      (t.1, inl (refl, t.0, t.2))
  released_lem now id reason a s (n, some e) found at =
      let t = record_failure_lem id (codes "revert failed: " ++ e) now s a found in
      (refl, inr (e, refl, refl, state_of_found id _ t.found ∙ ap some t.state))

  handle_revert_known :
      (now : ℕ) (id reason : Text) (a : EnforcementAction) (d : Driver W) (w : World W)
      → get id w.store ≡ some a
      → a.state ≡ active
      → resolve a.action_type ≡ some d
      → let t = handle_revert resolve now id reason w in
        (t.0.network ≡ (d.revert a w.network).0)
        × (((d.revert a w.network).1 ≡ none)
              × (t.1.status ≡ 200)
              × (state_of id t.0.store ≡ some reverted)
            ⊎ ((e : Text) × ((d.revert a w.network).1 ≡ some e)
                × (t.1.status ≡ 502)
                × (state_of id t.0.store ≡ some failed)))
  unfolding handle_revert
  handle_revert_known now id reason a d w found at known =
      let is_active : state_eq a.state active ≡ true = rw at (unfold state_eq in refl) in
      rw (found, release_found)
        (rw is_active (
          rw (known, release)
            (released_lem now id (or_default (codes "manual revert") reason) a w.store
              (d.revert a w.network) found at)))

  -- A revert request for an active action asks the driver first. With no driver the answer is 503
  -- and nothing changes; where the driver fails it is 502 and the action is failed; and it is 200,
  -- with the action reverted, only where the driver confirmed.
  pub handle_revert_active :
      (now : ℕ) (id reason : Text) (a : EnforcementAction) (w : World W)
      → get id w.store ≡ some a
      → a.state ≡ active
      → let t = handle_revert resolve now id reason w in
        ((resolve a.action_type ≡ none) × (t.1.status ≡ 503) × (t.0 ≡ w))
        ⊎ ((d : Driver W) × (resolve a.action_type ≡ some d)
            × (t.0.network ≡ (d.revert a w.network).0)
            × (((d.revert a w.network).1 ≡ none)
                  × (t.1.status ≡ 200)
                  × (state_of id t.0.store ≡ some reverted)
                ⊎ ((e : Text) × ((d.revert a w.network).1 ≡ some e)
                    × (t.1.status ≡ 502)
                    × (state_of id t.0.store ≡ some failed))))
  unfolding handle_revert
  handle_revert_active now id reason a w found at = elim (Option-cases (resolve a.action_type)) [
    | inl e ↦
        let is_active : state_eq a.state active ≡ true = rw at (unfold state_eq in refl) in
        rw (found, release_found) (rw is_active (rw (e, release) (inl (refl, refl, refl))))
    | inr (d, e) ↦
        let (n, outcome) = handle_revert_known now id reason a d w found at e in
        inr (d, e, n, outcome)
  ]

  -- A revert request for a failed action: no driver is called, and the answer is 200 with the action
  -- reverted. The network stays as it is, also where the failure was that of a revert.
  pub handle_revert_of_failed :
      (now : ℕ) (id reason : Text) (a : EnforcementAction) (w : World W)
      → get id w.store ≡ some a
      → a.state ≡ failed
      → ((handle_revert resolve now id reason w).1.status ≡ 200)
        × ((handle_revert resolve now id reason w).0.network ≡ w.network)
        × (state_of id (handle_revert resolve now id reason w).0.store ≡ some reverted)
  unfolding handle_revert
  handle_revert_of_failed now id reason a w found at =
      let inactive : state_eq a.state active ≡ false = rw at (unfold state_eq in refl) in
      rw (found, release_found)
        (rw inactive (
          settled_lem id a reverted _ w.network (
            revert_lem id (or_default (codes "manual revert") reason) now w.store a found
              (inr at))))

  -- Two revert requests for an active action whose driver fails: the first is answered 502, and the
  -- second 200 with the action reverted, though the driver was not asked again and the network is
  -- what the failed call left.
  pub handle_revert_twice :
      (now later : ℕ) (id reason : Text) (a : EnforcementAction) (d : Driver W) (w : World W)
      {e : Text}
      → get id w.store ≡ some a
      → a.state ≡ active
      → resolve a.action_type ≡ some d
      → (d.revert a w.network).1 ≡ some e
      → let first = handle_revert resolve now id reason w in
        let second = handle_revert resolve later id reason first.0 in
        (first.1.status ≡ 502)
        × (second.1.status ≡ 200)
        × (state_of id second.0.store ≡ some reverted)
        × (second.0.network ≡ (d.revert a w.network).0)
  handle_revert_twice now later id reason a d w {e} found at known fails =
      let w1 = (handle_revert resolve now id reason w).0 in
      let (net, outcome) = handle_revert_known now id reason a d w found at known in
      elim outcome [
        | inl (confirmed, status, state) ↦ cc
        | inr (e', err, status, state) ↦
            let (b, found', at') = state_of_inv id w1.store failed state in
            let (ok, same, done) = handle_revert_of_failed later id reason b w1 found' at' in
            (status, ok, done, same ∙ net)
      ]
