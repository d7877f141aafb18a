-- ===== src/Actions/Store/Deadline.antt =====
-- The deadline of a new action.
use net_soldier.Prelude.{
  ℕ, ◌+◌, ◌*◌, ◌%◌, ◌<◌, ◌≤◌, ◌≡◌, refl, true, arith, pos, ltb, signed64, add_to,
}
use net_soldier.Actions.Store.{Store, NewAction, create, new_action, expiry, after}

signed64_small : (n : ℕ) → n < 9223372036854775808 → signed64 n ≡ pos n
signed64_small n h =
    let whole : n % 18446744073709551616 ≡ n = omega arith in
    let low : ltb n 9223372036854775808 ≡ true = ground arith in rw whole (rw low refl)

expiry_lem :
    (now n t : ℕ)
    → 0 < n
    → n ≤ 9223372036
    → after t (expiry now (pos n)) ≡ ltb (now + n * 1000000000) t
unfolding expiry after add_to
expiry_lem now n t positive fits =
    let small : signed64 (n * 1000000000) ≡ pos (n * 1000000000) =
      signed64_small (n * 1000000000) (omega arith) in
    let set : ltb 0 n ≡ true = ground arith in rw set (rw small refl)

-- An action that was created with a lifetime of n seconds, from 1 to 9223372036, is past its
-- deadline exactly when more than n seconds have gone by.
pub create_deadline :
    (r : NewAction) (now n t : ℕ) (s : Store)
    → r.ttl ≡ pos n
    → 0 < n
    → n ≤ 9223372036
    → after t (create r now s).1.expires_at ≡ ltb (now + n * 1000000000) t
unfolding create new_action
create_deadline r now n t s lifetime positive fits = rw lifetime (expiry_lem now n t positive fits)
