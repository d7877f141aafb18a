-- ===== src/Detect/Feedback/Capacity.antt =====
-- The bound on the suppressions that are held.
use net_soldier.Prelude.{
  ℕ, ◌+◌, ◌≤◌, ◌≡◌, refl, arith, Option, none, some, List, [], ◌∷◌, Text, length, is_some,
  Bool-cases, inl, inr, Assoc, lookup, insert, delete, length-insert_old,
}
use net_soldier.Detect.Alert.{Alert}
use net_soldier.Detect.Feedback.{
  Verdict, Store, record_verdict, apply_loaded, load_into, suppressed, RecordError, or_at_limit,
  settled, refused_at_limit, refused_before, accept, installed, stamped, verdict_key, sweep,
  sweep_one, look, candidates,
}

unfoldable pub IsBounded : Store → Type 0
IsBounded s = length s.suppressions ≤ s.max_suppressions

pub length-delete_le : {V : Type 0} (k : Text) (m : Assoc V) → length (delete k m) ≤ length m
unfolding delete
length-delete_le k [] = omega arith
length-delete_le k ((j, v) ∷ m) = ground (arith, length-delete_le k m)

pub length-insert_le :
    {V : Type 0} (k : Text) (v : V) (m : Assoc V) → length (insert k v m) ≤ length m + 1
unfolding insert
length-insert_le k v [] = omega arith
length-insert_le k v ((j, w) ∷ m) = ground (arith, length-insert_le k v m)

length-sweep :
    (now ttl : ℕ) (ks : List Text) (m : Assoc Verdict) → length (sweep now ttl ks m) ≤ length m
unfolding sweep sweep_one
length-sweep now ttl [] m = omega arith
length-sweep now ttl (k ∷ ks) m =
    ground (arith, length-delete_le k m, length-sweep now ttl ks (sweep_one now ttl k m))

length-installed :
    (v : Verdict) (s : Store)
    → refused_at_limit v s ≡ none
    → IsBounded s
    → length (installed v s.suppressions) ≤ s.max_suppressions
unfolding IsBounded refused_at_limit installed
length-installed v s h b = elim (Bool-cases (is_some (lookup (verdict_key v) s.suppressions))) [
  | inl old ↦ ground (
    arith,
    length-insert_old (verdict_key v) v s.suppressions,
    length-delete_le (verdict_key v) s.suppressions,
  )
  | inr new ↦ ground (
    arith,
    length-insert_le (verdict_key v) v s.suppressions,
    length-delete_le (verdict_key v) s.suppressions,
  )
]

-- Record adds a false positive only below the bound.
or_at_limit-none :
    (o : Option RecordError) (now : ℕ) (v : Verdict) (s : Store)
    → or_at_limit o now v s ≡ none
    → refused_at_limit (stamped now v) s ≡ none
unfolding or_at_limit
or_at_limit-none none now v s h = h
or_at_limit-none (some e) now v s h = cc

settled-IsBounded :
    (o : Option RecordError) (now : ℕ) (v : Verdict) (s : Store)
    → (o ≡ none → refused_at_limit (stamped now v) s ≡ none)
    → IsBounded s
    → IsBounded (settled o now v s).1
unfolding settled accept IsBounded
settled-IsBounded (some e) now v s h b = b
settled-IsBounded none now v s h b = length-installed (stamped now v) s (h refl) b

record_verdict-IsBounded :
    (now : ℕ) (v : Verdict) (s : Store) → IsBounded s → IsBounded (record_verdict now v s).1
unfolding record_verdict
record_verdict-IsBounded now v s =
    settled-IsBounded _ now v s (or_at_limit-none (refused_before v) now v s)

apply_loaded-IsBounded :
    (now : ℕ) (v : Verdict) (s : Store) → IsBounded s → IsBounded (apply_loaded now v s)
unfolding apply_loaded IsBounded
apply_loaded-IsBounded now v s b = ground (
  arith,
  length-insert_le (verdict_key v) v s.suppressions,
  length-delete_le (verdict_key v) s.suppressions,
)

load_into-IsBounded :
    (now : ℕ) (rows : List (Option Verdict)) (s : Store)
    → IsBounded s
    → IsBounded (load_into now rows s).1
unfolding load_into
load_into-IsBounded now [] s b = b
load_into-IsBounded now (none ∷ rows) s b = load_into-IsBounded now rows s b
load_into-IsBounded now (some v ∷ rows) s b =
    load_into-IsBounded now rows _ (apply_loaded-IsBounded now v s b)

-- No operation makes the suppressions exceed their bound: a recorded verdict, the replay of the
-- rows of a query, and the sweep of a question each keep it.
pub feedback-IsBounded :
    (now : ℕ) (s : Store)
    → IsBounded s
    → ((v : Verdict) → IsBounded (record_verdict now v s).1)
      × ((rows : List (Option Verdict)) → IsBounded (load_into now rows s).1)
      × ((a : Alert) → IsBounded (suppressed now a s).1)
unfolding suppressed IsBounded
feedback-IsBounded now s b = (
  (λ v. record_verdict-IsBounded now v s b),
  (λ rows. load_into-IsBounded now rows s b),
  (λ a. omega (
    arith,
    b,
    length-sweep now s.ttl (look now s.ttl s.suppressions (candidates a)).1 s.suppressions,
  )),
)
