-- ===== src/Detect/Feedback.antt =====
-- apps/detection-engine/internal/feedback: the verdicts of analysts (feedback.go), and their replay at
-- a start (LoadInto of clickhouse.go). One call sees one time of the clock. A time of none is
-- Go's zero time, which is further back than every lifetime. The mutex makes each call one step.
-- The sink keeps what is written to it; its errors are only logged.
pub mod Capacity
pub mod Standing
use net_soldier.Prelude.{
  ℕ, ◌+◌, ◌*◌, Bool, true, false, not, ◌&&◌, ◌||◌, Option, none, some, List, [], ◌∷◌, ◌++◌, map,
  Text, codes, ℤ, pos, negsuc, ltb, leb, is_empty, is_some, length, keep, to_lower, trim_space,
  str_eq, Assoc, lookup, insert, delete, if◌then◌else◌,
}
use net_soldier.Detect.Alert.{Alert}

pub record Verdict : Type 0 where
  pub alert_id : Text
  pub matched_ioc : Text
  pub client_ip : Text
  pub verdict : Text
  pub reason : Text
  pub analyst : Text
  pub timestamp : Option ℕ

abbrev pub verdict_false_positive : Text
verdict_false_positive = codes "false_positive"

abbrev pub verdict_confirmed : Text
verdict_confirmed = codes "confirmed"

-- A time.Duration counts nanoseconds.
abbrev pub default_suppression_ttl : ℕ
default_suppression_ttl = 30 * 24 * 3600 * 1000000000

abbrev pub default_max_suppressions : ℕ
default_max_suppressions = 10000

pub record Options : Type 0 where
  pub ttl : ℤ
  pub max_suppressions : ℤ

pub record Store : Type 0 where
  pub suppressions : Assoc Verdict
  pub sink : Option (List Verdict)
  pub ttl : ℕ
  pub max_suppressions : ℕ

or_default : ℤ → ℕ → ℕ
or_default (pos n) d = if leb n 0 then d else n
or_default (negsuc n) d = d

-- NewWithOptions
unfoldable pub new_with_options : Option (List Verdict) → Options → Store
unfolding or_default
new_with_options sink opts = record {
  suppressions = [];
  sink = sink;
  ttl = or_default opts.ttl default_suppression_ttl;
  max_suppressions = or_default opts.max_suppressions default_max_suppressions;
}

-- key
unfoldable pub key : Text → Text → Text
key matched_ioc client_ip =
    to_lower (trim_space matched_ioc) ++ codes "|" ++ to_lower (trim_space client_ip)

pub data RecordError : Type 0 where
  matched_ioc_required bad_verdict analyst_required : RecordError
  suppression_limit : ℕ → RecordError

unfoldable pub is_false_positive : Verdict → Bool
is_false_positive v = str_eq v.verdict verdict_false_positive

-- The verdict with the time that Record gives it.
unfoldable pub stamped : ℕ → Verdict → Verdict
stamped now v = record v { timestamp = elim v.timestamp [ none ↦ some now | some t ↦ some t ] }

unfoldable pub verdict_key : Verdict → Text
verdict_key v = key v.matched_ioc v.client_ip

-- What Record refuses before it takes the lock.
refused_before : Verdict → Option RecordError
unfolding is_false_positive
refused_before v =
    if is_empty v.matched_ioc
    then some matched_ioc_required
    else if not (is_false_positive v) && not (str_eq v.verdict verdict_confirmed)
    then some bad_verdict
    else if is_empty v.analyst
    then some analyst_required
    else none

-- What Record refuses under the lock.
refused_at_limit : Verdict → Store → Option RecordError
unfolding is_false_positive verdict_key
refused_at_limit v s =
    if is_false_positive v
      && not (is_some (lookup (verdict_key v) s.suppressions))
      && leb s.max_suppressions (length s.suppressions)
    then some (suppression_limit s.max_suppressions)
    else none

-- The map after an accepted verdict.
installed : Verdict → Assoc Verdict → Assoc Verdict
unfolding is_false_positive verdict_key
installed v m = if is_false_positive v then insert (verdict_key v) v m else delete (verdict_key v) m

write : Verdict → Option (List Verdict) → Option (List Verdict)
write v none = none
write v (some log) = some (log ++ v ∷ [])

accept : Verdict → Store → Store
unfolding installed write
accept v s = record s { suppressions = installed v s.suppressions; sink = write v s.sink }

-- Why Record refuses a verdict, if it does.
or_at_limit : Option RecordError → ℕ → Verdict → Store → Option RecordError
unfolding stamped refused_at_limit
or_at_limit (some e) now v s = some e
or_at_limit none now v s = refused_at_limit (stamped now v) s

settled : Option RecordError → ℕ → Verdict → Store → Option RecordError × Store
unfolding stamped accept
settled (some e) now v s = (some e, s)
settled none now v s = (none, accept (stamped now v) s)

-- Record, with its error.
unfoldable pub record_verdict : ℕ → Verdict → Store → Option RecordError × Store
unfolding refused_before or_at_limit settled
record_verdict now v s = settled (or_at_limit (refused_before v) now v s) now v s

-- expired
unfoldable pub expired : ℕ → ℕ → Verdict → Bool
expired now ttl v = elim v.timestamp [ none ↦ true | some t ↦ ltb (t + ttl) now ]

-- applyLoaded
unfoldable pub apply_loaded : ℕ → Verdict → Store → Store
unfolding is_false_positive verdict_key expired
apply_loaded now v s =
    if is_false_positive v
    then if expired now s.ttl v || leb s.max_suppressions (length s.suppressions)
      then s
      else record s { suppressions = insert (verdict_key v) v s.suppressions }
    else record s { suppressions = delete (verdict_key v) s.suppressions }

-- LoadInto: the rows of the query, of which none is malformed, and the count of those loaded.
unfoldable pub load_into : ℕ → List (Option Verdict) → Store → ℕ × Store
unfolding apply_loaded
load_into now [] s = (0, s)
load_into now (none ∷ rows) s = load_into now rows s
load_into now (some v ∷ rows) s =
    let rest = load_into now rows (apply_loaded now v s) in (rest.0 + 1, rest.1)

-- The loop over the candidates: whether one is live, and the expired ones before it.
look : ℕ → ℕ → Assoc Verdict → List Text → Bool × List Text
unfolding expired
look now ttl m [] = (false, [])
look now ttl m (k ∷ ks) =
    let rest = look now ttl m ks in
    elim (lookup k m) [
      | none ↦ rest
      | some v ↦ if expired now ttl v then (rest.0, k ∷ rest.1) else (true, [])
    ]

-- The loop that sweeps them.
sweep_one : ℕ → ℕ → Text → Assoc Verdict → Assoc Verdict
unfolding expired
sweep_one now ttl k m = elim (lookup k m) [
  | none ↦ m
  | some v ↦ if expired now ttl v then delete k m else m
]

sweep : ℕ → ℕ → List Text → Assoc Verdict → Assoc Verdict
unfolding sweep_one
sweep now ttl [] m = m
sweep now ttl (k ∷ ks) m = sweep now ttl ks (sweep_one now ttl k m)

candidates : Alert → List Text
candidates a = key a.matched_ioc a.client_ip ∷ key a.matched_ioc [] ∷ []

-- Suppressed, with the store after its sweep.
unfoldable pub suppressed : ℕ → Alert → Store → Bool × Store
unfolding look sweep candidates
suppressed now a s =
    let found = look now s.ttl s.suppressions (candidates a) in
    (found.0, record s { suppressions = sweep now s.ttl found.1 s.suppressions })

-- Active
unfoldable pub active : ℕ → Store → List Verdict
active now s =
    keep (λ v. not (expired now s.ttl v)) (map (λ (p : Text × Verdict). p.1) s.suppressions)

pub data Response : Type 0 where
  accepted : Response
  bad_request : Option RecordError → Response

-- HandleFeedback: the decoded body, of which none is invalid, and the header X-Netsoldier-Actor.
unfoldable pub handle_feedback : ℕ → Option Verdict → Text → Store → Response × Store
handle_feedback now none actor s = (bad_request none, s)
handle_feedback now (some v) actor s =
    let named = if is_empty actor then v else record v { analyst = actor } in
    let out = record_verdict now named s in
    elim out.0 [ none ↦ (accepted, out.1) | some e ↦ (bad_request (some e), out.1) ]
