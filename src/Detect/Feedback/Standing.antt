-- ===== src/Detect/Feedback/Standing.antt =====
-- What silences a detection: the last accepted verdict of its key, for as long as it lives.
use net_soldier.Prelude.{
  ◌&&◌, leb, length, ℕ, ◌≤◌, ◌≡◌, refl, ap, ◌∙◌, sym, arith, Bool, true, false, not, ◌||◌, Option,
  none, some, List, [], ◌∷◌, Text, if◌then◌else◌, Bool-cases, Option-cases, inl, inr, Assoc, lookup,
  lookup-insert, lookup-delete, str_eq, str_eq_iff,
}
use net_soldier.Detect.Alert.{Alert}
use net_soldier.Detect.Feedback.{
  Verdict, Store, Options, RecordError, new_with_options, key, record_verdict, suppressed, settled,
  accept, installed, apply_loaded, load_into, stamped, is_false_positive, verdict_key, expired,
  sweep, sweep_one, look, candidates,
}

-- The false positive that stands for a key, after the accepted verdicts, the newest first.
unfoldable pub standing : Text → List Verdict → Option Verdict
standing k [] = none
standing k (v ∷ vs) =
    if str_eq (verdict_key v) k then if is_false_positive v then some v else none else standing k vs

unfoldable pub live : ℕ → ℕ → Option Verdict → Bool
live now ttl none = false
live now ttl (some v) = not (expired now ttl v)

-- Whether the verdicts silence an alert.
unfoldable pub silenced : ℕ → ℕ → Alert → List Verdict → Bool
unfolding live standing
silenced now ttl a vs =
    live now ttl (standing (key a.matched_ioc a.client_ip) vs)
    || live now ttl (standing (key a.matched_ioc []) vs)

-- Whether the replay takes a row: a retraction, or a false positive that lives and finds room.
unfoldable pub is_taken : ℕ → Verdict → Store → Bool
is_taken now v s =
    not (is_false_positive v)
    || (not (expired now s.ttl v) && not (leb s.max_suppressions (length s.suppressions)))

-- The verdicts after the rows of a replay, the newest first.
unfoldable pub replayed : ℕ → List (Option Verdict) → List Verdict → Store → List Verdict
unfolding is_taken
replayed now [] vs s = vs
replayed now (none ∷ rows) vs s = replayed now rows vs s
replayed now (some v ∷ rows) vs s =
    replayed now rows (if is_taken now v s then v ∷ vs else vs) (apply_loaded now v s)

-- The life of a store: `Runs t vs s` when s is the store at time t and vs are its verdicts.
pub data Runs (sink : Option (List Verdict)) (opts : Options)
    : ℕ → List Verdict → Store → Type 0 where
  started : (t : ℕ) → Runs sink opts t [] (new_with_options sink opts)
  recorded :
      (t now : ℕ) (vs : List Verdict) (s : Store) (v : Verdict)
      → t ≤ now
      → Runs sink opts t vs s
      → (record_verdict now v s).0 ≡ none
      → Runs sink opts now (stamped now v ∷ vs) (record_verdict now v s).1
  refused_one :
      (t now : ℕ) (vs : List Verdict) (s : Store) (v : Verdict) (e : RecordError)
      → t ≤ now
      → Runs sink opts t vs s
      → (record_verdict now v s).0 ≡ some e
      → Runs sink opts now vs (record_verdict now v s).1
  loaded :
      (t now : ℕ) (vs : List Verdict) (s : Store) (rows : List (Option Verdict))
      → t ≤ now
      → Runs sink opts t vs s
      → Runs sink opts now (replayed now rows vs s) (load_into now rows s).1
  asked :
      (t now : ℕ) (vs : List Verdict) (s : Store) (a : Alert)
      → t ≤ now
      → Runs sink opts t vs s
      → Runs sink opts now vs (suppressed now a s).1

-- From time t on, the store holds what the verdicts say.
Represents : ℕ → List Verdict → Store → Type 0
Represents t vs s =
    (k : Text) (now : ℕ)
    → t ≤ now
    → live now s.ttl (lookup k s.suppressions) ≡ live now s.ttl (standing k vs)

-- An expired verdict stays expired.
expired_later :
    (t now ttl : ℕ) (v : Verdict) → t ≤ now → expired t ttl v ≡ true → expired now ttl v ≡ true
unfolding expired
expired_later t now ttl v h e = ground arith

live-sweep_one :
    (t ttl : ℕ) (j k : Text) (m : Assoc Verdict) (now : ℕ)
    → t ≤ now
    → live now ttl (lookup k (sweep_one t ttl j m)) ≡ live now ttl (lookup k m)
unfolding sweep_one live
live-sweep_one t ttl j k m now h = elim (Option-cases (lookup j m)) [
  | inl found ↦ rw (sweep_one, found) refl
  | inr (v, found) ↦ elim (Bool-cases (expired t ttl v)) [
    | inr fresh ↦ rw (sweep_one, found, fresh) refl
    | inl old ↦ elim (Bool-cases (str_eq j k)) [
      | inr other ↦ rw (sweep_one, found, old, lookup-delete j k m, other) refl
      | inl same ↦
          let found_k : lookup k m ≡ some v =
            ap (λ i. lookup i m) (sym ((str_eq_iff j k).0 same)) ∙ found in
          rw
            (
              sweep_one,
              found,
              old,
              lookup-delete j k m,
              same,
              found_k,
              expired_later t now ttl v h old,
            )
            refl
    ]
  ]
]

live-sweep :
    (t ttl : ℕ) (js : List Text) (k : Text) (m : Assoc Verdict) (now : ℕ)
    → t ≤ now
    → live now ttl (lookup k (sweep t ttl js m)) ≡ live now ttl (lookup k m)
unfolding sweep
live-sweep t ttl [] k m now h = refl
live-sweep t ttl (j ∷ js) k m now h =
    live-sweep t ttl js k (sweep_one t ttl j m) now h ∙ live-sweep_one t ttl j k m now h

-- The loop over the candidates answers whether one of them is live.
look-pair :
    (now ttl : ℕ) (m : Assoc Verdict) (j k : Text)
    → (look now ttl m (j ∷ k ∷ [])).0 ≡ (live now ttl (lookup j m) || live now ttl (lookup k m))
unfolding look live
look-pair now ttl m j k = ground arith

Represents-accept :
    (now : ℕ) (vs : List Verdict) (v : Verdict) (s : Store)
    → Represents now vs s
    → Represents now (v ∷ vs) (accept v s)
unfolding Represents accept installed standing live
Represents-accept now vs v s r k later h = ground (
  arith,
  r k later h,
  lookup-insert (verdict_key v) k v s.suppressions,
  lookup-delete (verdict_key v) k s.suppressions,
)

Represents-later :
    (t now : ℕ) (vs : List Verdict) (s : Store) → t ≤ now → Represents t vs s → Represents now vs s
unfolding Represents
Represents-later t now vs s h r k later l = r k later (omega arith)

Represents-settled :
    (o : Option RecordError) (now : ℕ) (vs : List Verdict) (v : Verdict) (s : Store)
    → Represents now vs s
    → (settled o now v s).0 ≡ none
    → Represents now (stamped now v ∷ vs) (settled o now v s).1
unfolding settled
Represents-settled none now vs v s r h = Represents-accept now vs (stamped now v) s r
Represents-settled (some e) now vs v s r h = cc

Represents-refused :
    (o : Option RecordError) (now : ℕ) (vs : List Verdict) (v : Verdict) (s : Store)
    (e : RecordError)
    → Represents now vs s
    → (settled o now v s).0 ≡ some e
    → Represents now vs (settled o now v s).1
unfolding settled
Represents-refused none now vs v s e r h = cc
Represents-refused (some e') now vs v s e r h = r

Represents-apply_loaded :
    (now : ℕ) (vs : List Verdict) (v : Verdict) (s : Store)
    → Represents now vs s
    → Represents now (if is_taken now v s then v ∷ vs else vs) (apply_loaded now v s)
unfolding Represents apply_loaded is_taken standing live
Represents-apply_loaded now vs v s r k later h = ground (
  arith,
  r k later h,
  lookup-insert (verdict_key v) k v s.suppressions,
  lookup-delete (verdict_key v) k s.suppressions,
)

Represents-load_into :
    (now : ℕ) (rows : List (Option Verdict)) (vs : List Verdict) (s : Store)
    → Represents now vs s
    → Represents now (replayed now rows vs s) (load_into now rows s).1
unfolding replayed load_into
Represents-load_into now [] vs s r = r
Represents-load_into now (none ∷ rows) vs s r = Represents-load_into now rows vs s r
Represents-load_into now (some v ∷ rows) vs s r =
    Represents-load_into now rows _ (apply_loaded now v s) (Represents-apply_loaded now vs v s r)

Represents-suppressed :
    (now : ℕ) (vs : List Verdict) (s : Store) (a : Alert)
    → Represents now vs s
    → Represents now vs (suppressed now a s).1
unfolding Represents suppressed
Represents-suppressed now vs s a r k later h =
    live-sweep now s.ttl (look now s.ttl s.suppressions (candidates a)).1 k s.suppressions later h
    ∙ r k later h

Runs-Represents :
    (sink : Option (List Verdict)) (opts : Options) {t : ℕ} {vs : List Verdict} {s : Store}
    → Runs sink opts t vs s
    → Represents t vs s
unfolding Represents new_with_options record_verdict standing lookup
Runs-Represents sink opts (started t) = λ k now h. refl
Runs-Represents sink opts (recorded t now vs s v h r e) =
    Represents-settled _ now vs v s (Represents-later t now vs s h (Runs-Represents sink opts r)) e
Runs-Represents sink opts (refused_one t now vs s v e h r f) =
    Represents-refused _ now vs v s e (Represents-later t now vs s h (Runs-Represents sink opts r))
      f
Runs-Represents sink opts (loaded t now vs s rows h r) =
    Represents-load_into now rows vs s (Represents-later t now vs s h (Runs-Represents sink opts r))
Runs-Represents sink opts (asked t now vs s a h r) =
    Represents-suppressed now vs s a (Represents-later t now vs s h (Runs-Represents sink opts r))

-- After any replays, verdicts and questions since the store was made, it silences an alert exactly when
-- the last accepted verdict on the indicator for this client, or on the indicator for no client,
-- is a false positive that has not outlived its lifetime. Accepted is a verdict that Record
-- reports no error for, and of a replay a retraction, or a false positive that lives and finds
-- room. The clock does not go back.
pub suppressed-refines :
    (sink : Option (List Verdict)) (opts : Options) (t now : ℕ) (vs : List Verdict) (s : Store)
    (a : Alert)
    → Runs sink opts t vs s
    → t ≤ now
    → (suppressed now a s).0 ≡ silenced now s.ttl a vs
unfolding suppressed silenced candidates Represents
suppressed-refines sink opts t now vs s a r h =
    let rep : Represents t vs s = Runs-Represents sink opts r in
    look-pair now s.ttl s.suppressions (key a.matched_ioc a.client_ip) (key a.matched_ioc [])
    ∙ rw (rep (key a.matched_ioc a.client_ip) now h, rep (key a.matched_ioc []) now h) refl
