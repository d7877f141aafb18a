-- ===== src/Detect/Composite/Signals.antt =====
-- composite.go: the lists of signals, prune, upsert, evict, bestPerClass, distinctClasses and the anchor of
-- build.
use net_soldier.Prelude.{
  ℕ, ◌+◌, ◌-◌, Bool, true, Option, none, some, List, [], ◌∷◌, ◌++◌, map, Text, ℤ, pos, leb_ℤ, ltb_ℤ,
  ltb, leb, length, take, keep, exists, str_eq, Assoc, lookup, insert, delete, if◌then◌else◌,
  text_less, sort_by,
}
use net_soldier.Detect.Alert.{Alert}

pub record Signal : Type 0 where
  pub class : Text
  pub confidence : ℤ
  pub alert : Alert
  pub seen : ℕ

abbrev pub max_tracked_clients : ℕ
max_tracked_clients = 4096

-- prune
unfoldable pub prune : ℕ → ℕ → List Signal → List Signal
prune window now sigs = keep (λ (s : Signal). leb now (s.seen + window)) sigs

-- upsert
unfoldable pub upsert : List Signal → Signal → List Signal
upsert [] s = s ∷ []
upsert (t ∷ sigs) s =
    let rest = upsert sigs s in
    if str_eq t.class s.class
    then (if leb_ℤ t.confidence s.confidence then s else t) ∷ sigs
    else t ∷ rest

-- evict
unfoldable pub newest_of : List Signal → ℕ → ℕ
newest_of [] newest = newest
newest_of (s ∷ sigs) newest = newest_of sigs (if ltb newest s.seen then s.seen else newest)

unfoldable pub age_of : Text × List Signal → Text × ℕ
unfolding newest_of
age_of (client, sigs) = (client, newest_of sigs 0)

unfoldable pub older : Text × ℕ → Text × ℕ → Bool
older (c, s) (d, t) = ltb s t

unfoldable pub delete_all : List (Text × ℕ) → Assoc (List Signal) → Assoc (List Signal)
delete_all [] m = m
delete_all ((client, newest) ∷ ages) m = delete_all ages (delete client m)

unfoldable pub evict : Assoc (List Signal) → Assoc (List Signal)
unfolding age_of older delete_all
evict clients =
    if leb (length clients) max_tracked_clients
    then clients
    else delete_all
        (take (length clients - max_tracked_clients) (sort_by older (map age_of clients))) clients

-- bestPerClass
unfoldable pub is_better : Signal → Option Signal → Bool
is_better s none = true
is_better s (some cur) = ltb_ℤ cur.confidence s.confidence

unfoldable pub best_loop : Assoc Signal → List Signal → Assoc Signal
unfolding is_better
best_loop best [] = best
best_loop best (s ∷ sigs) =
    best_loop (if is_better s (lookup s.class best) then insert s.class s best else best) sigs

unfoldable pub best_per_class : List Signal → Assoc Signal
unfolding best_loop
best_per_class sigs = best_loop [] sigs

-- distinctClasses; what was seen is what was collected.
unfoldable pub classes_loop : List Text → List Signal → List Text
classes_loop classes [] = classes
classes_loop classes (s ∷ sigs) =
    classes_loop
      (if exists (λ c. str_eq c s.class) classes then classes else classes ++ s.class ∷ []) sigs

unfoldable pub distinct_classes : List Signal → List Text
unfolding classes_loop
distinct_classes sigs = sort_by text_less (classes_loop [] sigs)

-- Go's zero value of a signal
unfoldable pub zero_signal : Signal
zero_signal = record {
  class = [];
  confidence = pos 0;
  alert = record {
    id = [];
    timestamp = 0;
    domain = [];
    client_ip = [];
    client_mac = [];
    client_name = [];
    query_type = [];
    matched_ioc = [];
    ioc_type = [];
    severity = [];
    source = [];
    confidence = pos 0;
    mitre_id = [];
    mitre_name = [];
    threat = [];
    tags = [];
    signal_class = [];
    signals = [];
    signal_count = pos 0;
  };
  seen = 0;
}

-- best[cl]
unfoldable pub best_of : Assoc Signal → Text → Signal
unfolding zero_signal
best_of best cl = elim (lookup cl best) [ none ↦ zero_signal | some s ↦ s ]

-- The loop that picks the anchor.
unfoldable pub strongest : Assoc Signal → Alert → List Text → Alert
unfolding best_of
strongest best anchor [] = anchor
strongest best anchor (cl ∷ cls) =
    strongest best
      (if ltb_ℤ anchor.confidence (best_of best cl).confidence
        then (best_of best cl).alert
        else anchor)
      cls
