-- ===== src/Events/Detection/Evidence.antt =====
-- What the known-bad evidence of an event is.
use net_soldier.Prelude.{
  ◌≡◌, refl, true, false, ◌||◌, List, [], ◌∷◌, ◌++◌, arith, Text, ltb, length, exists, All,
  All-append, str_eq_iff, str_eq, Bool-cases, inl, inr, not, ◌&&◌,
}
use net_soldier.Events.Detection.{
  DetectionEvent, is_known_bad_signal, collect_signals, known_bad_signals, has_known_bad_signal,
  contains,
}

nonempty-collect_signals :
    (out ss : List Text)
    → ltb 0 (length (collect_signals out ss))
      ≡ (ltb 0 (length out) || exists is_known_bad_signal ss)
unfolding collect_signals contains
nonempty-collect_signals [] [] = refl
nonempty-collect_signals (o ∷ out) [] = ground arith
nonempty-collect_signals [] (s ∷ ss) =
    ground (arith, nonempty-collect_signals [] ss, nonempty-collect_signals (s ∷ []) ss)
nonempty-collect_signals (o ∷ out) (s ∷ ss) = ground (
  arith,
  nonempty-collect_signals (o ∷ out) ss,
  nonempty-collect_signals (o ∷ (out ++ s ∷ [])) ss,
)

-- An event has known-bad evidence exactly when its own class, or one of the classes that it lists,
-- is a known-bad class.
pub has_known_bad_signal_lem :
    (e : DetectionEvent)
    → has_known_bad_signal e
      ≡ (is_known_bad_signal e.signal_class || exists is_known_bad_signal e.signals)
unfolding has_known_bad_signal known_bad_signals
has_known_bad_signal_lem e = ground (
  arith,
  nonempty-collect_signals [] e.signals,
  nonempty-collect_signals (e.signal_class ∷ []) e.signals,
)

abbrev pub IsKnownBad : Text → Type 0
IsKnownBad c = is_known_bad_signal c ≡ true

-- No class twice.
abbrev pub IsDistinct : List Text → Type 0
IsDistinct [] = Unit
IsDistinct (c ∷ cs) = (contains cs c ≡ false) × IsDistinct cs

contains-append :
    (xs : List Text) (y c : Text) → contains (xs ++ y ∷ []) c ≡ (contains xs c || str_eq y c)
unfolding contains
contains-append [] y c = ground arith
contains-append (x ∷ xs) y c = ground (arith, contains-append xs y c)

append-IsDistinct :
    (xs : List Text) (y : Text) → IsDistinct xs → contains xs y ≡ false → IsDistinct (xs ++ y ∷ [])
unfolding contains
append-IsDistinct [] y d n = (refl, tt)
append-IsDistinct (x ∷ xs) y d n =
    ground (arith, contains-append xs y x, append-IsDistinct xs y, str_eq_iff x y, str_eq_iff y x)

collect_signals_sound :
    (out ss : List Text)
    → All IsKnownBad out
    → IsDistinct out
    → All IsKnownBad (collect_signals out ss) × IsDistinct (collect_signals out ss)
unfolding collect_signals
collect_signals_sound out [] a d = (a, d)
collect_signals_sound out (s ∷ ss) a d =
    elim (Bool-cases (is_known_bad_signal s && not (contains out s))) [
      | inl new ↦ rw new (
          collect_signals_sound (out ++ s ∷ []) ss
            (All-append IsKnownBad out (s ∷ []) a (ground arith, tt))
            (append-IsDistinct out s d (ground arith)))
      | inr old ↦ rw old (collect_signals_sound out ss a d)
    ]

-- The reported evidence holds known-bad classes only, each once.
pub known_bad_signals_sound :
    (e : DetectionEvent) → All IsKnownBad (known_bad_signals e) × IsDistinct (known_bad_signals e)
unfolding known_bad_signals contains
known_bad_signals_sound e = elim (Bool-cases (is_known_bad_signal e.signal_class)) [
  | inl bad ↦ rw bad (collect_signals_sound (e.signal_class ∷ []) e.signals (bad, tt) (refl, tt))
  | inr fine ↦ rw fine (collect_signals_sound [] e.signals tt tt)
]
