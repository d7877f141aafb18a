-- ===== src/Actions/Store/Eviction.antt =====
-- What eviction drops: terminal actions only, and enough of them.
use net_soldier.Prelude.{
  ℕ, ◌+◌, ◌-◌, ◌≤◌, ◌<◌, ◌≡◌, refl, ◌⊎◌, inl, inr, Bool, true, false, Option, none, some, List, [],
  ◌∷◌, arith, Text, lookup, delete, lookup-delete, Assoc, str_eq, str_eq_iff, Bool-cases, exists,
  leb, ltb, length, IsUnique, length-delete, delete-IsUnique,
}
use net_soldier.Events.Action.{EnforcementAction}
use net_soldier.Actions.Store.{
  Store, terminal, evict_loop, evict, verdict, Verdict, gone, drop, hold,
}

pub Verdict-cases : (v : Verdict) → (v ≡ gone) ⊎ ((v ≡ drop) ⊎ (v ≡ hold))
Verdict-cases gone = inl refl
Verdict-cases drop = inr (inl refl)
Verdict-cases hold = inr (inr refl)

-- A drop is of a terminal action, while the target is not reached.
pub verdict-drop :
    (o : Option EnforcementAction) (removed target : ℕ)
    → verdict o removed target ≡ drop
    → (a : EnforcementAction) × (o ≡ some a) × (terminal a.state ≡ true) × (removed < target)
unfolding verdict
verdict-drop none removed target h = cc
verdict-drop (some a) removed target h = (a, refl, ground arith, ground arith)

-- An action is left as it is, or is dropped from a terminal state.
abbrev pub Survives : Option EnforcementAction → Option EnforcementAction → Type 0
Survives o o' =
    (o ≡ o') ⊎ ((a : EnforcementAction) × (o ≡ some a) × (terminal a.state ≡ true) × (o' ≡ none))

Survives-delete :
    (id j : Text) (m : Assoc EnforcementAction) (a : EnforcementAction)
    (o : Option EnforcementAction)
    → lookup id m ≡ some a
    → terminal a.state ≡ true
    → Survives (lookup j (delete id m)) o
    → Survives (lookup j m) o
Survives-delete id j m a o found t h = elim (Bool-cases (str_eq id j)) [
  | inl same ↦
      let e : lookup j (delete id m) ≡ none = rw (lookup-delete id j m, same) in
      let at : lookup j m ≡ some a = rw (← (str_eq_iff id j).0 same) found in
      inr (a, at, t, ground (arith, e))
  | inr other ↦
      let e : lookup j (delete id m) ≡ lookup j m = rw (lookup-delete id j m, other) in rw e at h
]

pub evict_loop-Survives :
    (ids : List Text) (removed target : ℕ) (m : Assoc EnforcementAction) (j : Text)
    → Survives (lookup j m) (lookup j (evict_loop ids removed target m).0)
unfolding evict_loop
evict_loop-Survives [] removed target m j = inl refl
evict_loop-Survives (id ∷ ids) removed target m j =
    elim (Verdict-cases (verdict (lookup id m) removed target)) [
      | inl e ↦ rw (e, evict_loop) (evict_loop-Survives ids removed target m j)
      | inr (inl e) ↦
          let (a, found, t, room) = verdict-drop (lookup id m) removed target e in
          rw (e, evict_loop)
            (Survives-delete id j m a _ found t
              (evict_loop-Survives ids (removed + 1) target (delete id m) j))
      | inr (inr e) ↦ rw (e, evict_loop) (evict_loop-Survives ids removed target m j)
    ]

pub evict-Survives :
    (s : Store) (j : Text) → Survives (lookup j s.actions) (lookup j (evict s).actions)
unfolding evict
evict-Survives s j = elim (Bool-cases (leb (length s.actions) s.max_actions)) [
  | inl small ↦ rw small (inl refl)
  | inr large ↦
      rw large (evict_loop-Survives s.order 0 (length s.actions - s.max_actions) s.actions j)
]

abbrev pub listed : Text → List Text → Bool
listed j = exists (λ k. str_eq k j)

-- Every terminal action of the map is still to come in the order.
abbrev IsCovered : List Text → Assoc EnforcementAction → Type 0
IsCovered ids m =
    (j : Text) (a : EnforcementAction)
    → lookup j m ≡ some a
    → (terminal a.state ≡ false) ⊎ (listed j ids ≡ true)

abbrev pub IsLive : Assoc EnforcementAction → Type 0
IsLive m = (j : Text) (a : EnforcementAction) → lookup j m ≡ some a → terminal a.state ≡ false

pub verdict-gone :
    (o : Option EnforcementAction) (removed target : ℕ) → verdict o removed target ≡ gone → o ≡ none
unfolding verdict
verdict-gone none removed target h = refl
verdict-gone (some a) removed target h = ground arith

verdict-hold :
    (o : Option EnforcementAction) (a : EnforcementAction) (removed target : ℕ)
    → verdict o removed target ≡ hold
    → removed < target
    → o ≡ some a
    → terminal a.state ≡ false
unfolding verdict
verdict-hold o a removed target h room e = ground arith

-- Once the target is reached nothing more is dropped.
evict_loop_done :
    (ids : List Text) (target : ℕ) (m : Assoc EnforcementAction)
    → (evict_loop ids target target m).0 ≡ m
unfolding evict_loop
evict_loop_done [] target m = refl
evict_loop_done (id ∷ ids) target m = elim (Verdict-cases (verdict (lookup id m) target target)) [
  | inl e ↦ rw (e, evict_loop) (evict_loop_done ids target m)
  | inr (inl e) ↦
      let (a, found, t, room) = verdict-drop (lookup id m) target target e in absurd (omega arith)
  | inr (inr e) ↦ rw (e, evict_loop) (evict_loop_done ids target m)
]

-- Dropping, or passing over, the head of the order keeps what is to come covered.
IsCovered-tail :
    (id : Text) (ids : List Text) (m : Assoc EnforcementAction)
    → IsCovered (id ∷ ids) m
    → ((a : EnforcementAction) → lookup id m ≡ some a → terminal a.state ≡ false)
    → IsCovered ids m
IsCovered-tail id ids m c live j a found = elim (Bool-cases (str_eq id j)) [
  | inl same ↦ inl (live a (rw ((str_eq_iff id j).0 same) found))
  | inr other ↦ ground (arith, c j a found)
]

IsCovered-delete :
    (id : Text) (ids : List Text) (m : Assoc EnforcementAction)
    → IsCovered (id ∷ ids) m
    → IsCovered ids (delete id m)
IsCovered-delete id ids m c j a found = ground (arith, c j a, lookup-delete id j m)

evict_loop_bound :
    (ids : List Text) (removed target : ℕ) (m : Assoc EnforcementAction)
    → removed ≤ target
    → IsUnique m
    → IsCovered ids m
    → (length (evict_loop ids removed target m).0 + target ≡ length m + removed)
      ⊎ IsLive (evict_loop ids removed target m).0
unfolding evict_loop
evict_loop_bound [] removed target m le u c = inr (λ j a found. ground (arith, c j a found))
evict_loop_bound (id ∷ ids) removed target m le u c = elim (Bool-cases (ltb removed target)) [
  | inl room ↦ elim (Verdict-cases (verdict (lookup id m) removed target)) [
    | inl e ↦
        rw (e, evict_loop)
          (evict_loop_bound ids removed target m le u (
            IsCovered-tail id ids m c
              (λ a found. ground (arith, verdict-gone (lookup id m) removed target e))))
    | inr (inl e) ↦
        let (a, found, t, below) = verdict-drop (lookup id m) removed target e in
        let shorter : length (delete id m) + 1 ≡ length m = length-delete id m u (rw found refl) in
        rw (e, evict_loop)
          (elim (evict_loop_bound ids (removed + 1) target (delete id m) (omega arith)
            (delete-IsUnique id m u) (IsCovered-delete id ids m c)) [
              | inl n ↦ inl (omega (arith, n, shorter))
              | inr live ↦ inr live
            ])
    | inr (inr e) ↦
        rw (e, evict_loop)
          (evict_loop_bound ids removed target m le u (
            IsCovered-tail id ids m c
              (λ a found. verdict-hold (lookup id m) a removed target e (ground arith) found)))
  ]
  | inr full ↦
      let done : removed ≡ target = ground arith in
      inl (rw done (rw (evict_loop_done (id ∷ ids) target m)))
]

-- After an eviction the map is within its bound, or holds no terminal action.
pub evict_bound :
    (s : Store)
    → IsUnique s.actions
    → IsCovered s.order s.actions
    → (length (evict s).actions ≤ s.max_actions) ⊎ IsLive (evict s).actions
unfolding evict
evict_bound s u c = elim (Bool-cases (leb (length s.actions) s.max_actions)) [
  | inl small ↦ rw small (inl (ground arith))
  | inr large ↦
      rw large
        (elim (evict_loop_bound s.order 0 (length s.actions - s.max_actions) s.actions (omega arith)
          u c) [ inl n ↦ inl (ground (arith, n)) | inr live ↦ inr live ])
]
