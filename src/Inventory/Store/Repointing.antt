-- ===== src/Inventory/Store/Repointing.antt =====
-- What a client that forges its DHCP options can do to the rows of other devices.
use net_soldier.Prelude.{
  ℕ, ◌≡◌, refl, arith, Bool, true, false, not, ◌&&◌, some, List, [], ◌∷◌, ◌++◌, Text, is_empty,
  exists, All, All-append, str_eq, str_eq_iff, Bool-cases, inl, inr, sym, ap, ◌∙◌,
}
use net_soldier.Inventory.Store.{
  Device, Table, Observation, is_randomized_mac, update_where, get_device, has_mac, new_device,
  insert_device, is_rotation_of, repointed, rotate, upsert_full,
}

-- The column randomized_mac says of each row what its address says.
unfoldable pub IsFlagged : Table → Type 0
IsFlagged t = All (λ (d : Device). d.randomized_mac ≡ is_randomized_mac d.mac) t

IsFlagged-update :
    (p : Device → Bool) (f : Device → Device) (t : Table)
    → ((d : Device) → p d ≡ true → (f d).randomized_mac ≡ is_randomized_mac (f d).mac)
    → IsFlagged t
    → IsFlagged (update_where p f t)
unfolding IsFlagged update_where
IsFlagged-update p f [] own h = tt
IsFlagged-update p f (d ∷ ds) own h = elim (Bool-cases (p d)) [
  | inl hit ↦ rw hit (own d hit, IsFlagged-update p f ds own h.1)
  | inr miss ↦ rw miss (h.0, IsFlagged-update p f ds own h.1)
]

-- An update that neither touches nor makes a row of an address leaves what is found there.
get_device-update :
    (mac : Text) (p : Device → Bool) (f : Device → Device) (t : Table)
    → All
        (λ (d : Device). p d ≡ true → (str_eq d.mac mac ≡ false) × (str_eq (f d).mac mac ≡ false))
        t
    → get_device mac (update_where p f t) ≡ get_device mac t
unfolding get_device update_where
get_device-update mac p f [] h = refl
get_device-update mac p f (d ∷ ds) h = elim (Bool-cases (p d)) [
  | inl hit ↦
      let other = h.0 hit in rw (hit, other.0, other.1, get_device-update mac p f ds h.1) refl
  | inr miss ↦ rw (miss, get_device-update mac p f ds h.1) refl
]

get_device-append :
    (mac : Text) (t : Table) (d : Device)
    → str_eq d.mac mac ≡ false
    → get_device mac (t ++ d ∷ []) ≡ get_device mac t
unfolding get_device
get_device-append mac [] d h = rw h refl
get_device-append mac (e ∷ t) d h = rw (get_device-append mac t d h) refl

All-from :
    {A : Type 0} (P Q : A → Type 0) (xs : List A) → ((x : A) → P x → Q x) → All P xs → All Q xs
All-from P Q [] f h = tt
All-from P Q (x ∷ xs) f h = (f x h.0, All-from P Q xs f h.1)

-- What a step does, seen from an address that is not randomized and not the client's own.
Spares : Observation → Table → Table → Type 0
Spares o t t' =
    IsFlagged t'
    × ((mac : Text)
        → is_randomized_mac mac ≡ false
        → str_eq o.mac mac ≡ false
        → get_device mac t' ≡ get_device mac t)

same_mac : (a b c : Text) → str_eq a b ≡ true → str_eq b c ≡ false → str_eq a c ≡ false
same_mac a b c h k = rw ((str_eq_iff a b).0 h) k

insert-Spares :
    (now : ℕ) (sid : Text) (o : Observation) (t : Table)
    → IsFlagged t
    → Spares o t (insert_device now sid o t)
unfolding Spares insert_device IsFlagged
insert-Spares now sid o t h = elim (Bool-cases (has_mac o.mac t)) [
  | inr new ↦
      rw (insert_device, new)
        (
          All-append _ t (new_device now sid o ∷ []) h ((unfold new_device in refl), tt),
          λ mac real other.
              get_device-append mac t (new_device now sid o) (unfold new_device in other),
        )
  | inl known ↦
      rw (insert_device, known)
        (
          IsFlagged-update _ _ t
              (λ d hit. ap is_randomized_mac (sym ((str_eq_iff d.mac o.mac).0 hit))) h,
          λ mac real other. get_device-update mac _ _ t (
              All-from _ _ t
                (λ d flag hit.
                  (same_mac d.mac o.mac mac hit other, same_mac d.mac o.mac mac hit other))
                h),
        )
]

-- Two addresses of which one is randomized differ.
differ :
    (a b : Text) → is_randomized_mac a ≡ true → is_randomized_mac b ≡ false → str_eq a b ≡ false
differ a b h k = elim (Bool-cases (str_eq a b)) [
  | inr other ↦ other
  | inl same ↦
      let never : true ≡ false = sym h ∙ ap is_randomized_mac ((str_eq_iff a b).0 same) ∙ k in
      cc never
]

rotation_flag : (sid : Text) (d : Device) → is_rotation_of sid d ≡ true → d.randomized_mac ≡ true
unfolding is_rotation_of
rotation_flag sid d h = ground arith

rotate-Spares :
    (now : ℕ) (sid : Text) (o : Observation) (t t' : Table)
    → is_randomized_mac o.mac ≡ true
    → IsFlagged t
    → rotate now sid o t ≡ some t'
    → Spares o t t'
unfolding Spares rotate IsFlagged is_rotation_of
rotate-Spares now sid o t t' random h e =
    let rows = update_where (is_rotation_of sid) (repointed now o) t in
    let same : rows ≡ t' = ground arith in
    rw (sym same) (
      IsFlagged-update _ _ t (λ d hit. unfold repointed in (rotation_flag sid d hit ∙ sym random))
          h,
      λ mac real other. get_device-update mac _ _ t (
          All-from _ _ t
            (λ d flag hit. (
              differ d.mac mac (sym flag ∙ rotation_flag sid d hit) real,
              (unfold repointed in other),
            ))
            h),
    )

-- Whatever a client claims: UpsertFull changes no row that has an address of its own, neither
-- randomized nor the client's, and each row's flag goes on saying whether its address is
-- randomized.
pub upsert_full-spares :
    (stable_id : Text → Text → Text) (now : ℕ) (o : Observation) (t t' : Table)
    → IsFlagged t
    → upsert_full stable_id now o t ≡ some t'
    → IsFlagged t'
      × ((mac : Text)
          → is_randomized_mac mac ≡ false
          → str_eq o.mac mac ≡ false
          → get_device mac t' ≡ get_device mac t)
unfolding upsert_full Spares
upsert_full-spares stable_id now o t t' h e =
    let sid = stable_id o.vendor_class o.hostname in
    elim (Bool-cases (is_randomized_mac o.mac)) [
      | inr real ↦
          let same : insert_device now [] o t ≡ t' = ground arith in
          rw (sym same) (insert-Spares now [] o t h)
      | inl random ↦
          elim (Bool-cases (not (is_empty o.vendor_class) && exists (is_rotation_of sid) t)) [
            | inl rotation ↦ rotate-Spares now sid o t t' random h (ground arith)
            | inr none_known ↦ elim (Bool-cases (is_empty o.vendor_class)) [
              | inl unnamed ↦
                  let same : insert_device now [] o t ≡ t' = ground arith in
                  rw (sym same) (insert-Spares now [] o t h)
              | inr named ↦
                  let same : insert_device now sid o t ≡ t' = ground arith in
                  rw (sym same) (insert-Spares now sid o t h)
            ]
          ]
    ]
