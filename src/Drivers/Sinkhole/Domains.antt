-- ===== src/Drivers/Sinkhole/Domains.antt =====
-- A domain that passes validation cannot inject a filter rule.
use net_soldier.Prelude.{
  ℕ, ◌≤◌, ◌≡◌, refl, inl, inr, Bool, true, false, ◌||◌, some, List, [], ◌∷◌, arith, Text, codes,
  split, cons_first, every, exists-append, length, ◌==◌, Bool-cases, has_byte,
}
use net_soldier.Drivers.Sinkhole.{
  is_alnum, is_label_byte, is_label, matches_domain, validate_domain, rule_of,
}

-- The bytes of a plain hostname: letters, digits, hyphens and dots.
pub is_host_byte : ℕ → Bool
is_host_byte c = is_alnum c || c == b'-' || c == b'.'

label_bytes : (l : Text) → is_label l ≡ true → every is_label_byte l ≡ true
unfolding is_label is_label_byte
label_bytes [] h = refl
label_bytes (c ∷ s) h = ground arith

labels_bytes : (ls : List Text) → every is_label ls ≡ true → every (every is_label_byte) ls ≡ true
labels_bytes [] h = refl
labels_bytes (l ∷ ls) h = ground (arith, label_bytes l, labels_bytes ls)

every-cons_first :
    (c : ℕ) (ls : List Text)
    → every (every is_label_byte) (cons_first c ls) ≡ true
    → (is_label_byte c ≡ true) × (every (every is_label_byte) ls ≡ true)
unfolding cons_first
every-cons_first c [] h = (ground arith, refl)
every-cons_first c (l ∷ ls) h = ground arith

host_byte_of_label : (c : ℕ) → is_label_byte c ≡ true → is_host_byte c ≡ true
unfolding is_host_byte is_label_byte
host_byte_of_label c h = ground arith

host_byte_of_dot : (c : ℕ) → (c == b'.') ≡ true → is_host_byte c ≡ true
unfolding is_host_byte
host_byte_of_dot c h = ground arith

host_bytes :
    (d : Text) → every (every is_label_byte) (split b'.' d) ≡ true → every is_host_byte d ≡ true
unfolding split
host_bytes [] = λ h. refl
host_bytes (c ∷ s) = elim (Bool-cases (c == b'.')) [
  | inl dot ↦ rw dot (λ h. ground (arith, host_bytes s h, host_byte_of_dot c dot))
  | inr other ↦
      rw other (λ h.
        ground (arith, every-cons_first c (split b'.' s) h, host_byte_of_label c, host_bytes s))
]

matches_host : (d : Text) → matches_domain d ≡ true → every is_host_byte d ≡ true
unfolding matches_domain
matches_host d h =
    let e : every is_label (split b'.' d) ≡ true = ground arith in
    host_bytes d (labels_bytes (split b'.' d) e)

no_newline_in : (d : Text) → every is_host_byte d ≡ true → has_byte b'\n' d ≡ false
unfolding is_host_byte is_alnum
no_newline_in [] h = refl
no_newline_in (c ∷ s) h = ground (arith, no_newline_in s)

no_newline_rule : (d : Text) → has_byte b'\n' d ≡ false → has_byte b'\n' (rule_of d) ≡ false
unfolding rule_of
no_newline_rule d h = ground (arith, exists-append (λ c. b'\n' == c) d (codes "^"))

-- A domain that validation lets through is at most 253 bytes of letters, digits, hyphens and dots,
-- and its filter rule is one line.
pub validate_domain_plain :
    (domain : Text) {d : Text}
    → validate_domain domain ≡ some d
    → (length d ≤ 253) × (every is_host_byte d ≡ true) × (has_byte b'\n' (rule_of d) ≡ false)
unfolding validate_domain
validate_domain_plain domain {d} h =
    let m : matches_domain d ≡ true = ground arith in
    (ground arith, matches_host d m, no_newline_rule d (no_newline_in d (matches_host d m)))
