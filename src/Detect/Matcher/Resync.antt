-- ===== src/Detect/Matcher/Resync.antt =====
-- A feed that is synced again adds nothing.
use net_soldier.Prelude.{
  ◌≡◌, refl, ◌∙◌, inl, inr, Bool, true, false, Option, none, some, List, [], ◌∷◌, arith, Text,
  codes, Assoc, lookup, lookup-insert, is_some, length, length-insert_old, str_eq, str_eq_refl,
  if◌then◌else◌, Option-cases, is_empty, to_lower, trim_space, has_byte, ◌==◌, ◌&&◌, ltb,
}
use net_soldier.Net.Ip.{IpParser, IpNet, Ip}
use net_soldier.Detect.Matcher.{
  Matcher, CidrEntry, Added, add, add_loop, add_one, counted, put, put_net, replaces, entry_ioc,
  enriched, add_domain, add_cidr, add_host, add_hash, size, host_of,
}
use net_soldier.Detect.Matcher.Severity.{Ioc}
use net_soldier.Detect.Matcher.Validate.{validate_domain_indicator}

-- A key that is there stays, and so does the size, when it is put again.
is_some-put :
    (k j : Text) (ioc : Ioc) (m : Assoc Ioc)
    → is_some (lookup j m) ≡ true
    → is_some (lookup j (put k ioc m)) ≡ true
unfolding put
is_some-put k j ioc m h = ground (arith, lookup-insert k j ioc m)

has-put : (k : Text) (ioc : Ioc) (m : Assoc Ioc) → is_some (lookup k (put k ioc m)) ≡ true
unfolding put replaces
has-put k ioc m = ground (arith, lookup-insert k k ioc m, str_eq_refl k)

length-put :
    (k : Text) (ioc : Ioc) (m : Assoc Ioc)
    → is_some (lookup k m) ≡ true
    → length (put k ioc m) ≡ length m
unfolding put
length-put k ioc m h = ground (arith, length-insert_old k ioc m h)

is_some-put_net :
    (k j : Text) (e : CidrEntry) (m : Assoc CidrEntry)
    → is_some (lookup j m) ≡ true
    → is_some (lookup j (put_net k e m)) ≡ true
unfolding put_net
is_some-put_net k j e m h = ground (arith, lookup-insert k j e m)

has-put_net :
    (k : Text) (e : CidrEntry) (m : Assoc CidrEntry) → is_some (lookup k (put_net k e m)) ≡ true
unfolding put_net replaces entry_ioc
has-put_net k e m = ground (arith, lookup-insert k k e m, str_eq_refl k)

length-put_net :
    (k : Text) (e : CidrEntry) (m : Assoc CidrEntry)
    → is_some (lookup k m) ≡ true
    → length (put_net k e m) ≡ length m
unfolding put_net
length-put_net k e m h = ground (arith, length-insert_old k e m h)

-- Every key of the first matcher is one of the second.
record Covers (m n : Matcher) : Type 0 where
  domains : (k : Text) → is_some (lookup k m.domains) ≡ true → is_some (lookup k n.domains) ≡ true
  ips : (k : Text) → is_some (lookup k m.ips) ≡ true → is_some (lookup k n.ips) ≡ true
  cidrs : (k : Text) → is_some (lookup k m.cidrs) ≡ true → is_some (lookup k n.cidrs) ≡ true
  hashes : (k : Text) → is_some (lookup k m.hashes) ≡ true → is_some (lookup k n.hashes) ≡ true

Covers-refl : (m : Matcher) → Covers m m
Covers-refl m = record { domains = λ k h. h; ips = λ k h. h; cidrs = λ k h. h; hashes = λ k h. h }

Covers-trans : {l m n : Matcher} → Covers l m → Covers m n → Covers l n
Covers-trans c d = record {
  domains = λ k h. d.domains k (c.domains k h);
  ips = λ k h. d.ips k (c.ips k h);
  cidrs = λ k h. d.cidrs k (c.cidrs k h);
  hashes = λ k h. d.hashes k (c.hashes k h);
}

-- A change that keeps every key, that no matcher rejects unless all do, and that leaves the size of a
-- matcher that has the keys already.
record Settles (f : Matcher → Option Matcher) : Type 0 where
  grows : (m n : Matcher) → f m ≡ some n → Covers m n
  total : (m n l : Matcher) → f m ≡ some n → (k : Matcher) × (f l ≡ some k)
  again : (m n l k : Matcher) → f m ≡ some n → Covers n l → f l ≡ some k → size k ≡ size l

Settles-none : Settles (λ m. none)
Settles-none = record { grows = λ m n h. cc; total = λ m n l h. cc; again = λ m n l k h. cc }

Settles-write :
    (f : Matcher → Matcher)
    → ((m : Matcher) → Covers m (f m))
    → ((m l : Matcher) → Covers (f m) l → size (f l) ≡ size l)
    → Settles (λ m. some (f m))
Settles-write f keeps again = record {
  grows = λ m n h. let e : f m ≡ n = ground arith in rw (← e) (keeps m);
  total = λ m n l h. (f l, refl);
  again = λ m n l k h c e.
      let first : f m ≡ n = ground arith in
      let second : f l ≡ k = ground arith in rw (← second) (again m l (rw first c));
}

Settles-if :
    (b : Bool) (f g : Matcher → Option Matcher)
    → Settles f
    → Settles g
    → Settles (λ m. if b then f m else g m)
Settles-if true f g s t = s
Settles-if false f g s t = t

Settles-domain : (ioc : Ioc) (o : Option Text) → Settles (add_domain ioc o)
unfolding add_domain size
Settles-domain ioc none = Settles-none
Settles-domain ioc (some d) =
    let j : Ioc = record ioc { value = d } in
    Settles-write (λ m. record m { domains = put d j m.domains })
      (λ m. record {
        domains = λ k. is_some-put d k j m.domains;
        ips = λ k h. h;
        cidrs = λ k h. h;
        hashes = λ k h. h;
      })
      (λ m l c. rw (length-put d j l.domains (c.domains d (has-put d j m.domains))) refl)

Settles-cidr : (ioc : Ioc) (o : Option IpNet) → Settles (add_cidr ioc o)
unfolding add_cidr size
Settles-cidr ioc none = Settles-none
Settles-cidr ioc (some n) =
    let e : CidrEntry = record { net = n; ioc = ioc } in
    Settles-if (n.ones == 0 && ltb 0 n.bits) _ _ Settles-none (
      Settles-write (λ m. record m { cidrs = put_net n.text e m.cidrs })
        (λ m. record {
          domains = λ k h. h;
          ips = λ k h. h;
          cidrs = λ k. is_some-put_net n.text k e m.cidrs;
          hashes = λ k h. h;
        })
        (λ m l c.
          rw (length-put_net n.text e l.cidrs (c.cidrs n.text (has-put_net n.text e m.cidrs)))
            refl))

Settles-host : (ioc : Ioc) (o : Option Ip) → Settles (add_host ioc o)
unfolding add_host size
Settles-host ioc none = Settles-none
Settles-host ioc (some ip) =
    let j : Ioc = record ioc { value = ip.text } in
    Settles-write (λ m. record m { ips = put ip.text j m.ips })
      (λ m. record {
        domains = λ k h. h;
        ips = λ k. is_some-put ip.text k j m.ips;
        cidrs = λ k h. h;
        hashes = λ k h. h;
      })
      (λ m l c. rw (length-put ip.text j l.ips (c.ips ip.text (has-put ip.text j m.ips))) refl)

Settles-hash : (ioc : Ioc) → Settles (add_hash ioc)
unfolding add_hash size
Settles-hash ioc =
    let k = to_lower (trim_space ioc.value) in
    Settles-if (is_empty k) _ _ Settles-none (
      Settles-write (λ m. record m { hashes = put k ioc m.hashes })
        (λ m. record {
          domains = λ k h. h;
          ips = λ k h. h;
          cidrs = λ k h. h;
          hashes = λ j. is_some-put k j ioc m.hashes;
        })
        (λ m l c. rw (length-put k ioc l.hashes (c.hashes k (has-put k ioc m.hashes))) refl))

module _ (net : IpParser) where
  Settles-one : (ioc : Ioc) → Settles (add_one net ioc)
  unfolding add_one
  Settles-one ioc =
      let e = enriched ioc in
      Settles-if (str_eq ioc.kind (codes "domain")) _ _
        (Settles-domain e (validate_domain_indicator ioc.value))
        (Settles-if (str_eq ioc.kind (codes "ip")) _ _
          (Settles-if (has_byte b'/' ioc.value) _ _
            (Settles-cidr e (net.parse_cidr (trim_space ioc.value)))
            (Settles-host e (net.parse_ip (host_of net (trim_space ioc.value)))))
          (Settles-if _ _ _ (Settles-hash e) Settles-none))

  counted_grows :
      (ioc : Ioc) (r : Added) → Covers r.matcher (counted r (add_one net ioc r.matcher)).matcher
  unfolding counted
  counted_grows ioc r = elim (Option-cases (add_one net ioc r.matcher)) [
    | inl e ↦ rw (e, counted) (Covers-refl r.matcher)
    | inr (m, e) ↦ rw (e, counted) ((Settles-one ioc).grows r.matcher m e)
  ]

  loop_grows : (iocs : List Ioc) (r : Added) → Covers r.matcher (add_loop net iocs r).matcher
  unfolding add_loop
  loop_grows [] r = Covers-refl r.matcher
  loop_grows (ioc ∷ iocs) r =
      Covers-trans (counted_grows ioc r) (loop_grows iocs (counted r (add_one net ioc r.matcher)))

  -- One indicator, put into a matcher that has seen it.
  counted_again :
      (ioc : Ioc) (r s : Added)
      → Covers (counted r (add_one net ioc r.matcher)).matcher s.matcher
      → size (counted s (add_one net ioc s.matcher)).matcher ≡ size s.matcher
  unfolding counted
  counted_again ioc r s c = elim (Option-cases (add_one net ioc s.matcher)) [
    | inl e ↦ rw (e, counted) refl
    | inr (k, e) ↦
        let (n, first) = (Settles-one ioc).total s.matcher k r.matcher e in
        let seen : Covers n s.matcher = rw (first, counted) at c in
        rw (e, counted) ((Settles-one ioc).again r.matcher n s.matcher k first seen e)
  ]

  loop_again :
      (iocs : List Ioc) (r s : Added)
      → Covers (add_loop net iocs r).matcher s.matcher
      → size (add_loop net iocs s).matcher ≡ size s.matcher
  unfolding add_loop
  loop_again [] r s c = refl
  loop_again (ioc ∷ iocs) r s c =
      let r' = counted r (add_one net ioc r.matcher) in
      loop_again iocs r' (counted s (add_one net ioc s.matcher))
        (Covers-trans c (counted_grows ioc s))
      ∙ counted_again ioc r s (Covers-trans (loop_grows iocs r') c)

  -- Adding a feed to a matcher that has it already leaves the matcher's size as it is: what the
  -- periodic sync adds again takes no more room.
  pub size-add_again :
      (iocs : List Ioc) (m : Matcher)
      → size (add net iocs (add net iocs m).matcher).matcher ≡ size (add net iocs m).matcher
  unfolding add
  size-add_again iocs m =
      let start : Added = record { matcher = m; added = 0; rejected = 0 } in
      let once = (add_loop net iocs start).matcher in
      loop_again iocs start (record { matcher = once; added = 0; rejected = 0 }) (Covers-refl once)
