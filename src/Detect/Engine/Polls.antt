-- ===== src/Detect/Engine/Polls.antt =====
-- Polling: each entry of the log is handled once, and the ring of alerts is bounded.
use net_soldier.Prelude.{
  ℕ, zero, suc, ◌-◌, ◌≤◌, ◌≡◌, refl, ◌∙◌, true, false, Option, none, some, List, [], ◌∷◌, ◌++◌,
  arith, Text, ℤ, ltb, drop, length, Bool-cases, inl, inr,
}
use net_soldier.Net.Ip.{IpParser}
use net_soldier.Detect.Alert.{Alert}
use net_soldier.Detect.Matcher.{Matcher, match_ip}
use net_soldier.Detect.Matcher.Severity.{Ioc}
use net_soldier.Detect.Engine.{
  Answer, QueryLogEntry, Engine, max_alerts, pushed, add_alert, emit_alert, emit_found,
  tell_answers, check_answers, handle_entry, poll_loop, newest, poll, is_address, arrow,
}

length-drop : {A : Type 0} (n : ℕ) (xs : List A) → length (drop n xs) ≡ length xs - n
length-drop zero xs = omega arith
length-drop (suc n) [] = omega arith
length-drop (suc n) (x ∷ xs) = omega (arith, length-drop n xs)

length-pushed : (a : Alert) (alerts : List Alert) → length (pushed a alerts) ≤ max_alerts
unfolding pushed
length-pushed a alerts =
    let all = alerts ++ a ∷ [] in ground (arith, length-drop (length all - max_alerts) all)

module _ {S : Type 0} (net : IpParser) (resolve : Option (Text → Text × Text))
    (on_alert : Alert → S → S) (on_answer : Text → Text → ℤ → S → S) where
  -- What handling entries keeps: the time of the last poll, and the bound of the ring.
  record Keeps (e f : Engine S) : Type 0 where
    seen : f.last_seen ≡ e.last_seen
    bound : length e.alerts ≤ max_alerts → length f.alerts ≤ max_alerts

  Keeps-refl : (e : Engine S) → Keeps e e
  Keeps-refl e = record { seen = refl; bound = λ h. h }

  Keeps-trans : {e f g : Engine S} → Keeps e f → Keeps f g → Keeps e g
  Keeps-trans k l = record { seen = l.seen ∙ k.seen; bound = λ h. l.bound (k.bound h) }

  emit_found-Keeps :
      (entry : QueryLogEntry) (domain : Text) (o : Option Ioc) (e : Engine S)
      → Keeps e (emit_found net resolve on_alert on_answer entry domain o e)
  unfolding emit_found emit_alert add_alert
  emit_found-Keeps entry domain none e = Keeps-refl e
  emit_found-Keeps entry domain (some ioc) e = record {
    seen = refl;
    bound = λ h. length-pushed _ e.alerts;
  }

  tell_answers-Keeps :
      (domain : Text) (as' : List Answer) (e : Engine S)
      → Keeps e (tell_answers net resolve on_alert on_answer domain as' e)
  unfolding tell_answers
  tell_answers-Keeps domain [] e = Keeps-refl e
  tell_answers-Keeps domain (a ∷ as') e = elim (Bool-cases (is_address a)) [
    | inl told ↦
        rw (tell_answers, told)
          (Keeps-trans (record { seen = refl; bound = λ h. h }) (tell_answers-Keeps domain as' _))
    | inr skipped ↦ rw (tell_answers, skipped) (tell_answers-Keeps domain as' e)
  ]

  check_answers-Keeps :
      (m : Matcher) (entry : QueryLogEntry) (domain : Text) (as' : List Answer) (e : Engine S)
      → Keeps e (check_answers net resolve on_alert on_answer m entry domain as' e)
  unfolding check_answers
  check_answers-Keeps m entry domain [] e = Keeps-refl e
  check_answers-Keeps m entry domain (a ∷ as') e = elim (Bool-cases (is_address a)) [
    | inl checked ↦
        rw (check_answers, checked)
          (Keeps-trans (emit_found-Keeps entry (arrow domain a.value) (match_ip net a.value m) e)
            (check_answers-Keeps m entry domain as' _))
    | inr skipped ↦ rw (check_answers, skipped) (check_answers-Keeps m entry domain as' e)
  ]

  handle_entry-Keeps :
      (m : Matcher) (entry : QueryLogEntry) (e : Engine S)
      → Keeps e (handle_entry net resolve on_alert on_answer m entry e)
  unfolding handle_entry
  handle_entry-Keeps m entry e =
      Keeps-trans (tell_answers-Keeps _ entry.answers e)
        (Keeps-trans (emit_found-Keeps entry _ _ _) (check_answers-Keeps m entry _ entry.answers _))

  loop-Keeps :
      (m : Matcher) (seen : ℕ) (entries : List QueryLogEntry) (e : Engine S)
      → Keeps e (poll_loop net resolve on_alert on_answer m seen entries e)
  unfolding poll_loop
  loop-Keeps m seen [] e = Keeps-refl e
  loop-Keeps m seen (entry ∷ entries) e = elim (Bool-cases (ltb seen entry.time)) [
    | inr old ↦ rw (poll_loop, old) (Keeps-refl e)
    | inl new ↦
        rw (poll_loop, new)
          (Keeps-trans (handle_entry-Keeps m entry e) (loop-Keeps m seen entries _))
  ]

  -- Once the newest entry of a log was seen, the loop does nothing.
  loop_seen :
      (m : Matcher) (seen : ℕ) (entries : List QueryLogEntry) (e : Engine S)
      → newest entries seen ≡ seen
      → poll_loop net resolve on_alert on_answer m seen entries e ≡ e
  unfolding poll_loop newest
  loop_seen m seen [] e h = refl
  loop_seen m seen (entry ∷ entries) e h = elim (Bool-cases (ltb seen entry.time)) [
    | inr old ↦ rw (poll_loop, old) refl
    | inl new ↦
        let same : entry.time ≡ seen = ground arith in
        let never : true ≡ false = ground arith in cc never
  ]

  newest_again :
      (entries : List QueryLogEntry) (seen : ℕ)
      → newest entries (newest entries seen) ≡ newest entries seen
  unfolding newest
  newest_again [] seen = refl
  newest_again (entry ∷ entries) seen = ground arith

  -- Entries that stand before a log whose newest entry was seen are handled as if they were alone.
  loop_before_seen :
      (m : Matcher) (seen : ℕ) (fresh entries : List QueryLogEntry) (e : Engine S)
      → newest entries seen ≡ seen
      → poll_loop net resolve on_alert on_answer m seen (fresh ++ entries) e
        ≡ poll_loop net resolve on_alert on_answer m seen fresh e
  unfolding poll_loop
  loop_before_seen m seen [] entries e h = loop_seen m seen entries e h
  loop_before_seen m seen (entry ∷ fresh) entries e h = elim (Bool-cases (ltb seen entry.time)) [
    | inr old ↦ rw (poll_loop, old) refl
    | inl new ↦ rw (poll_loop, new) (loop_before_seen m seen fresh entries _ h)
  ]

  newest_before_seen :
      (fresh entries : List QueryLogEntry) (seen : ℕ)
      → newest entries seen ≡ seen
      → newest (fresh ++ entries) seen ≡ newest fresh seen
  unfolding newest
  newest_before_seen [] entries seen h = h
  newest_before_seen (entry ∷ fresh) entries seen h = refl

  -- A poll keeps the ring of alerts within its bound, when it was before, and when a later log holds the polled entries
  -- behind fresh ones, its poll does what a poll of the fresh ones alone does, so that no entry of
  -- the earlier log is handled again. The same log read again changes nothing.
  pub poll_twice :
      (m : Matcher) (fresh entries : List QueryLogEntry) (e : Engine S)
      → length e.alerts ≤ max_alerts
      → let once = poll net resolve on_alert on_answer m (some entries) e in
        (length once.alerts ≤ max_alerts)
        × (poll net resolve on_alert on_answer m (some (fresh ++ entries)) once
            ≡ poll net resolve on_alert on_answer m (some fresh) once)
        × (poll net resolve on_alert on_answer m (some entries) once ≡ once)
  unfolding poll
  poll_twice m fresh entries e h =
      let read = poll_loop net resolve on_alert on_answer m e.last_seen entries e in
      let once : Engine S = record read { last_seen = newest entries e.last_seen } in
      let again = newest_again entries e.last_seen in
      (
        (loop-Keeps m e.last_seen entries e).bound h,
        rw
            (
              loop_before_seen m once.last_seen fresh entries once again,
              newest_before_seen fresh entries once.last_seen again,
            )
            refl,
        rw (loop_seen m once.last_seen entries once again) (rw again refl),
      )
