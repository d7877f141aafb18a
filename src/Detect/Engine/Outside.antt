-- ===== src/Detect/Engine/Outside.antt =====
-- What OnAlert and OnDNSAnswer keep, a poll keeps.
use net_soldier.Prelude.{ℕ, Option, none, some, List, [], ◌∷◌, Text, ℤ, ltb, Bool-cases, inl, inr}
use net_soldier.Net.Ip.{IpParser}
use net_soldier.Detect.Alert.{Alert}
use net_soldier.Detect.Matcher.{Matcher, match_ip}
use net_soldier.Detect.Matcher.Severity.{Ioc}
use net_soldier.Detect.Engine.{
  Answer, QueryLogEntry, Engine, add_alert, emit_alert, emit_found, tell_answers, check_answers,
  handle_entry, poll_loop, poll, is_address, arrow,
}

module _ {S : Type 0} (net : IpParser) (resolve : Option (Text → Text × Text))
    (on_alert : Alert → S → S) (on_answer : Text → Text → ℤ → S → S) (P : S → Type 0)
    (keeps_alert : (a : Alert) (s : S) → P s → P (on_alert a s))
    (keeps_answer : (ip domain : Text) (ttl : ℤ) (s : S)
      → P s
      → P (on_answer ip domain ttl s)) where
  emit_found-P :
      (entry : QueryLogEntry) (domain : Text) (o : Option Ioc) (e : Engine S)
      → P e.outside
      → P (emit_found net resolve on_alert on_answer entry domain o e).outside
  unfolding emit_found emit_alert add_alert
  emit_found-P entry domain none e h = h
  emit_found-P entry domain (some ioc) e h = keeps_alert _ e.outside h

  tell_answers-P :
      (domain : Text) (as' : List Answer) (e : Engine S)
      → P e.outside
      → P (tell_answers net resolve on_alert on_answer domain as' e).outside
  unfolding tell_answers
  tell_answers-P domain [] e h = h
  tell_answers-P domain (a ∷ as') e h = elim (Bool-cases (is_address a)) [
    | inl told ↦
        rw (tell_answers, told)
          (tell_answers-P domain as' _ (keeps_answer a.value domain a.ttl e.outside h))
    | inr skipped ↦ rw (tell_answers, skipped) (tell_answers-P domain as' e h)
  ]

  check_answers-P :
      (m : Matcher) (entry : QueryLogEntry) (domain : Text) (as' : List Answer) (e : Engine S)
      → P e.outside
      → P (check_answers net resolve on_alert on_answer m entry domain as' e).outside
  unfolding check_answers
  check_answers-P m entry domain [] e h = h
  check_answers-P m entry domain (a ∷ as') e h = elim (Bool-cases (is_address a)) [
    | inl checked ↦
        rw (check_answers, checked)
          (check_answers-P m entry domain as' _
            (emit_found-P entry (arrow domain a.value) (match_ip net a.value m) e h))
    | inr skipped ↦ rw (check_answers, skipped) (check_answers-P m entry domain as' e h)
  ]

  handle_entry-P :
      (m : Matcher) (entry : QueryLogEntry) (e : Engine S)
      → P e.outside
      → P (handle_entry net resolve on_alert on_answer m entry e).outside
  unfolding handle_entry
  handle_entry-P m entry e h =
      check_answers-P m entry _ entry.answers _
        (emit_found-P entry _ _ _ (tell_answers-P _ entry.answers e h))

  poll_loop-P :
      (m : Matcher) (seen : ℕ) (entries : List QueryLogEntry) (e : Engine S)
      → P e.outside
      → P (poll_loop net resolve on_alert on_answer m seen entries e).outside
  unfolding poll_loop
  poll_loop-P m seen [] e h = h
  poll_loop-P m seen (entry ∷ entries) e h = elim (Bool-cases (ltb seen entry.time)) [
    | inr old ↦ rw (poll_loop, old) h
    | inl new ↦ rw (poll_loop, new) (poll_loop-P m seen entries _ (handle_entry-P m entry e h))
  ]

  -- A property of the outside that both callbacks keep holds after every poll.
  pub poll-P :
      (m : Matcher) (log : Option (List QueryLogEntry)) (e : Engine S)
      → P e.outside
      → P (poll net resolve on_alert on_answer m log e).outside
  unfolding poll
  poll-P m none e h = h
  poll-P m (some entries) e h = poll_loop-P m e.last_seen entries e h
