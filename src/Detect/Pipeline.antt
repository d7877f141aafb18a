-- ===== src/Detect/Pipeline.antt =====
-- apps/detection-engine/cmd/detection-engine/main.go: what an alert goes through before it is forwarded
-- to the killswitch. `sender` holds the events given to the sender of the webhook, when there is one. One
-- alert sees one time of the clock.
pub mod Gate
pub mod Polls
use net_soldier.Prelude.{
  ℕ, Bool, true, false, ◌||◌, Option, none, some, List, [], ◌∷◌, ◌++◌, Text, codes, is_empty,
  strip_prefix, str_eq, if◌then◌else◌,
}
use net_soldier.Events.Detection.{DetectionEvent}
use net_soldier.Detect.Alert.{Alert}
use net_soldier.Detect.EventMap.{alert_to_event}
use net_soldier.Detect.Feedback
use net_soldier.Detect.Feedback.{suppressed}
use net_soldier.Detect.Composite.{Float64, Correlator, observe}

pub record Pipeline : Type 0 where
  pub feedback : Feedback.Store
  pub correlate : Correlator
  pub sender : Option (List DetectionEvent)

-- forward, which is nil without a sender.
unfoldable pub send : Alert → Option (List DetectionEvent) → Option (List DetectionEvent)
send a none = none
send a (some sent) = some (sent ++ alert_to_event a ∷ [])

-- What the correlator does with a composite, and OnAlert with an alert that formed none.
forward_unless : Bool → Alert → Pipeline → Pipeline
unfolding send
forward_unless true a p = p
forward_unless false a p = record p { sender = send a p.sender }

emit_composite : ℕ → Alert → Pipeline → Pipeline
unfolding forward_unless
emit_composite now comp p =
    let asked = suppressed now comp p.feedback in
    forward_unless asked.0 comp (record p { feedback = asked.1 })

-- The end of OnAlert.
after_observe : ℕ → Alert → Option Alert × Correlator → Pipeline → Pipeline
unfolding emit_composite forward_unless
after_observe now a (none, c) p = forward_unless false a (record p { correlate = c })
after_observe now a (some comp, c) p = emit_composite now comp (record p { correlate = c })

unless_suppressed : Float64 → ℕ → Alert → Bool → Pipeline → Pipeline
unfolding after_observe
unless_suppressed float now a true p = p
unless_suppressed float now a false p = after_observe now a (observe float now a p.correlate) p

-- engine.OnAlert
unfoldable pub on_alert : Float64 → ℕ → Alert → Pipeline → Pipeline
unfolding unless_suppressed
on_alert float now a p =
    let asked = suppressed now a p.feedback in
    unless_suppressed float now a asked.0 (record p { feedback = asked.1 })

-- authMiddleware: whether a request is handed on.
unfoldable pub admits : Text → Text → Text → Bool
admits api_key method authorization =
    if str_eq method (codes "GET") || is_empty api_key
    then true
    else elim (strip_prefix (codes "Bearer ") authorization) [
      | none ↦ false
      | some token ↦ str_eq token api_key
    ]

-- envOr
unfoldable pub env_or : Text → Text → Text
env_or value fallback = if is_empty value then fallback else value

-- parseDuration; the parser of time.Duration is a parameter.
unfoldable pub parse_duration : (Text → Option ℕ) → Text → ℕ → ℕ
parse_duration parse s fallback = elim (parse s) [ none ↦ fallback | some d ↦ d ]
