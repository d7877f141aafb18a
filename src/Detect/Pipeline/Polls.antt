-- ===== src/Detect/Pipeline/Polls.antt =====
-- From the query log to the killswitch: a poll of the engine whose alerts go through the pipeline.
use net_soldier.Prelude.{
  ℕ, ◌≡◌, refl, ◌∙◌, arith, Bool, true, false, Option, none, some, List, Text, ℤ, inl, inr,
}
use mathlib.Core.Path.{subst}
use net_soldier.Events.Detection.{DetectionEvent}
use net_soldier.Net.Ip.{IpParser}
use net_soldier.Detect.Alert.{Alert}
use net_soldier.Detect.Matcher.{Matcher}
use net_soldier.Detect.Engine.{QueryLogEntry, Engine, poll}
use net_soldier.Detect.Engine.Outside.{poll-P}
use net_soldier.Detect.Feedback.{Verdict, Options, suppressed}
use net_soldier.Detect.Feedback.Standing.{Runs, silenced}
use net_soldier.Detect.Composite.{Float64, Correlator}
use net_soldier.Detect.DnsCache.{DnsCache, set}
use net_soldier.Detect.Pipeline.{
  Pipeline, send, forward_unless, emit_composite, after_observe, unless_suppressed, on_alert,
}
use net_soldier.Detect.Pipeline.Gate.{Gated, Passes, on_alert-Gated}

-- The state behind the callbacks of main: the pipeline and the cache of resolved names.
pub record Outside : Type 0 where
  pub pipeline : Pipeline
  pub dns_cache : DnsCache

unfoldable pub tell_pipeline : Float64 → ℕ → Alert → Outside → Outside
tell_pipeline float now a o = record o { pipeline = on_alert float now a o.pipeline }

unfoldable pub tell_cache : ℕ → Text → Text → ℤ → Outside → Outside
tell_cache now ip domain ttl o = record o { dns_cache = set now ip domain ttl o.dns_cache }

-- What was sent before, and then events of alerts that no verdict silences.
pub data Extends (now ttl : ℕ) (vs : List Verdict) (before : Option (List DetectionEvent))
    : Option (List DetectionEvent) → Type 0 where
  nothing_more : Extends now ttl vs before before
  one_more :
      (x : Alert) (s : Option (List DetectionEvent))
      → silenced now ttl x vs ≡ false
      → Extends now ttl vs before s
      → Extends now ttl vs before (send x s)

forward_unless-ttl :
    (b : Bool) (x : Alert) (p : Pipeline) → (forward_unless b x p).feedback.ttl ≡ p.feedback.ttl
unfolding forward_unless
forward_unless-ttl true x p = refl
forward_unless-ttl false x p = refl

after_observe-ttl :
    (now : ℕ) (a : Alert) (o : Option Alert × Correlator) (p : Pipeline)
    → (after_observe now a o p).feedback.ttl ≡ p.feedback.ttl
unfolding after_observe emit_composite suppressed
after_observe-ttl now a (none, c) p = forward_unless-ttl false a (record p { correlate = c })
after_observe-ttl now a (some comp, c) p = forward_unless-ttl _ comp _

unless_suppressed-ttl :
    (float : Float64) (now : ℕ) (a : Alert) (b : Bool) (p : Pipeline)
    → (unless_suppressed float now a b p).feedback.ttl ≡ p.feedback.ttl
unfolding unless_suppressed
unless_suppressed-ttl float now a true p = refl
unless_suppressed-ttl float now a false p = after_observe-ttl now a _ p

on_alert-ttl :
    (float : Float64) (now : ℕ) (a : Alert) (p : Pipeline)
    → (on_alert float now a p).feedback.ttl ≡ p.feedback.ttl
unfolding on_alert suppressed
on_alert-ttl float now a p = unless_suppressed-ttl float now a _ _

module _ (float : Float64) (sink : Option (List Verdict)) (opts : Options) (now ttl : ℕ)
    (vs : List Verdict) (before : Option (List DetectionEvent)) where
  -- What a poll keeps.
  IsQuiet : Outside → Type 0
  IsQuiet o =
      Runs sink opts now vs o.pipeline.feedback
      × (o.pipeline.feedback.ttl ≡ ttl)
      × Extends now ttl vs before o.pipeline.sender

  extend :
      (p q : Pipeline)
      → Passes sink opts ttl now vs q p.sender
      → Extends now ttl vs before p.sender
      → Extends now ttl vs before q.sender
  unfolding Passes
  extend p q (inl same) e = rw same e
  extend p q (inr (x, loud, added)) e = rw added (one_more x p.sender loud e)

  tell_pipeline-IsQuiet :
      (a : Alert) (o : Outside) → IsQuiet o → IsQuiet (tell_pipeline float now a o)
  unfolding IsQuiet tell_pipeline Gated
  tell_pipeline-IsQuiet a o (runs, same, e) =
      let p = o.pipeline in
      let gated = (on_alert-Gated float sink opts now now vs a p runs (omega arith)).0 in
      (
        gated.1,
        on_alert-ttl float now a p ∙ same,
        extend p (on_alert float now a p)
            (subst (λ t. Passes sink opts t now vs (on_alert float now a p) p.sender) same gated.0)
            e,
      )

  tell_cache-IsQuiet :
      (ip domain : Text) (ttl' : ℤ) (o : Outside)
      → IsQuiet o
      → IsQuiet (tell_cache now ip domain ttl' o)
  unfolding IsQuiet tell_cache
  tell_cache-IsQuiet ip domain ttl' o h = h

-- Whatever verdicts were recorded and questions asked up to now: a poll of the query log puts before
-- the killswitch, after what was sent before, only events of alerts and composites that no
-- verdict in force silences, whatever the log holds.
pub poll-sends :
    (net : IpParser) (resolve : Option (Text → Text × Text)) (float : Float64) (m : Matcher)
    (log : Option (List QueryLogEntry)) (sink : Option (List Verdict)) (opts : Options) (now : ℕ)
    (vs : List Verdict) (e : Engine Outside)
    → Runs sink opts now vs e.outside.pipeline.feedback
    → Extends now e.outside.pipeline.feedback.ttl vs e.outside.pipeline.sender
        (poll net resolve
          (tell_pipeline float now)
          (tell_cache now)
          m
          log
          e).outside.pipeline.sender
unfolding IsQuiet
poll-sends net resolve float m log sink opts now vs e runs =
    let ttl = e.outside.pipeline.feedback.ttl in
    let before = e.outside.pipeline.sender in
    (poll-P net resolve (tell_pipeline float now) (tell_cache now)
      (IsQuiet float sink opts now ttl vs before)
      (tell_pipeline-IsQuiet float sink opts now ttl vs before)
      (tell_cache-IsQuiet float sink opts now ttl vs before) m log e (runs, refl, nothing_more)).2
