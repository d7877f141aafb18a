-- ===== src/Detect/Pipeline/Gate.antt =====
-- What a verdict that silences keeps from the killswitch.
use net_soldier.Prelude.{
  ℕ, ◌≤◌, ◌≡◌, refl, ap, ◌∙◌, sym, arith, Bool, true, false, Option, none, some, List, ◌⊎◌, inl,
  inr,
}
use net_soldier.Events.Detection.{DetectionEvent}
use net_soldier.Detect.Alert.{Alert}
use net_soldier.Detect.Feedback.{Verdict, Options, suppressed}
use net_soldier.Detect.Feedback.Standing.{Runs, asked, silenced, suppressed-refines}
use net_soldier.Detect.Composite.{Float64, Correlator, observe}
use net_soldier.Detect.Pipeline.{
  Pipeline, send, forward_unless, emit_composite, after_observe, unless_suppressed, on_alert,
}

module _ (sink : Option (List Verdict)) (opts : Options) (ttl now : ℕ) (vs : List Verdict) where
  -- The change of a step: nothing is sent, or the event of an alert that no verdict silences.
  unfoldable pub Passes : Pipeline → Option (List DetectionEvent) → Type 0
  Passes p before =
      (p.sender ≡ before)
      ⊎ ((x : Alert) × (silenced now ttl x vs ≡ false) × (p.sender ≡ send x before))

  -- The verdicts behind the store, and the lifetime that it has.
  Knows : Pipeline → Type 0
  Knows p = Runs sink opts now vs p.feedback × (p.feedback.ttl ≡ ttl)

  forward_unless-Passes :
      (b : Bool) (x : Alert) (p : Pipeline)
      → b ≡ silenced now ttl x vs
      → Passes (forward_unless b x p) p.sender
  unfolding forward_unless Passes
  forward_unless-Passes true x p h = inl refl
  forward_unless-Passes false x p h = inr (x, sym h, refl)

  answer :
      (x : Alert) (p : Pipeline) → Knows p → (suppressed now x p.feedback).0 ≡ silenced now ttl x vs
  unfolding Knows
  answer x p (runs, same) =
      suppressed-refines sink opts now now vs p.feedback x runs (omega arith)
      ∙ ap (λ t. silenced now t x vs) same

  -- What a step does with verdicts that it keeps.
  unfoldable pub Gated : Option (List DetectionEvent) → Pipeline → Type 0
  unfolding Passes
  Gated before p = Passes p before × Runs sink opts now vs p.feedback

  forward_unless-feedback :
      (b : Bool) (x : Alert) (p : Pipeline) → (forward_unless b x p).feedback ≡ p.feedback
  unfolding forward_unless
  forward_unless-feedback true x p = refl
  forward_unless-feedback false x p = refl

  emit_composite-Gated :
      (x : Alert) (p : Pipeline) → Knows p → Gated p.sender (emit_composite now x p)
  unfolding emit_composite Gated Knows
  emit_composite-Gated x p knows =
      let q : Pipeline = record p { feedback = (suppressed now x p.feedback).1 } in
      (
        forward_unless-Passes _ x q (answer x p knows),
        rw (forward_unless-feedback (suppressed now x p.feedback).0 x q)
            (asked now now vs p.feedback x (omega arith) knows.0),
      )

  after_observe-Gated :
      (a : Alert) (o : Option Alert × Correlator) (p : Pipeline)
      → Knows p
      → silenced now ttl a vs ≡ false
      → Gated p.sender (after_observe now a o p)
  unfolding after_observe Gated Knows
  after_observe-Gated a (none, c) p knows loud =
      (forward_unless-Passes false a (record p { correlate = c }) (sym loud), knows.0)
  after_observe-Gated a (some comp, c) p knows loud =
      emit_composite-Gated comp (record p { correlate = c }) knows

  unless_suppressed-Gated :
      (float : Float64) (a : Alert) (b : Bool) (p : Pipeline)
      → Knows p
      → b ≡ silenced now ttl a vs
      → Gated p.sender (unless_suppressed float now a b p)
  unfolding unless_suppressed Gated Passes Knows
  unless_suppressed-Gated float a true p knows h = (inl refl, knows.0)
  unless_suppressed-Gated float a false p knows h =
      after_observe-Gated a (observe float now a p.correlate) p knows (sym h)

on_alert-sends :
    (float : Float64) (sink : Option (List Verdict)) (opts : Options) (t now : ℕ)
    (vs : List Verdict) (a : Alert) (p : Pipeline)
    → Runs sink opts t vs p.feedback
    → t ≤ now
    → Gated sink opts p.feedback.ttl now vs p.sender (on_alert float now a p)
unfolding on_alert Knows suppressed
on_alert-sends float sink opts t now vs a p runs h =
    unless_suppressed-Gated sink opts p.feedback.ttl now vs float a _
      (record p { feedback = (suppressed now a p.feedback).1 })
      (asked t now vs p.feedback a h runs, refl)
      (suppressed-refines sink opts t now vs p.feedback a runs h)

on_alert-silenced :
    (float : Float64) (sink : Option (List Verdict)) (opts : Options) (t now : ℕ)
    (vs : List Verdict) (a : Alert) (p : Pipeline)
    → Runs sink opts t vs p.feedback
    → t ≤ now
    → silenced now p.feedback.ttl a vs ≡ true
    → ((on_alert float now a p).sender ≡ p.sender)
      × ((on_alert float now a p).correlate ≡ p.correlate)
unfolding on_alert unless_suppressed
on_alert-silenced float sink opts t now vs a p runs h quiet =
    rw (suppressed-refines sink opts t now vs p.feedback a runs h, quiet) (refl, refl)

-- Whatever verdicts were recorded and questions asked before: an alert puts at most one event before
-- the killswitch, that of an alert or a composite which no verdict in force silences; an alert
-- that is silenced itself puts none, and is not counted towards a composite. The verdicts
-- behind the store stay what they were.
pub on_alert-Gated :
    (float : Float64) (sink : Option (List Verdict)) (opts : Options) (t now : ℕ)
    (vs : List Verdict) (a : Alert) (p : Pipeline)
    → Runs sink opts t vs p.feedback
    → t ≤ now
    → Gated sink opts p.feedback.ttl now vs p.sender (on_alert float now a p)
      × (silenced now p.feedback.ttl a vs ≡ true
          → ((on_alert float now a p).sender ≡ p.sender)
            × ((on_alert float now a p).correlate ≡ p.correlate))
on_alert-Gated float sink opts t now vs a p runs h = (
  on_alert-sends float sink opts t now vs a p runs h,
  on_alert-silenced float sink opts t now vs a p runs h,
)
