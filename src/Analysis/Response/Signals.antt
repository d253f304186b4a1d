-- ===== src/Analysis/Response/Signals.antt =====
-- An answer that `validate_agent_output` of julius/analysis/response_validator.py accepts, and the
-- signals that were sent.
use julius.Common.{
  String, true, ◌&&◌, ◌||◌, ◌≡◌, sym, ap, ◌∙◌, Option, none, some, List, [], ◌∷◌, map, All,
  All-weaken, elem, all, get, get-elem, is_some, arith, ◌==◌, string_eq, and_both, eq_of_beq,
  elem-all, count-distinct, count-map, all-map, same_test, count_where, if◌then◌else◌,
}
use julius.Json.{Json}
use julius.Json.Checks.{ok}
use julius.Analysis.Response.{Python, AiContextualEstimate, SignalVerdict, ContextualAnalysis}
use julius.Analysis.Response.Evidence.{is_required}
use julius.Analysis.Response.Catalogue.{is_eligible}
use julius.Analysis.Response.Verdicts.{Key, key_eq, key_of, is_absent}
use julius.Analysis.Response.Validation.{Context, validate_agent_output}
use julius.Analysis.Response.Cited.{IfSome}
use julius.Analysis.Response.Judged.{IsOrdered, IsVerdict}
use julius.Analysis.Response.Answered.{validated-IsAnswer}

module _ (expected : List (Key × String)) where
  judged_members :
      (k : Key) (vs : List SignalVerdict)
      → (all (λ v. elem (key_of v) (map (λ e. e.0) expected)) vs
          && all (λ e. elem e.0 (map key_of vs)) expected)
        ≡ true
      → elem k (map key_of vs) ≡ is_some (get k expected)
  judged_members k vs h =
      let signals : List Key = map (λ e. e.0) expected in
      let (sent, judged) =
        and_both (all (λ v. elem (key_of v) signals) vs)
          (all (λ e. elem e.0 (map key_of vs)) expected) h in
      same_test (elem k (map key_of vs)) (elem k signals)
        (elem-all k (map key_of vs) signals (all-map key_of (λ x. elem x signals) vs ∙ sent))
        (elem-all k signals (map key_of vs)
          (all-map (λ e. e.0) (λ x. elem x (map key_of vs)) expected ∙ judged))
      ∙ get-elem k expected

  own_digest :
      (o : Option String) (digest : String)
      → is_some o ≡ true
      → is_required o digest ≡ true
      → o ≡ some digest
  own_digest none digest h k = absurd (ground (arith, h))
  own_digest (some d) digest h k = ap some (sym (eq_of_beq digest d k))

  anchored :
      (vs : List SignalVerdict)
      → all (λ v. elem (key_of v) (map (λ e. e.0) expected)) vs ≡ true
      → All (λ v. is_required (get (key_of v) expected) v.evidence_ref.sha256 ≡ true) vs
      → All (λ v. get (key_of v) expected ≡ some v.evidence_ref.sha256) vs
  anchored [] h k = tt
  anchored (v ∷ vs) h (own, rest) =
      let (sent, others) = and_both (elem (key_of v) (map (λ e. e.0) expected)) _ h in
      (
        own_digest (get (key_of v) expected) v.evidence_ref.sha256
            (sym (get-elem (key_of v) expected) ∙ sent) own,
        anchored vs others rest,
      )

-- An accepted answer judges every signal that was sent exactly once, and none that was not; and
-- each verdict cites the artefact that its signal came from, by the digest that was sent.
pub validate_agent_output_judges :
    (py : Python) (c : Context) (payload : Json) (a : ContextualAnalysis)
    → validate_agent_output py c payload ≡ ok a
    → ((k : Key)
        → count_where (λ v. key_of v == k) a.signal_verdicts
          ≡ (if is_some (get k c.expected_signals) then 1 else 0))
      × All (λ v. get (key_of v) c.expected_signals ≡ some v.evidence_ref.sha256) a.signal_verdicts
validate_agent_output_judges py c payload a h =
    let good = validated-IsAnswer py c payload a h in
    (
      (λ k.
          sym (count-map key_of k a.signal_verdicts)
          ∙ count-distinct k (map key_of a.signal_verdicts) good.verdicts.once
          ∙ ap (λ b. if b then 1 else 0)
              (judged_members c.expected_signals k a.signal_verdicts good.judged)),
      anchored c.expected_signals a.signal_verdicts
          (and_both
            (all (λ v. elem (key_of v) (map (λ e. e.0) c.expected_signals)) a.signal_verdicts) _
            good.judged).0
          (All-weaken a.signal_verdicts (λ v x. x.own) good.verdicts.verdicts),
    )

-- What an estimate that an accepted answer carries stands on.
pub record IsEarned (py : Python) (v : SignalVerdict) (e : AiContextualEstimate) : Type 0 where
  pub confirmed : v.verdict ≡ "confirmed"
  pub eligible : is_eligible v.rule_id ≡ true
  pub low : py.at_most e.low e.expected ≡ true
  pub high : py.at_most e.expected e.high ≡ true

earned :
    (py : Python) (expected : List (Key × String)) (hashes : List String) (v : SignalVerdict)
    → IsVerdict py expected hashes v
    → IfSome (IsEarned py v) v.contextual_estimate
earned py expected hashes v x = go v.contextual_estimate x.estimated x.eligible x.ordered
  where
    go :
        (o : Option AiContextualEstimate)
        → (v.verdict == "confirmed" || is_absent o) ≡ true
        → (is_absent o || is_eligible v.rule_id) ≡ true
        → IfSome (IsOrdered py) o
        → IfSome (IsEarned py v) o
    go none a b d = tt
    go (some e) a b (low, high) = record {
      confirmed = eq_of_beq v.verdict "confirmed" (ground (arith, a));
      eligible = b;
      low = low;
      high = high;
    }

-- An accepted answer estimates a saving only for a signal that it confirms, of a rule for which
-- estimates are open, and as a range in order: low is at most expected, and expected at most high.
pub validate_agent_output_estimates :
    (py : Python) (c : Context) (payload : Json) (a : ContextualAnalysis)
    → validate_agent_output py c payload ≡ ok a
    → All (λ v. IfSome (IsEarned py v) v.contextual_estimate) a.signal_verdicts
validate_agent_output_estimates py c payload a h =
    All-weaken a.signal_verdicts (earned py c.expected_signals c.known_artifact_hashes)
      (validated-IsAnswer py c payload a h).verdicts.verdicts
