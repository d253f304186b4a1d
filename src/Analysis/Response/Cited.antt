-- ===== src/Analysis/Response/Cited.antt =====
-- The artefacts that an accepted answer cites, and the parts that cite them.
use julius.Common.{
  String, true, false, not, ◌≡◌, refl, subst, Option, none, some, List, [], ◌∷◌, map, All, elem,
  distinct, arith, string_eq, Bool-cases, fresh_keys, not-true, inl, inr,
}
use julius.Json.{Json, lookup}
use julius.Json.Reading.{is_null, integer?, list_of?}
use julius.Json.Checks.{Checked, ok, ok-eq, ◌>>=◌, known, each, bind-ok, demand-ok, each-All}
use julius.Analysis.Response.{
  Rejection, agent_output_error, Python, EvidenceRef, AiEstimationProposal, UncoveredFinding,
  SuspectedInjection, text_in, list_in, dict_in, content_in, has_content,
}
use julius.Analysis.Response.Evidence.{
  is_required, is_cited, evidence_keys, injection_keys, finding_keys, parse_evidence_ref,
  parse_injection, parse_suspected_injections, parse_finding, parse_findings,
}
use julius.Analysis.Response.Estimates.{proposal_keys, scalars_in, optional, estimation_proposal}

abbrev pub IfSome {ℓ} : {A : Type ℓ} → (A → Type 0) → Option A → Type 0
IfSome Q none = Unit
IfSome Q (some a) = Q a

pub optional-IfSome :
    {A : Type 0} (Q : A → Type 0) (parse : Json → Checked Rejection A) (v : Json) (o : Option A)
    → ((a : A) → parse v ≡ ok a → Q a)
    → optional parse v ≡ ok o
    → IfSome Q o
unfolding optional
optional-IfSome Q parse v o k h = elim (Bool-cases (is_null v)) [
  | inl e ↦ subst (IfSome Q) (ok-eq none o (rw (optional, e) at h)) tt
  | inr e ↦
      let present : parse v >>= (λ a. ok (some a)) ≡ ok o = rw (optional, e) at h in
      let (a, p, h1) = bind-ok (parse v) _ present in subst (IfSome Q) (ok-eq (some a) o h1) (k a p)
]

module _ (hashes : List String) where
  -- The artefact was in the package, as far as the caller knows the package.
  abbrev pub IsCited : EvidenceRef → Type 0
  IsCited r = is_cited hashes r.sha256 ≡ true

  pub parse_evidence_ref-IsCited :
      (required : Option String) (raw : Json) (r : EvidenceRef)
      → parse_evidence_ref hashes required raw ≡ ok r
      → (is_required required r.sha256 ≡ true) × IsCited r
  unfolding parse_evidence_ref
  parse_evidence_ref-IsCited required raw r h =
      let (fs, p0, h0) = bind-ok (dict_in evidence_keys raw) _ h in
      let (digest, p1, h1) = bind-ok (text_in (lookup "sha256" fs)) _ h0 in
      let (lines, p2, h2) =
        bind-ok (known agent_output_error (list_of? integer? (lookup "lines" fs))) _ h1 in
      let (own, h3) = demand-ok agent_output_error (is_required required digest) _ h2 in
      let (cited, h4) = demand-ok agent_output_error (is_cited hashes digest) _ h3 in
      subst (λ x. (is_required required x.sha256 ≡ true) × IsCited x) (ok-eq _ r h4) (own, cited)

  IsCited-none :
      (raw : Json) (r : EvidenceRef) → parse_evidence_ref hashes none raw ≡ ok r → IsCited r
  IsCited-none raw r h = (parse_evidence_ref-IsCited none raw r h).1

  module _ (py : Python) where
    content_in-has_content :
        (v : Json) (s : String) → content_in py v ≡ ok s → has_content py s ≡ true
    unfolding content_in
    content_in-has_content v s h =
        let (t, p0, h0) = bind-ok (text_in v) _ h in
        let (full, h1) = demand-ok agent_output_error (has_content py t) _ h0 in
        subst (λ x. has_content py x ≡ true) (ok-eq t s h1) full

    injection-IsCited :
        (v : Json) (i : SuspectedInjection)
        → parse_injection py hashes v ≡ ok i
        → IsCited i.evidence_ref × (has_content py i.quoted ≡ true)
    unfolding parse_injection
    injection-IsCited v i h =
        let (fs, p0, h0) = bind-ok (dict_in injection_keys v) _ h in
        let (quoted, p1, h1) = bind-ok (content_in py (lookup "quoted" fs)) _ h0 in
        let (why, p2, h2) = bind-ok (content_in py (lookup "why" fs)) _ h1 in
        let (evidence, p3, h3) =
          bind-ok (parse_evidence_ref hashes none (lookup "evidence_ref" fs)) _ h2 in
        subst (λ x. IsCited x.evidence_ref × (has_content py x.quoted ≡ true)) (ok-eq _ i h3)
          (IsCited-none _ evidence p3, content_in-has_content _ quoted p1)

    pub injections-IsCited :
        (raw : Json) (is : List SuspectedInjection)
        → parse_suspected_injections py hashes raw ≡ ok is
        → All (λ i. IsCited i.evidence_ref × (has_content py i.quoted ≡ true)) is
    unfolding parse_suspected_injections
    injections-IsCited raw is h =
        let (vs, p0, h0) = bind-ok (list_in raw) _ h in
        each-All (λ i. IsCited i.evidence_ref × (has_content py i.quoted ≡ true))
          (parse_injection py hashes) vs injection-IsCited h0

    pub proposal-IsCited :
        (raw : Json) (p : AiEstimationProposal)
        → estimation_proposal py hashes raw ≡ ok p
        → All IsCited p.evidence_refs
    unfolding estimation_proposal
    proposal-IsCited raw p h =
        let (fs, p0, h0) = bind-ok (dict_in proposal_keys raw) _ h in
        let (method, p1, h1) = bind-ok (content_in py (lookup "method" fs)) _ h0 in
        let (target, p2, h2) = bind-ok (scalars_in (lookup "target" fs)) _ h1 in
        let (refs, p3, h3) = bind-ok (list_in (lookup "evidence_refs" fs)) _ h2 in
        let (parsed, p4, h4) = bind-ok (each (parse_evidence_ref hashes none) refs) _ h3 in
        subst (λ x. All IsCited x.evidence_refs) (ok-eq _ p h4)
          (each-All IsCited (parse_evidence_ref hashes none) refs IsCited-none p4)

    -- An uncovered finding cites a known artefact and proposes a rule that is not known yet, nor
    -- proposed before.
    pub record IsGap (rules seen : List String) (f : UncoveredFinding) : Type 0 where
      pub cited : IsCited f.evidence_ref
      pub unknown : elem f.proposed_rule_id rules ≡ false
      pub new : elem f.proposed_rule_id seen ≡ false

    parse_finding-IsGap :
        (rules seen : List String) (raw : Json) (f : UncoveredFinding)
        → parse_finding py hashes rules seen raw ≡ ok f
        → IsGap rules seen f
    unfolding parse_finding
    parse_finding-IsGap rules seen raw f h =
        let (fs, p0, h0) = bind-ok (dict_in finding_keys raw) _ h in
        let (a, p1, h1) = bind-ok (content_in py (lookup "title" fs)) _ h0 in
        let (b, p2, h2) = bind-ok (content_in py (lookup "asset_type" fs)) _ h1 in
        let (c, p3, h3) = bind-ok (content_in py (lookup "asset_name" fs)) _ h2 in
        let (d, p4, h4) = bind-ok (content_in py (lookup "why_not_covered" fs)) _ h3 in
        let (id, p5, h5) = bind-ok (content_in py (lookup "proposed_rule_id" fs)) _ h4 in
        let (e, p6, h6) = bind-ok (content_in py (lookup "confidence_basis" fs)) _ h5 in
        let (unknown, h7) = demand-ok agent_output_error (not (elem id rules)) _ h6 in
        let (new, h8) = demand-ok agent_output_error (not (elem id seen)) _ h7 in
        let (evidence, p9, h9) =
          bind-ok (parse_evidence_ref hashes none (lookup "evidence_ref" fs)) _ h8 in
        subst (IsGap rules seen) (ok-eq _ f h9) (record {
          cited = IsCited-none _ evidence p9;
          unknown = not-true (elem id rules) unknown;
          new = not-true (elem id seen) new;
        })

    -- What the whole loop read: no proposed rule is known, and none comes twice.
    pub record AreGaps (rules seen : List String) (fs : List UncoveredFinding) : Type 0 where
      pub gaps : All (λ f. IsCited f.evidence_ref × (elem f.proposed_rule_id rules ≡ false)) fs
      pub new : All (λ f. elem f.proposed_rule_id seen ≡ false) fs
      pub once : distinct (map (λ f. f.proposed_rule_id) fs) ≡ true

    pub parse_findings-AreGaps :
        (rules seen : List String) (raws : List Json) (fs : List UncoveredFinding)
        → parse_findings py hashes rules seen raws ≡ ok fs
        → AreGaps rules seen fs
    unfolding parse_findings
    parse_findings-AreGaps rules seen [] fs h =
        subst (AreGaps rules seen) (ok-eq [] fs h) (record { gaps = tt; new = tt; once = refl })
    parse_findings-AreGaps rules seen (raw ∷ raws) fs h =
        let (f, p0, h0) = bind-ok (parse_finding py hashes rules seen raw) _ h in
        let (rest, p1, h1) =
          bind-ok (parse_findings py hashes rules (f.proposed_rule_id ∷ seen) raws) _ h0 in
        let first = parse_finding-IsGap rules seen raw f p0 in
        let others = parse_findings-AreGaps rules (f.proposed_rule_id ∷ seen) raws rest p1 in
        let (later, new) =
          fresh_keys (λ g. g.proposed_rule_id) f.proposed_rule_id seen rest others.new in
        subst (AreGaps rules seen) (ok-eq _ fs h1) (record {
          gaps = ((first.cited, first.unknown), others.gaps);
          new = (first.new, new);
          once = ground (arith, later, others.once);
        })
