-- ===== src/Analysis/Response/Coverage.antt =====
-- An answer that `validate_agent_output` of julius/analysis/response_validator.py accepts, and the
-- opportunities of the run.
use julius.Common.{
  String, true, ◌&&◌, ◌≡◌, sym, ◌∙◌, subst, List, All, elem, distinct, ◌==◌, string_eq, and_both,
  elem-all, count-distinct, count-map, same_test, count_where, if◌then◌else◌,
}
use julius.Json.{Json}
use julius.Json.Checks.{ok}
use julius.Analysis.Response.{Python, ContextualAnalysis}
use julius.Analysis.Response.Verdicts.{key_eq}
use julius.Analysis.Response.Validation.{Context, is_within, ids_of, covers, validate_agent_output}
use julius.Analysis.Response.Advised.{IsAdvice}
use julius.Analysis.Response.Answered.{validated-IsAnswer}

module _ (id : String) where
  -- Lists with the same members hold a value as often as it is allowed, if they hold none twice.
  counted_once :
      (xs allowed : List String)
      → distinct xs ≡ true
      → is_within xs allowed ≡ true
      → is_within allowed xs ≡ true
      → count_where (λ x. x == id) xs ≡ (if elem id allowed then 1 else 0)
  counted_once xs allowed once in_allowed all_in =
      let same : elem id xs ≡ elem id allowed =
        same_test (elem id xs) (elem id allowed) (elem-all id xs allowed in_allowed)
          (elem-all id allowed xs all_in) in
      subst (λ b. count_where (λ x. x == id) xs ≡ (if b then 1 else 0)) same
        (count-distinct id xs once)

  covered_once :
      (allowed seen order : List String)
      → distinct seen ≡ true
      → distinct order ≡ true
      → covers allowed seen order ≡ true
      → (count_where (λ x. x == id) seen ≡ (if elem id allowed then 1 else 0))
        × (count_where (λ x. x == id) order ≡ (if elem id allowed then 1 else 0))
  covered_once allowed seen order once once' h =
      let (first, second) =
        and_both (is_within seen allowed && is_within allowed seen)
          (is_within order seen && is_within seen order) h in
      let (seen_in, in_seen) = and_both (is_within seen allowed) (is_within allowed seen) first in
      let (order_in, in_order) = and_both (is_within order seen) (is_within seen order) second in
      let of_seen = counted_once seen allowed once seen_in in_seen in
      (
        of_seen,
        counted_once order seen once' order_in in_order
            ∙ sym (count-distinct id seen once)
            ∙ of_seen,
      )

-- An accepted answer has one recommendation, and one place in the order of implementation, for
-- every opportunity of the run, and none for any other id.
pub validate_agent_output_covers :
    (py : Python) (c : Context) (payload : Json) (a : ContextualAnalysis) (id : String)
    → validate_agent_output py c payload ≡ ok a
    → (count_where (λ r. r.opportunity_id == id) a.recommendations
        ≡ (if elem id c.allowed_opportunity_ids then 1 else 0))
      × (count_where (λ x. x == id) a.implementation_order
          ≡ (if elem id c.allowed_opportunity_ids then 1 else 0))
validate_agent_output_covers py c payload a id h =
    let good = validated-IsAnswer py c payload a h in
    let once =
      and_both (distinct a.implementation_order)
        (is_within a.implementation_order c.allowed_opportunity_ids) good.ordered in
    let (recommended, placed) =
      covered_once id c.allowed_opportunity_ids (ids_of a.recommendations) a.implementation_order
        good.read.once once.0 good.covered in
    (sym (count-map (λ r. r.opportunity_id) id a.recommendations) ∙ recommended, placed)

-- An accepted answer says of each opportunity something to read, and either steps or what is
-- missing for them; and it gives steps only with documentation, which is all on the official site.
pub validate_agent_output_advises :
    (py : Python) (c : Context) (payload : Json) (a : ContextualAnalysis)
    → validate_agent_output py c payload ≡ ok a
    → All (IsAdvice py) a.recommendations
validate_agent_output_advises py c payload a h = (validated-IsAnswer py c payload a h).read.advice
