-- ===== src/MiniEval/Metrics.antt =====
-- The quality of an answer, and the verdict on a whole run, in backend/scripts/run_mini_eval.py.
use vector_doc_qa.Prelude.{
  ℕ, Bool, not, ◌||◌, String, List, [], ◌∷◌, ◌==◌, length, select, map, is_empty, if◌then◌else◌,
}
use vector_doc_qa.Text.{Text}
use vector_doc_qa.Files.{starts_with}
use vector_doc_qa.MiniEval.Thresholds.{Rates}

-- `part in text`
unfoldable pub occurs_in : Text → Text → Bool
unfolding starts_with
occurs_in part [] = starts_with [] part
occurs_in part (c ∷ text) = starts_with (c ∷ text) part || occurs_in part text

pub record FactMetrics : Type 0 where
  pub fact_hits : ℕ
  pub fact_total : ℕ
  pub fact_recall : ℕ
  pub matched_facts : List Text
  pub missing_facts : List Text

-- The mean values of a run, and what they have to reach.
pub record Levels : Type 0 where
  pub answer_recall : ℕ
  pub retrieval_recall : ℕ
  pub top_similarity : ℕ

pub record MetricCheck : Type 0 where
  pub name : String
  pub actual : ℕ
  pub minimum : ℕ
  pub passed : Bool

pub record ThresholdGate : Type 0 where
  pub verdict : String
  pub passed : Bool
  pub thresholds : Levels
  pub checks : List MetricCheck
  pub breached_metrics : List String

module _ (rates : Rates) where
  -- Texts are compared after `str.casefold`.
  abbrev pub is_matched : (Text → Text) → Text → Text → Bool
  is_matched casefold text fact = occurs_in (casefold fact) (casefold text)

  unfoldable pub fact_match_metrics : (Text → Text) → List Text → Text → FactMetrics
  unfolding occurs_in
  fact_match_metrics casefold expected_facts text =
      let matched = select (is_matched casefold text) expected_facts in
      record {
        fact_hits = length matched;
        fact_total = length expected_facts;
        fact_recall =
            if length expected_facts == 0
            then rates.zero
            else rates.ratio (length matched) (length expected_facts);
        matched_facts = matched;
        missing_facts = select (λ fact. not (is_matched casefold text fact)) expected_facts;
      }

  abbrev metric_check : String → ℕ → ℕ → MetricCheck
  metric_check name actual minimum = record {
    name = name;
    actual = rates.round actual;
    minimum = rates.round minimum;
    passed = rates.le (rates.round minimum) (rates.round actual);
  }

  unfoldable pub build_threshold_gate : Levels → Levels → ThresholdGate
  build_threshold_gate summary minima =
      let checks =
        metric_check "avg_answer_fact_recall" summary.answer_recall minima.answer_recall
        ∷ metric_check "avg_retrieval_fact_recall" summary.retrieval_recall minima.retrieval_recall
        ∷ metric_check "avg_top_similarity" summary.top_similarity minima.top_similarity
        ∷ [] in
      let breached =
        map (λ (c : MetricCheck). c.name) (select (λ (c : MetricCheck). not c.passed) checks) in
      record {
        verdict = if is_empty breached then "PASS" else "FAIL";
        passed = is_empty breached;
        thresholds = record {
          answer_recall = rates.round minima.answer_recall;
          retrieval_recall = rates.round minima.retrieval_recall;
          top_similarity = rates.round minima.top_similarity;
        };
        checks = checks;
        breached_metrics = breached;
      }
