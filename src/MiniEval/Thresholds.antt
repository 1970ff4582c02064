-- ===== src/MiniEval/Thresholds.antt =====
-- The confidence thresholds of backend/scripts/run_mini_eval.py. A float is its bit pattern; its order and
-- the rounded quotient are parameters.
use vector_doc_qa.Prelude.{
  ℕ, Bool, true, false, not, ◌&&◌, Option, none, some, List, [], ◌∷◌, ◌==◌, map, select, order_by,
  any, length, if◌then◌else◌,
}

-- `le a b` is `a <= b` on the scores and rates, `ratio a b` is `round(a / b, 4)`.
pub record Rates : Type 0 where
  pub le : ℕ → ℕ → Bool
  pub zero : ℕ
  pub ratio : ℕ → ℕ → ℕ
  pub round : ℕ → ℕ

pub record Stats : Type 0 where
  pub selected_cases : ℕ
  pub positive_cases : ℕ
  pub precision : ℕ
  pub coverage : ℕ

pub record Band : Type 0 where
  pub threshold : ℕ
  pub target_met : Bool
  pub stats : Stats

abbrev pub ScoredCase : Type 0
ScoredCase = ℕ × Bool

module _ (rates : Rates) where
  abbrev pub less : ℕ → ℕ → Bool
  less a b = not (rates.le b a)

  abbrev pub equal : ℕ → ℕ → Bool
  equal a b = rates.le a b && rates.le b a

  -- `round(part / whole, 4) if whole else 0.0`
  abbrev ratio_or_zero : ℕ → ℕ → ℕ
  ratio_or_zero part whole = if whole == 0 then rates.zero else rates.ratio part whole

  unfoldable pub threshold_stats : List ScoredCase → ℕ → Stats
  threshold_stats scored_cases threshold =
      let selected = select (λ (c : ScoredCase). rates.le threshold c.0) scored_cases in
      let positive = select (λ (c : ScoredCase). c.1) selected in
      record {
        selected_cases = length selected;
        positive_cases = length positive;
        precision = ratio_or_zero (length positive) (length selected);
        coverage = ratio_or_zero (length selected) (length scored_cases);
      }

  abbrev allowed : Option ℕ → ℕ → Bool
  allowed none score = true
  allowed (some max_threshold) score = rates.le score max_threshold

  -- The set of the scores; of equal ones the last is kept.
  abbrev score_set : List ℕ → List ℕ
  score_set [] = []
  score_set (score ∷ scores) =
      let rest = score_set scores in if any (equal score) rest then rest else score ∷ rest

  unfoldable pub candidates : List ScoredCase → Option ℕ → List ℕ
  candidates scored_cases max_threshold =
      order_by (λ a b. rates.le b a)
        (score_set (select (allowed max_threshold) (map (λ (c : ScoredCase). c.0) scored_cases)))

  abbrev pub band_at : List ScoredCase → Bool → ℕ → Band
  band_at scored_cases target_met threshold = record {
    threshold = rates.round threshold;
    target_met = target_met;
    stats = threshold_stats scored_cases threshold;
  }

  -- More coverage, or the same at a lower threshold.
  unfoldable pub better_met : Band → Band → Band
  better_met best candidate =
      if less best.stats.coverage candidate.stats.coverage
      then candidate
      else if equal candidate.stats.coverage best.stats.coverage
          && less candidate.threshold best.threshold
      then candidate
      else best

  -- More precision, or the same with more coverage.
  unfoldable pub better_fallback : Band → Band → Band
  better_fallback best candidate =
      if less best.stats.precision candidate.stats.precision
      then candidate
      else if equal candidate.stats.precision best.stats.precision
          && less best.stats.coverage candidate.stats.coverage
      then candidate
      else best

  abbrev pub keep : (Band → Band → Band) → Option Band → Band → Band
  keep better none candidate = candidate
  keep better (some best) candidate = better best candidate

  -- The loop over the candidates whose precision meets the target.
  unfoldable pub best_meeting : List ScoredCase → ℕ → Option Band → List ℕ → Option Band
  unfolding better_met threshold_stats
  best_meeting scored_cases target_precision best [] = best
  best_meeting scored_cases target_precision best (threshold ∷ thresholds) =
      let band = band_at scored_cases true threshold in
      let skipped = best_meeting scored_cases target_precision best thresholds in
      let kept =
        best_meeting scored_cases target_precision (some (keep better_met best band)) thresholds in
      if less band.stats.precision target_precision then skipped else kept

  -- The loop over all candidates.
  unfoldable pub best_fallback : List ScoredCase → Option Band → List ℕ → Option Band
  unfolding better_fallback threshold_stats
  best_fallback scored_cases best [] = best
  best_fallback scored_cases best (threshold ∷ thresholds) =
      best_fallback scored_cases
        (some (keep better_fallback best (band_at scored_cases false threshold))) thresholds

  abbrev or_fallback : List ScoredCase → List ℕ → Option Band → Option Band
  or_fallback scored_cases thresholds (some band) = some band
  or_fallback scored_cases thresholds none = best_fallback scored_cases none thresholds

  -- Without a case there is no candidate.
  unfoldable pub recommend_threshold : List ScoredCase → ℕ → Option ℕ → Option Band
  unfolding candidates best_meeting best_fallback
  recommend_threshold scored_cases target_precision max_threshold =
      let thresholds = candidates scored_cases max_threshold in
      or_fallback scored_cases thresholds
        (best_meeting scored_cases target_precision none thresholds)
