-- ===== src/MiniEval/Recommended.antt =====
-- The recommended threshold is the best of the candidates.
use mathlib.Core.Path.{subst}
use vector_doc_qa.Prelude.{
  ℕ, ◌≡◌, refl, ◌⊎◌, inl, inr, true, Option, none, some, List, All, arith, Option-cases,
}
use vector_doc_qa.MiniEval.Thresholds.{
  Rates, Band, ScoredCase, less, threshold_stats, candidates, best_meeting, best_fallback,
  recommend_threshold,
}
use vector_doc_qa.MiniEval.Meeting.{
  IsOrder, IsMeeting, is_beaten, best_meeting-IsBest, best_meeting-none,
}
use vector_doc_qa.MiniEval.Fallback.{IsFallback, best_fallback-IsFallback}

module _ (rates : Rates) (order : IsOrder rates) (scored_cases : List ScoredCase) (target : ℕ) where
  -- Of the candidates: a band that meets the target and covers most, or no threshold meets it, and
  -- the band is the most precise.
  pub record IsRecommended (thresholds : List ℕ) (b : Band) : Type 0 where
    pub meeting :
        (IsMeeting rates order scored_cases target b
          × All (λ t. is_beaten rates order scored_cases target b t ≡ true) thresholds)
        ⊎ (All
              (λ t. less rates (threshold_stats rates scored_cases t).precision target ≡ true)
              thresholds
            × IsFallback rates order scored_cases target none thresholds b)

  -- When `<=` is a total order on the rates, a recommendation is either one of a threshold whose
  -- precision meets the target, such that no candidate that meets it covers more cases; or no
  -- candidate meets the target, the recommendation says so, and no candidate is more precise.
  pub recommend_threshold-IsRecommended :
      (max_threshold : Option ℕ) (b : Band)
      → recommend_threshold rates scored_cases target max_threshold ≡ some b
      → IsRecommended (candidates rates scored_cases max_threshold) b
  unfolding recommend_threshold
  recommend_threshold-IsRecommended max_threshold b e =
      let thresholds = candidates rates scored_cases max_threshold in
      elim (Option-cases (best_meeting rates scored_cases target none thresholds)) [
        | inl missing ↦
            let last : best_fallback rates scored_cases none thresholds ≡ some b =
              ground (arith, e, missing) in
            record {
              meeting = inr (
                best_meeting-none rates order scored_cases target thresholds missing,
                best_fallback-IsFallback rates order scored_cases target thresholds none b refl
                    last,
              );
            }
        | inr (best, found) ↦
            let q : best ≡ b = ground (arith, e, found) in
            let i =
              best_meeting-IsBest rates order scored_cases target thresholds none best tt found in
            subst (IsRecommended thresholds) q (record { meeting = inl (i.meeting, i.beats) })
      ]
