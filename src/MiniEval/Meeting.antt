-- ===== src/MiniEval/Meeting.antt =====
-- The loop over the thresholds that meet the target keeps one that covers most.
use mathlib.Core.Path.{subst}
use vector_doc_qa.Prelude.{
  ℕ, ◌≡◌, ◌≢◌, refl, inl, inr, Bool, true, false, ◌&&◌, ◌||◌, Option, none, some, List, [], ◌∷◌,
  All, arith, Bool-cases,
}
use vector_doc_qa.MiniEval.Thresholds.{
  Rates, Stats, Band, ScoredCase, less, equal, threshold_stats, band_at, better_met, keep,
  best_meeting,
}

-- The order of the rates: `<=` on floats that are numbers.
pub record IsOrder (rates : Rates) : Type 0 where
  pub trans : (a b c : ℕ) → rates.le a b ≡ true → rates.le b c ≡ true → rates.le a c ≡ true
  pub total : (a b : ℕ) → (rates.le a b || rates.le b a) ≡ true

module _ (rates : Rates) (order : IsOrder rates) (scored_cases : List ScoredCase) (target : ℕ) where
  abbrev pub stats_at : ℕ → Stats
  stats_at = threshold_stats rates scored_cases

  -- A threshold misses the target, or covers no more than the band.
  abbrev pub is_beaten : Band → ℕ → Bool
  is_beaten band t =
      less rates (stats_at t).precision target || rates.le (stats_at t).coverage band.stats.coverage

  better_met-left :
      (best candidate : Band)
      → rates.le best.stats.coverage (better_met rates best candidate).stats.coverage ≡ true
  unfolding better_met
  better_met-left best candidate = ground (
    arith,
    order.total best.stats.coverage candidate.stats.coverage,
    order.total best.stats.coverage best.stats.coverage,
  )

  better_met-right :
      (best candidate : Band)
      → rates.le candidate.stats.coverage (better_met rates best candidate).stats.coverage ≡ true
  unfolding better_met
  better_met-right best candidate = ground (
    arith,
    order.total best.stats.coverage candidate.stats.coverage,
    order.total candidate.stats.coverage candidate.stats.coverage,
  )

  -- A band of a threshold that meets the target.
  pub record IsMeeting (b : Band) : Type 0 where
    pub threshold : ℕ
    pub origin : b ≡ band_at rates scored_cases true threshold
    pub met : less rates b.stats.precision target ≡ false

  abbrev pub Meets : Option Band → Type 0
  Meets none = Unit
  Meets (some b) = IsMeeting b

  -- The band of a loop so far covers no more than another band.
  abbrev pub covered : Option Band → Band → Bool
  covered none b = true
  covered (some best) b = rates.le best.stats.coverage b.stats.coverage

  pub record IsBest (best : Option Band) (thresholds : List ℕ) (b : Band) : Type 0 where
    pub meeting : IsMeeting b
    pub beats : All (λ t. is_beaten b t ≡ true) thresholds
    pub above : covered best b ≡ true

  keep-IsMeeting :
      (best : Option Band) (b : Band)
      → Meets best
      → IsMeeting b
      → IsMeeting (keep rates (better_met rates) best b)
  unfolding better_met
  keep-IsMeeting none b h k = k
  keep-IsMeeting (some best) b h k =
      elim (Bool-cases (less rates best.stats.coverage b.stats.coverage)) [
        | inl more ↦ rw more k
        | inr no_more ↦
            elim (Bool-cases (
              equal rates b.stats.coverage best.stats.coverage
              && less rates b.threshold best.threshold)) [
                | inl lower ↦ rw (no_more, lower) k
                | inr higher ↦ rw (no_more, higher) h
              ]
      ]

  keep-covered :
      (best : Option Band) (b c : Band)
      → rates.le (keep rates (better_met rates) best b).stats.coverage c.stats.coverage ≡ true
      → (covered best c ≡ true) × (rates.le b.stats.coverage c.stats.coverage ≡ true)
  keep-covered none b c h = (refl, h)
  keep-covered (some best) b c h = (
    order.trans best.stats.coverage (better_met rates best b).stats.coverage c.stats.coverage
        (better_met-left best b) h,
    order.trans b.stats.coverage (better_met rates best b).stats.coverage c.stats.coverage
        (better_met-right best b) h,
  )

  pub best_meeting-IsBest :
      (thresholds : List ℕ) (best : Option Band) (b : Band)
      → Meets best
      → best_meeting rates scored_cases target best thresholds ≡ some b
      → IsBest best thresholds b
  unfolding best_meeting
  best_meeting-IsBest [] none b h e = absurd (ground arith)
  best_meeting-IsBest [] (some best) b h e =
      let q : best ≡ b = ground (arith, e) in
      record {
        meeting = subst IsMeeting q h;
        beats = tt;
        above = ground (arith, q, order.total best.stats.coverage best.stats.coverage);
      }
  best_meeting-IsBest (t ∷ thresholds) best b h e =
      elim (Bool-cases (less rates (stats_at t).precision target)) [
        | inl misses ↦
            let i = best_meeting-IsBest thresholds best b h (ground (arith, e, misses)) in
            record {
              meeting = i.meeting;
              beats = (ground (arith, misses), i.beats);
              above = i.above;
            }
        | inr meets ↦
            let band = band_at rates scored_cases true t in
            let next = keep rates (better_met rates) best band in
            let i =
              best_meeting-IsBest thresholds (some next) b
                (keep-IsMeeting best band h (record { threshold = t; origin = refl; met = meets }))
                (ground (arith, e, meets)) in
            let (above, beats) = keep-covered best band b i.above in
            record { meeting = i.meeting; beats = (ground (arith, beats), i.beats); above = above }
      ]

  -- With a band kept, the loop ends with one.
  best_meeting-some :
      (thresholds : List ℕ) (best : Band)
      → best_meeting rates scored_cases target (some best) thresholds ≢ none
  unfolding best_meeting
  best_meeting-some [] best = λ e. absurd (ground (arith, e))
  best_meeting-some (t ∷ thresholds) best = λ e.
      elim (Bool-cases (less rates (stats_at t).precision target)) [
        | inl misses ↦ best_meeting-some thresholds best (ground (arith, e, misses))
        | inr meets ↦
            best_meeting-some thresholds (better_met rates best (band_at rates scored_cases true t))
              (ground (arith, e, meets))
      ]

  pub best_meeting-none :
      (thresholds : List ℕ)
      → best_meeting rates scored_cases target none thresholds ≡ none
      → All (λ t. less rates (stats_at t).precision target ≡ true) thresholds
  unfolding best_meeting
  best_meeting-none [] e = tt
  best_meeting-none (t ∷ thresholds) e =
      elim (Bool-cases (less rates (stats_at t).precision target)) [
        | inl misses ↦ (misses, best_meeting-none thresholds (ground (arith, e, misses)))
        | inr meets ↦ absurd (
            best_meeting-some thresholds (band_at rates scored_cases true t)
              (ground (arith, e, meets)))
      ]
