-- ===== src/MiniEval/Fallback.antt =====
-- The loop of the fallback keeps a most precise threshold.
use vector_doc_qa.Prelude.{
  ℕ, ◌≡◌, refl, Bool, true, false, not, Option, none, some, List, [], ◌∷◌, All, arith,
}
use vector_doc_qa.MiniEval.Thresholds.{
  Rates, Band, ScoredCase, band_at, better_fallback, keep, best_fallback,
}
use vector_doc_qa.MiniEval.Meeting.{IsOrder, stats_at}

module _ (rates : Rates) (order : IsOrder rates) (scored_cases : List ScoredCase) (target : ℕ) where
  abbrev pub outdone : Option Band → Band → Bool
  outdone none b = true
  outdone (some best) b = rates.le best.stats.precision b.stats.precision

  abbrev pub is_unmet : Option Band → Bool
  is_unmet none = true
  is_unmet (some best) = not best.target_met

  -- No candidate is more precise than the band.
  pub record IsFallback (best : Option Band) (thresholds : List ℕ) (b : Band) : Type 0 where
    pub unmet : b.target_met ≡ false
    pub precise :
        All
          (λ t.
            rates.le (stats_at rates order scored_cases target t).precision b.stats.precision
            ≡ true)
          thresholds
    pub above : outdone best b ≡ true

  keep-outdone :
      (best : Option Band) (b c : Band)
      → rates.le (keep rates (better_fallback rates) best b).stats.precision c.stats.precision
        ≡ true
      → (outdone best c ≡ true) × (rates.le b.stats.precision c.stats.precision ≡ true)
  unfolding better_fallback
  keep-outdone none b c h = (refl, h)
  keep-outdone (some best) b c h =
      let x = best.stats.precision in
      let y = b.stats.precision in
      let z = c.stats.precision in
      ground (
        arith,
        h,
        order.total x y,
        order.total x x,
        order.total y y,
        order.trans x y z,
        order.trans y x z,
      )

  keep-is_unmet :
      (best : Option Band) (b : Band)
      → is_unmet best ≡ true
      → b.target_met ≡ false
      → (keep rates (better_fallback rates) best b).target_met ≡ false
  unfolding better_fallback
  keep-is_unmet none b h k = k
  keep-is_unmet (some best) b h k = ground (arith, h, k)

  pub best_fallback-IsFallback :
      (thresholds : List ℕ) (best : Option Band) (b : Band)
      → is_unmet best ≡ true
      → best_fallback rates scored_cases best thresholds ≡ some b
      → IsFallback best thresholds b
  unfolding best_fallback
  best_fallback-IsFallback [] none b h e = absurd (ground arith)
  best_fallback-IsFallback [] (some best) b h e =
      let q : best ≡ b = ground (arith, e) in
      record {
        unmet = ground (arith, q, h);
        precise = tt;
        above = ground (arith, q, order.total best.stats.precision best.stats.precision);
      }
  best_fallback-IsFallback (t ∷ thresholds) best b h e =
      let band = band_at rates scored_cases false t in
      let unmet = keep-is_unmet best band h refl in
      let i =
        best_fallback-IsFallback thresholds (some (keep rates (better_fallback rates) best band)) b
          (ground (arith, unmet)) e in
      let (above, precise) = keep-outdone best band b i.above in
      record { unmet = i.unmet; precise = (precise, i.precise); above = above }
