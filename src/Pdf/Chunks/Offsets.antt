-- ===== src/Pdf/Chunks/Offsets.antt =====
-- Where the inner loops of `chunk_text` stop: bounds on the window, its trimmed ends and the next
-- window's start.
use vector_doc_qa.Prelude.{
  ℕ, zero, suc, ◌+◌, ◌-◌, ◌≤◌, ◌<◌, ◌≡◌, ap, min, inl, inr, Bool-cases, ◌==◌, ==_iff, Bool, true,
  false, not, arith, length,
}
use vector_doc_qa.Text.{Text, space_at}
use vector_doc_qa.Pdf.Chunks.{
  last_space, skip, trim_end, window_end, chunk_start, chunk_end, step_back, snap, next_start,
}

pub last_space-le : (text : Text) (start e : ℕ) → last_space text start e ≤ e
unfolding last_space
last_space-le text start zero = omega arith
last_space-le text start (suc e) = ground (arith, last_space-le text start e)

pub le-last_space : (text : Text) (start e : ℕ) → start ≤ e → start ≤ last_space text start e
unfolding last_space
le-last_space text start zero h = h
le-last_space text start (suc e) h = ground (arith, le-last_space text start e)

module _ (test : ℕ → Bool) where
  pub skip_bounds : (n i : ℕ) → (i ≤ skip test n i) × (skip test n i ≤ i + n)
  unfolding skip
  skip_bounds zero i = omega arith
  skip_bounds (suc n) i = ground (arith, skip_bounds n (suc i))

  -- What is passed over meets the test.
  pub skip_passed : (n i j : ℕ) → i ≤ j → j < skip test n i → test j ≡ true
  unfolding skip
  skip_passed zero i j h k = absurd (omega arith)
  skip_passed (suc n) i j h k = elim (Bool-cases (i == j)) [
    | inl same ↦ ground (arith, ap test ((==_iff i j).0 same))
    | inr other ↦ ground (arith, skip_passed n (suc i) j)
  ]

  -- The loop stops before its last position only where the test fails.
  pub skip_stop : (n i : ℕ) → skip test n i < i + n → test (skip test n i) ≡ false
  unfolding skip
  skip_stop zero i h = absurd (omega arith)
  skip_stop (suc n) i h = ground (arith, skip_stop n (suc i))

module _ (text : Text) (from : ℕ) where
  pub trim_end_bounds :
      (e : ℕ) → from ≤ e → (from ≤ trim_end text from e) × (trim_end text from e ≤ e)
  unfolding trim_end
  trim_end_bounds zero h = omega arith
  trim_end_bounds (suc e) h = ground (arith, trim_end_bounds e)

  pub trim_end_passed : (e j : ℕ) → trim_end text from e ≤ j → j < e → space_at text j ≡ true
  unfolding trim_end
  trim_end_passed zero j h k = absurd (omega arith)
  trim_end_passed (suc e) j h k = elim (Bool-cases (e == j)) [
    | inl same ↦ ground (arith, ap (space_at text) ((==_iff e j).0 same))
    | inr other ↦ ground (arith, trim_end_passed e j)
  ]

  pub trim_end_stop :
      (e : ℕ) → from < trim_end text from e → space_at text (trim_end text from e - 1) ≡ false
  unfolding trim_end
  trim_end_stop zero h = absurd (omega arith)
  trim_end_stop (suc e) h = ground (arith, trim_end_stop e)

module _ (text : Text) (size start : ℕ) (inside : start < length text) where
  pub window_end_bounds :
      (start ≤ window_end text size start)
      × (window_end text size start ≤ length text)
      × (window_end text size start ≤ start + size)
  unfolding window_end
  window_end_bounds = ground (
    arith,
    last_space-le text start (min (start + size) (length text)),
    le-last_space text start (min (start + size) (length text)),
  )

  pub lt-window_end : 0 < size → start < window_end text size start
  unfolding window_end
  lt-window_end h = ground (arith, le-last_space text start (min (start + size) (length text)))

-- The trimmed ends lie inside the window, and all between them and the window's ends is white space.
module _ (text : Text) (start end : ℕ) (ordered : start ≤ end) where
  pub chunk_start_bounds : (start ≤ chunk_start text start end) × (chunk_start text start end ≤ end)
  unfolding chunk_start
  chunk_start_bounds = ground (arith, skip_bounds (space_at text) (end - start) start)

  pub chunk_end_bounds :
      (chunk_start text start end ≤ chunk_end text start end) × (chunk_end text start end ≤ end)
  unfolding chunk_end
  chunk_end_bounds =
      ground (arith, trim_end_bounds text (chunk_start text start end) end, chunk_start_bounds)

  -- A character of the window that is no white space lies between the trimmed ends.
  pub chunk_keeps :
      (p : ℕ)
      → start ≤ p
      → p < end
      → space_at text p ≡ false
      → (chunk_start text start end ≤ p) × (p < chunk_end text start end)
  unfolding chunk_start chunk_end
  chunk_keeps p from to ink = ground (
    arith,
    skip_passed (space_at text) (end - start) start p,
    trim_end_passed text (chunk_start text start end) end p,
  )

  -- A chunk that is not empty begins and ends with a character that is no white space.
  pub chunk_ends :
      chunk_start text start end < chunk_end text start end
      → (space_at text (chunk_start text start end) ≡ false)
        × (space_at text (chunk_end text start end - 1) ≡ false)
  unfolding chunk_start chunk_end
  chunk_ends h = ground (
    arith,
    skip_stop (space_at text) (end - start) start,
    trim_end_stop text (chunk_start text start end) end,
    chunk_end_bounds,
  )

module _ (text : Text) (start end : ℕ) (ordered : start ≤ end) where
  pub snap_bounds : (start ≤ snap text start end) × (snap text start end ≤ end)
  unfolding snap
  snap_bounds =
      let past_word = skip (λ i. not (space_at text i)) (end - start) start in
      ground (
        arith,
        skip_bounds (λ i. not (space_at text i)) (end - start) start,
        skip_bounds (space_at text) (end - past_word) past_word,
      )

-- The next window begins after this one's start, and not after its end; it repeats `overlap`
-- characters at most.
module _ (text : Text) (overlap start end : ℕ) (ordered : start < end) where
  step_back_bounds :
      (start < step_back overlap start end)
      × (step_back overlap start end ≤ end)
      × (end ≤ step_back overlap start end + overlap)
  unfolding step_back
  step_back_bounds = ground arith

  pub next_start_bounds :
      (start < next_start text overlap start end)
      × (next_start text overlap start end ≤ end)
      × (end ≤ next_start text overlap start end + overlap)
  next_start_bounds =
      unfold next_start in
      omega (
        arith,
        step_back_bounds,
        snap_bounds text (step_back overlap start end) end step_back_bounds.1,
      )
