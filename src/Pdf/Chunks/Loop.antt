-- ===== src/Pdf/Chunks/Loop.antt =====
-- The rule of `chunk_loop`: by what tests it ends, and that its fuel never does.
use vector_doc_qa.Prelude.{
  ℕ, zero, suc, ◌+◌, ◌≤◌, ◌<◌, ◌≡◌, refl, ap, List, [], ◌++◌, arith, dec_lt, length, map,
}
use vector_doc_qa.Text.{Text}
use vector_doc_qa.Pdf.Chunks.{
  window_end, chunk_start, chunk_end, next_start, append_chunk, chunk_loop,
}
use vector_doc_qa.Pdf.Chunks.Offsets.{lt-window_end, next_start_bounds}

pub record Span : Type 0 where
  pub from : ℕ
  pub to : ℕ

abbrev pub span : ℕ → ℕ → Span
span from to = record { from = from; to = to }

abbrev pub spans : Text → ℕ → ℕ → List Span
spans text size overlap = chunk_loop span text size overlap (length text) 0

-- The loop does the same to each chunk, whatever it appends.
pub chunk_loop-map {ℓ} :
    {A : Type ℓ} (emit : ℕ → ℕ → A) (text : Text) (size overlap fuel start : ℕ)
    → chunk_loop emit text size overlap fuel start
      ≡ map (λ s. emit s.from s.to) (chunk_loop span text size overlap fuel start)
unfolding chunk_loop append_chunk
chunk_loop-map emit text size overlap zero start = refl
chunk_loop-map emit text size overlap (suc fuel) start = ground (
  arith,
  chunk_loop-map emit text size overlap fuel
      (next_start text overlap start (window_end text size start)),
)

-- One pass of the loop: the last one, or one with a pass behind it.
module _ {ℓ} {A : Type ℓ} (emit : ℕ → ℕ → A) (text : Text) (size overlap start : ℕ) where
  abbrev pub pass : List A
  pass =
      let end = window_end text size start in
      append_chunk emit (chunk_start text start end) (chunk_end text start end)

module _ {ℓ} {A : Type ℓ} (emit : ℕ → ℕ → A) (text : Text) (size overlap fuel start : ℕ) where
  chunk_loop_done : length text ≤ start → chunk_loop emit text size overlap (suc fuel) start ≡ []
  unfolding chunk_loop
  chunk_loop_done h = ground arith

  chunk_loop_last :
      start < length text
      → length text ≤ window_end text size start
      → chunk_loop emit text size overlap (suc fuel) start ≡ pass emit text size overlap start
  unfolding chunk_loop
  chunk_loop_last h k = ground arith

  chunk_loop_more :
      start < length text
      → window_end text size start < length text
      → chunk_loop emit text size overlap (suc fuel) start
        ≡ pass emit text size overlap start
          ++ chunk_loop emit text size overlap fuel
              (next_start text overlap start (window_end text size start))
  unfolding chunk_loop
  chunk_loop_more h k = ground arith

-- The rule of the loop. With enough fuel for the characters that are left, it ends by its own
-- tests: behind the text, after a last pass, or after a pass and the loop from the next start.
module _ {ℓ κ} {A : Type ℓ} (emit : ℕ → ℕ → A) (text : Text) (size overlap : ℕ)
    (positive : 0 < size) (P : ℕ → List A → Type κ)
    (done : (start : ℕ) → length text ≤ start → P start [])
    (last : (start : ℕ)
      → start < length text
      → length text ≤ window_end text size start
      → P start (pass emit text size overlap start))
    (more : (start : ℕ)
      → start < length text
      → window_end text size start < length text
      → (rest : List A) → P (next_start text overlap start (window_end text size start)) rest
      → P start (pass emit text size overlap start ++ rest)) where
  pub chunk_loop_induction :
      (fuel start : ℕ)
      → length text ≤ start + fuel
      → P start (chunk_loop emit text size overlap fuel start)
  chunk_loop_induction zero start enough = unfold chunk_loop in done start (omega arith)
  chunk_loop_induction (suc fuel) start enough = elim (dec_lt start (length text)) [
    | no over ↦
        rw (chunk_loop_done emit text size overlap fuel start (omega arith))
          (done start (omega arith))
    | yes inside ↦
        let end = window_end text size start in
        elim (dec_lt end (length text)) [
          | no ends ↦
              rw (chunk_loop_last emit text size overlap fuel start inside (omega arith))
                (last start inside (omega arith))
          | yes goes ↦
              let bounds =
                next_start_bounds text overlap start end
                  (lt-window_end text size start inside positive) in
              rw (chunk_loop_more emit text size overlap fuel start inside goes) (
                more start inside goes _ (
                  chunk_loop_induction fuel (next_start text overlap start end)
                    (omega (arith, bounds))))
        ]
  ]

-- With a positive chunk size, the loop gives the same chunks on any two amounts of fuel that are at
-- least the number of characters left: it never runs out.
pub chunk_loop-fuel {ℓ} :
    {A : Type ℓ} (emit : ℕ → ℕ → A) (text : Text) (size overlap fuel fuel' start : ℕ)
    → 0 < size
    → length text ≤ start + fuel
    → length text ≤ start + fuel'
    → chunk_loop emit text size overlap fuel' start ≡ chunk_loop emit text size overlap fuel start
chunk_loop-fuel {A} emit text size overlap fuel fuel' start positive enough enough' =
    chunk_loop_induction emit text size overlap positive
      (λ s xs. (f : ℕ) → length text ≤ s + f → chunk_loop emit text size overlap f s ≡ xs)
      (λ s over f e. stops f s over) (λ s inside ends f e. last f s inside ends e)
      (λ s inside goes rest ih f e. more f s inside goes rest ih e) fuel start enough fuel' enough'
  where
    stops : (f s : ℕ) → length text ≤ s → chunk_loop emit text size overlap f s ≡ []
    stops zero s over = unfold chunk_loop in refl
    stops (suc f) s over = chunk_loop_done emit text size overlap f s over

    last :
        (f s : ℕ)
        → s < length text
        → length text ≤ window_end text size s
        → length text ≤ s + f
        → chunk_loop emit text size overlap f s ≡ pass emit text size overlap s
    last zero s inside ends e = absurd (omega arith)
    last (suc f) s inside ends e = chunk_loop_last emit text size overlap f s inside ends

    more :
        (f s : ℕ)
        → s < length text
        → window_end text size s < length text
        → (rest : List A)
        → ((g : ℕ)
            → length text ≤ next_start text overlap s (window_end text size s) + g
            → chunk_loop emit text size overlap g
                (next_start text overlap s (window_end text size s))
              ≡ rest)
        → length text ≤ s + f
        → chunk_loop emit text size overlap f s ≡ pass emit text size overlap s ++ rest
    more zero s inside goes rest ih e = absurd (omega arith)
    more (suc f) s inside goes rest ih e =
        rw (chunk_loop_more emit text size overlap f s inside goes) (
          ap (λ r. pass emit text size overlap s ++ r)
            (ih f (
              omega (
                arith,
                next_start_bounds text overlap s (window_end text size s)
                    (lt-window_end text size s inside positive),
              ))))
