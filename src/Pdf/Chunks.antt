-- ===== src/Pdf/Chunks.antt =====
-- The loop of `chunk_text` in backend/app/utils/pdf_utils.py, over character offsets. What a pass
-- appends is the parameter `emit` of the chunk's two ends.
pub mod Offsets
pub mod Loop
pub mod Coverage
pub mod Shape
use vector_doc_qa.Prelude.{
  ℕ, zero, suc, ◌+◌, ◌-◌, min, Bool, not, ◌&&◌, List, [], ◌∷◌, ◌++◌, ltb, leb, ◌==◌, if◌then◌else◌,
  length,
}
use vector_doc_qa.Text.{Text, space_at}

-- while end > start and not text[end].isspace(): end -= 1
unfoldable pub last_space : Text → ℕ → ℕ → ℕ
last_space text start zero = zero
last_space text start (suc e) =
    if ltb start (suc e) && not (space_at text (suc e)) then last_space text start e else suc e

-- while i < end and test(text[i]): i += 1, for the `rounds` positions left before `end`.
unfoldable pub skip : (ℕ → Bool) → ℕ → ℕ → ℕ
skip test zero i = i
skip test (suc rounds) i = if test i then skip test rounds (suc i) else i

-- while chunk_end > chunk_start and text[chunk_end - 1].isspace(): chunk_end -= 1
unfoldable pub trim_end : Text → ℕ → ℕ → ℕ
trim_end text chunk_start zero = zero
trim_end text chunk_start (suc e) =
    if ltb chunk_start (suc e) && space_at text e then trim_end text chunk_start e else suc e

-- Where the window that begins at `start` ends: at a space if there is one, else after
-- `chunk_size` characters.
unfoldable pub window_end : Text → ℕ → ℕ → ℕ
window_end text chunk_size start =
    let target = min (start + chunk_size) (length text) in
    let back = last_space text start target in
    if ltb target (length text) then (if back == start then target else back) else target

-- The trimmed ends of a window.
unfoldable pub chunk_start : Text → ℕ → ℕ → ℕ
chunk_start text start end = skip (space_at text) (end - start) start

unfoldable pub chunk_end : Text → ℕ → ℕ → ℕ
unfolding chunk_start
chunk_end text start end = trim_end text (chunk_start text start end) end

-- `overlap` characters before the end of this window, but at least one character on. Where `end` is
-- smaller than `overlap` Python's difference is negative, and truncated subtraction takes the same
-- branch.
unfoldable pub step_back : ℕ → ℕ → ℕ → ℕ
step_back overlap start end = if leb (end - overlap) start then start + 1 else end - overlap

-- Forward past a word that would be cut, and past the white space behind it.
unfoldable pub snap : Text → ℕ → ℕ → ℕ
snap text start end =
    let past_word = skip (λ i. not (space_at text i)) (end - start) start in
    if ltb 0 start && ltb start (length text)
    then skip (space_at text) (end - past_word) past_word
    else start

unfoldable pub next_start : Text → ℕ → ℕ → ℕ → ℕ
unfolding step_back snap
next_start text overlap start end = snap text (step_back overlap start end) end

module _ {ℓ} {A : Type ℓ} (emit : ℕ → ℕ → A) where
  -- An empty chunk is not appended.
  unfoldable pub append_chunk : ℕ → ℕ → List A
  append_chunk from to = if ltb from to then emit from to ∷ [] else []

  -- The `while start < len(text)` loop. `start` rises in each pass, so `len(text) - start` rounds
  -- are enough fuel.
  unfoldable pub chunk_loop : Text → ℕ → ℕ → ℕ → ℕ → List A
  chunk_loop text chunk_size overlap zero start = []
  chunk_loop text chunk_size overlap (suc fuel) start =
      let end = window_end text chunk_size start in
      let here = append_chunk (chunk_start text start end) (chunk_end text start end) in
      let rest = chunk_loop text chunk_size overlap fuel (next_start text overlap start end) in
      if ltb start (length text) then (if leb (length text) end then here else here ++ rest) else []
