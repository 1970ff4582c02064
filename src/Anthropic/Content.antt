-- ===== src/Anthropic/Content.antt =====
-- What a prompt holds: the question, every excerpt and every message that is not blank.
use mathlib.Core.Path.{subst}
use mathlib.Core.List.{append_assoc, append-nil}
use vector_doc_qa.Prelude.{
  ℕ, ◌+◌, ◌≡◌, refl, ap, sym, ◌∙◌, inl, inr, Bool, true, false, ◌&&◌, List, [], ◌∷◌, ◌++◌, any,
  is_empty, All, All-imp, arith, Bool-cases,
}
use vector_doc_qa.Text.{Text, strip}
use vector_doc_qa.Text.Write.{codes, str_int, join_with}
use vector_doc_qa.Models.{Role}
use vector_doc_qa.Chat.Sources.{SearchResult}
use vector_doc_qa.Anthropic.Prompt.{
  filename_of, has_filename, excerpt, excerpts_from, speaker, history_lines, section_of,
  history_section, build_prompt, excerpts_intro, instructions, citation_instruction,
}

-- `part in text`
pub record Occurs (part text : Text) : Type 0 where
  pub before : Text
  pub after : Text
  pub found : before ++ part ++ after ≡ text

Occurs-whole : (text : Text) → Occurs text text
Occurs-whole text = record { before = []; after = []; found = append-nil text }

Occurs-left : {part : Text} (text rest : Text) → Occurs part text → Occurs part (text ++ rest)
Occurs-left {part} text rest o = record {
  before = o.before;
  after = o.after ++ rest;
  found = sym (append_assoc (o.before ++ part) o.after rest) ∙ ap (λ t. t ++ rest) o.found;
}

Occurs-right : {part : Text} (start text : Text) → Occurs part text → Occurs part (start ++ text)
Occurs-right {part} start text o = record {
  before = start ++ o.before;
  after = o.after;
  found =
      ap (λ t. t ++ o.after) (append_assoc start o.before part)
      ∙ append_assoc start (o.before ++ part) o.after
      ∙ ap (λ t. start ++ t) o.found;
}

-- What occurs in a part of a joined text occurs in the text.
Occurs-first :
    {part : Text} (separator : Text) (next : Text) (texts : List Text)
    → Occurs part next
    → Occurs part (join_with separator (next ∷ texts))
unfolding join_with
Occurs-first separator next [] o = o
Occurs-first separator next (t ∷ texts) o = Occurs-left _ _ (Occurs-left next separator o)

Occurs-next :
    {part : Text} (separator : Text) (next t : Text) (texts : List Text)
    → Occurs part (join_with separator (t ∷ texts))
    → Occurs part (join_with separator (next ∷ t ∷ texts))
unfolding join_with
Occurs-next separator next t texts o = Occurs-right (next ++ separator) _ o

Occurs-excerpt :
    (flag : Bool) (i : ℕ) (chunk : SearchResult) → Occurs chunk.content (excerpt flag i chunk)
Occurs-excerpt flag i chunk = elim (Bool-cases (flag && has_filename chunk)) [
  | inl h ↦ rw h (
      Occurs-right
        (codes "Excerpt " ++ str_int i ++ codes " (from \"" ++ filename_of chunk ++ codes "\"):\n")
        chunk.content (Occurs-whole chunk.content))
  | inr h ↦ rw h (
      Occurs-right (codes "Excerpt " ++ str_int i ++ codes ":\n") chunk.content
        (Occurs-whole chunk.content))
]

excerpts_from-Occurs :
    (separator : Text) (flag : Bool) (i : ℕ) (chunks : List SearchResult)
    → All
        (λ (c : SearchResult). Occurs c.content (join_with separator (excerpts_from flag i chunks)))
        chunks
unfolding excerpts_from
excerpts_from-Occurs separator flag i [] = tt
excerpts_from-Occurs separator flag i (c ∷ []) =
    (Occurs-first separator (excerpt flag i c) [] (Occurs-excerpt flag i c), tt)
excerpts_from-Occurs separator flag i (c ∷ d ∷ chunks) = (
  Occurs-first separator (excerpt flag i c) _ (Occurs-excerpt flag i c),
  All-imp (d ∷ chunks)
      (λ e o.
        Occurs-next separator (excerpt flag i c) (excerpt flag (i + 1) d)
          (excerpts_from flag (i + 1 + 1) chunks) o)
      (excerpts_from-Occurs separator flag (i + 1) (d ∷ chunks)),
)

-- A message is blank, or occurs without the white space around it.
pub data IsQuoted (text : Text) (message : Role × Text) : Type 0 where
  blank : is_empty (strip message.1) ≡ true → IsQuoted text message
  quoted : Occurs (strip message.1) text → IsQuoted text message

empty-middle : (before part after : Text) → before ++ part ++ after ≡ [] → is_empty part ≡ true
empty-middle before [] after h = refl
empty-middle [] (c ∷ part) after h = absurd (ground arith)
empty-middle (b ∷ before) (c ∷ part) after h = absurd (ground arith)

IsQuoted-nil : (m : Role × Text) → IsQuoted [] m → is_empty (strip m.1) ≡ true
IsQuoted-nil m (blank h) = h
IsQuoted-nil m (quoted o) = empty-middle o.before (strip m.1) o.after o.found

IsQuoted-next :
    (line : Text) (lines : List Text) (m : Role × Text)
    → IsQuoted (join_with (codes "\n") lines) m
    → IsQuoted (join_with (codes "\n") (line ∷ lines)) m
unfolding join_with
IsQuoted-next line [] m q = blank (IsQuoted-nil m q)
IsQuoted-next line (t ∷ lines) m (blank h) = blank h
IsQuoted-next line (t ∷ lines) m (quoted o) = quoted (Occurs-next (codes "\n") line t lines o)

IsQuoted-section_of :
    (lines : List Text) (m : Role × Text)
    → IsQuoted (join_with (codes "\n") lines) m
    → IsQuoted (section_of lines) m
unfolding join_with
IsQuoted-section_of [] m q = q
IsQuoted-section_of (line ∷ lines) m (blank h) = blank h
IsQuoted-section_of (line ∷ lines) m (quoted o) = quoted (
    Occurs-left _ (codes "\n\n")
      (Occurs-right (codes "Recent conversation history (oldest to newest):\n") _ o))

lines-blank :
    (role : Role) (content : Text) (messages : List (Role × Text))
    → is_empty (strip content) ≡ true
    → history_lines ((role, content) ∷ messages) ≡ history_lines messages
unfolding history_lines
lines-blank role content messages h = rw h refl

lines-ink :
    (role : Role) (content : Text) (messages : List (Role × Text))
    → is_empty (strip content) ≡ false
    → history_lines ((role, content) ∷ messages)
      ≡ (speaker role ++ strip content) ∷ history_lines messages
unfolding history_lines
lines-ink role content messages h = rw h refl

history_lines-IsQuoted :
    (history : List (Role × Text))
    → All (IsQuoted (join_with (codes "\n") (history_lines history))) history
history_lines-IsQuoted [] = tt
history_lines-IsQuoted ((role, content) ∷ messages) = elim (Bool-cases (is_empty (strip content))) [
  | inl h ↦ (
    blank h,
    subst (λ lines. All (IsQuoted (join_with (codes "\n") lines)) messages)
        (sym (lines-blank role content messages h)) (history_lines-IsQuoted messages),
  )
  | inr h ↦
      subst (λ lines. All (IsQuoted (join_with (codes "\n") lines)) ((role, content) ∷ messages))
        (sym (lines-ink role content messages h))
        (
          quoted (
              Occurs-first (codes "\n") (speaker role ++ strip content) (history_lines messages)
                (Occurs-right (speaker role) (strip content) (Occurs-whole (strip content)))),
          All-imp messages
              (λ m q. IsQuoted-next (speaker role ++ strip content) (history_lines messages) m q)
              (history_lines-IsQuoted messages),
        )
]

history_section-IsQuoted :
    (history : List (Role × Text)) → All (IsQuoted (history_section history)) history
unfolding history_section
history_section-IsQuoted history =
    All-imp history (λ m q. IsQuoted-section_of (history_lines history) m q)
      (history_lines-IsQuoted history)

module _ (query : Text) (chunks : List SearchResult) (history : List (Role × Text)) where
  abbrev flag : Bool
  flag = any has_filename chunks

  abbrev before_section : Text
  before_section =
      excerpts_intro flag
      ++ codes "\n\n"
      ++ join_with (codes "\n\n") (excerpts_from flag 1 chunks)
      ++ codes "\n\n"

  IsQuoted-prompt :
      (m : Role × Text)
      → IsQuoted (history_section history) m
      → IsQuoted (build_prompt query chunks history) m
  unfolding build_prompt
  IsQuoted-prompt m (blank h) = blank h
  IsQuoted-prompt m (quoted o) = quoted (
      Occurs-left _ (citation_instruction flag) (
        Occurs-left _ instructions (
          Occurs-left _ query (
            Occurs-left _ (codes "Current question: ")
              (Occurs-right before_section (history_section history) o)))))

  Occurs-prompt :
      {part : Text}
      → Occurs part (join_with (codes "\n\n") (excerpts_from flag 1 chunks))
      → Occurs part (build_prompt query chunks history)
  unfolding build_prompt
  Occurs-prompt o = Occurs-left _ (citation_instruction flag) (
      Occurs-left _ instructions (
        Occurs-left _ query (
          Occurs-left _ (codes "Current question: ") (
            Occurs-left _ (history_section history) (
              Occurs-left _ (codes "\n\n")
                (Occurs-right (excerpts_intro flag ++ codes "\n\n") _ o))))))

  Occurs-query : Occurs query (build_prompt query chunks history)
  unfolding build_prompt
  Occurs-query = Occurs-left _ (citation_instruction flag) (
      Occurs-left _ instructions (
        Occurs-right (before_section ++ history_section history ++ codes "Current question: ") query
          (Occurs-whole query)))

  -- The prompt holds the question, the content of every excerpt, and every message of the history
  -- that is not blank, without the white space around it.
  pub build_prompt-Occurs :
      Occurs query (build_prompt query chunks history)
      × All (λ (c : SearchResult). Occurs c.content (build_prompt query chunks history)) chunks
      × All (IsQuoted (build_prompt query chunks history)) history
  build_prompt-Occurs = (
    Occurs-query,
    All-imp chunks (λ c o. Occurs-prompt o) (excerpts_from-Occurs (codes "\n\n") flag 1 chunks),
    All-imp history IsQuoted-prompt (history_section-IsQuoted history),
  )
