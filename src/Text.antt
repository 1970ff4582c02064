-- ===== src/Text.antt =====
-- Python's `str` as its code points, with the methods that the backend uses of it.
pub mod Strip
pub mod Write
use vector_doc_qa.Prelude.{
  ℕ, ◌-◌, Bool, ◌&&◌, ◌||◌, List, [], ◌∷◌, reverse, leb, ◌==◌, if◌then◌else◌, get_or, take, drop,
}

abbrev pub Text : Type 0
Text = List ℕ

-- `str.isspace` of one character: the code points that Python counts as white space.
unfoldable pub is_space : ℕ → Bool
is_space c =
    (leb 9 c && leb c 13)
    || (leb 28 c && leb c 32)
    || c == 133
    || c == 160
    || c == 5760
    || (leb 8192 c && leb c 8202)
    || c == 8232
    || c == 8233
    || c == 8239
    || c == 8287
    || c == 12288

-- `text[i].isspace()`, which the callers apply below the length only.
unfoldable pub space_at : Text → ℕ → Bool
space_at text i = is_space (get_or text i 0)

-- `text[a:b]`.
abbrev pub slice : Text → ℕ → ℕ → Text
slice text a b = take (b - a) (drop a text)

-- `str.lstrip` and `str.strip` without arguments.
unfoldable pub lstrip : Text → Text
lstrip [] = []
lstrip (c ∷ s) = if is_space c then lstrip s else c ∷ s

unfoldable pub strip : Text → Text
unfolding lstrip
strip s = reverse (lstrip (reverse (lstrip s)))
