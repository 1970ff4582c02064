-- ===== src/Text/Write.antt =====
-- Texts that are written: the code points of a constant, a number in decimal, `str.join`.
use Prim.Native.Char.{code}
use vector_doc_qa.Prelude.{
  ℕ, zero, suc, ◌+◌, ◌/◌, ◌%◌, String, List, [], ◌∷◌, ◌++◌, ltb, if◌then◌else◌,
}
use vector_doc_qa.Text.{Text}

-- `String` has its own `[]` and `∷`.
abbrev pub codes : String → Text
codes String.[] = []
codes (String.◌∷◌ c s) = code c ∷ codes s

-- `n` digits are enough for a number below `10 ^ n`, so `suc n` are for `n`.
abbrev decimal_digits : ℕ → ℕ → Text
decimal_digits zero n = []
decimal_digits (suc fuel) n =
    let rest = decimal_digits fuel (n / 10) in (if ltb n 10 then [] else rest) ++ (48 + n % 10) ∷ []

-- str(n)
unfoldable pub str_int : ℕ → Text
str_int n = decimal_digits (suc n) n

-- separator.join(parts)
unfoldable pub join_with : Text → List Text → Text
join_with separator [] = []
join_with separator (part ∷ []) = part
join_with separator (part ∷ next ∷ parts) = part ++ separator ++ join_with separator (next ∷ parts)
