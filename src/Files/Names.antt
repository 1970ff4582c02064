-- ===== src/Files/Names.antt =====
-- The name under which an upload is stored names one file of the upload directory.
use vector_doc_qa.Prelude.{
  ℕ, zero, suc, ◌+◌, ◌≤◌, ◌≡◌, refl, ap, ◌∙◌, ==_iff, Bool, true, false, ◌||◌, some, List, [], ◌∷◌,
  ◌++◌, map, reverse, arith, ◌==◌, length, length-append, length-take, take, any, All,
  if◌then◌else◌, Bool-cases, Option-cases, inl, inr,
}
use vector_doc_qa.Text.{Text}
use vector_doc_qa.Files.{
  Unicode, is_part, parts_from, last_part, name, split_dot, stem_and_suffix, safe_char,
  extension_of, generate_unique_filename,
}
use mathlib.Core.List.{reverse-cons}

abbrev pub has_slash : Text → Bool
has_slash text = any (λ c. c == b'/') text

has_slash-append : (xs ys : Text) → has_slash (xs ++ ys) ≡ (has_slash xs || has_slash ys)
has_slash-append [] ys = refl
has_slash-append (x ∷ xs) ys = ground (arith, has_slash-append xs ys)

has_slash-reverse : (xs : Text) → has_slash (reverse xs) ≡ has_slash xs
has_slash-reverse [] = refl
has_slash-reverse (x ∷ xs) =
    rw reverse-cons (ground (arith, has_slash-append (reverse xs) (x ∷ []), has_slash-reverse xs))

abbrev NoSlash : Text → Type 0
NoSlash t = has_slash t ≡ false

parts_from-NoSlash : (part path : Text) → NoSlash part → All NoSlash (parts_from part path)
unfolding parts_from
parts_from-NoSlash part [] h = (h, tt)
parts_from-NoSlash part (c ∷ path) h = elim (Bool-cases (c == b'/')) [
  | inl slash ↦ rw slash (h, parts_from-NoSlash [] path refl)
  | inr other ↦
      rw other
        (parts_from-NoSlash (part ++ c ∷ []) path (ground (arith, has_slash-append part (c ∷ []))))
]

last_part-NoSlash :
    (found : Text) (parts : List Text)
    → NoSlash found
    → All NoSlash parts
    → NoSlash (last_part found parts)
unfolding last_part
last_part-NoSlash found [] h all = h
last_part-NoSlash found (part ∷ parts) h all =
    last_part-NoSlash (if is_part part then part else found) parts (chosen (is_part part)) all.1
  where
    chosen : (b : Bool) → NoSlash (if b then part else found)
    chosen true = all.0
    chosen false = h

-- `name` has no slash in it.
pub name-no_slash : (path : Text) → has_slash (name path) ≡ false
unfolding name
name-no_slash path =
    last_part-NoSlash [] (parts_from [] path) refl (parts_from-NoSlash [] path refl)

split_dot-NoSlash :
    (stem rest reversed : Text) (out : Text × Text)
    → NoSlash rest
    → NoSlash reversed
    → split_dot stem rest reversed ≡ some out
    → NoSlash out.1
unfolding split_dot
split_dot-NoSlash stem rest [] out h k e = cc
split_dot-NoSlash stem rest (c ∷ reversed) out h k e =
    ground (arith, split_dot-NoSlash stem (c ∷ rest) reversed out)

-- The extension has no slash in it.
pub suffix-no_slash : (path : Text) → has_slash (stem_and_suffix path).1 ≡ false
unfolding stem_and_suffix
suffix-no_slash path = elim (Option-cases (split_dot [] [] (reverse (name path)))) [
  | inl no_dot ↦ ground arith
  | inr (out, found) ↦ ground (
    arith,
    split_dot-NoSlash [] [] (reverse (name path)) out refl
        (has_slash-reverse (name path) ∙ name-no_slash path) found,
  )
]

has_slash-take : (n : ℕ) (xs : Text) → has_slash xs ≡ false → has_slash (take n xs) ≡ false
has_slash-take zero xs h = refl
has_slash-take (suc n) [] h = refl
has_slash-take (suc n) (x ∷ xs) h = ground (arith, has_slash-take n xs)

module _ (unicode : Unicode) (allowed : List Text) (max_file_size : ℕ)
    (slash : unicode.is_alnum b'/' ≡ false) where
  safe_char-ne : (c : ℕ) → (safe_char unicode allowed max_file_size c == b'/') ≡ false
  safe_char-ne c = elim (Bool-cases (c == b'/')) [
    | inl same ↦ ground (arith, ap unicode.is_alnum ((==_iff c b'/').0 same))
    | inr other ↦ ground arith
  ]

  has_slash-safe :
      (xs : Text) → has_slash (map (safe_char unicode allowed max_file_size) xs) ≡ false
  has_slash-safe [] = refl
  has_slash-safe (x ∷ xs) = ground (arith, safe_char-ne x, has_slash-safe xs)

  -- A generated file name has no slash in it, whatever the original name is, if the slash is not
  -- alphanumeric, the date and the random part have no slash, and lowering a text adds none.
  pub generate_unique_filename-no_slash :
      (timestamp random_str original : Text)
      → has_slash timestamp ≡ false
      → has_slash random_str ≡ false
      → ((t : Text) → has_slash t ≡ false → has_slash (unicode.lower t) ≡ false)
      → has_slash
          (generate_unique_filename unicode allowed max_file_size timestamp random_str original)
        ≡ false
  unfolding generate_unique_filename
  generate_unique_filename-no_slash timestamp random_str original date random lower =
      let safe_name =
        take 100 (map (safe_char unicode allowed max_file_size) (stem_and_suffix original).0) in
      let extension = extension_of unicode allowed max_file_size original in
      ground (
        arith,
        has_slash-append timestamp (b'_' ∷ random_str ++ (b'_' ∷ safe_name ++ extension)),
        has_slash-append random_str (b'_' ∷ safe_name ++ extension),
        has_slash-append safe_name extension,
        has_slash-take 100
            (map (safe_char unicode allowed max_file_size) (stem_and_suffix original).0)
            (has_slash-safe (stem_and_suffix original).0),
        lower (stem_and_suffix original).1 (suffix-no_slash original),
      )

  -- A generated file name is at most 102 characters longer than its date, random part and extension
  -- together, if the slash is not alphanumeric.
  pub generate_unique_filename-length :
      (timestamp random_str original : Text)
      → length
          (generate_unique_filename unicode allowed max_file_size timestamp random_str original)
        ≤ length timestamp
          + length random_str
          + length (extension_of unicode allowed max_file_size original)
          + 102
  unfolding generate_unique_filename
  generate_unique_filename-length timestamp random_str original =
      let chars = map (safe_char unicode allowed max_file_size) (stem_and_suffix original).0 in
      let extension = extension_of unicode allowed max_file_size original in
      omega (
        arith,
        length-append timestamp (b'_' ∷ random_str ++ (b'_' ∷ take 100 chars ++ extension)),
        length-append random_str (b'_' ∷ take 100 chars ++ extension),
        length-append (take 100 chars) extension,
        length-take 100 chars,
      )
