-- ===== src/Files.antt =====
-- backend/app/utils/file_utils.py: validation, naming and storing of an upload. The Unicode tables
-- behind `str.lower` and `str.isalnum`, the printing of floats, today's date, the random part of a
-- name and the storage backend are parameters; bytes are numbers. The temporary file is the text read so far.
pub mod Names
pub mod Uploads
use vector_doc_qa.Prelude.{
  ℕ, ◌+◌, ◌*◌, String, Bool, true, false, ◌&&◌, ◌||◌, not, Option, none, some, List, [], ◌∷◌, ◌++◌,
  map, reverse, ltb, ◌==◌, if◌then◌else◌, length, is_empty, take, any,
}
use vector_doc_qa.Errors.{
  Exc, Result, ok, err, http, message, with_text, with_texts, with_detail, str, ◌>>=◌,
}
use vector_doc_qa.Text.{Text}
use vector_doc_qa.Text.Write.{codes, join_with}

abbrev pub Bytes : Type 0
Bytes = List ℕ

-- `megabytes n` is the float `n / 1024 / 1024` as it is printed.
pub record Unicode : Type 0 where
  pub lower : Text → Text
  pub is_alnum : ℕ → Bool
  pub megabytes : ℕ → Text

-- starlette's UploadFile: `reads` is what the successive calls of `read(chunk_size)` return.
pub record UploadFile : Type 0 where
  pub filename : Option Text
  pub size : Option ℕ
  pub reads : List Bytes

unfoldable pub same_text : Text → Text → Bool
same_text [] [] = true
same_text (a ∷ x) (b ∷ y) = a == b && same_text x y
same_text _ _ = false

unfoldable pub starts_with : Bytes → Bytes → Bool
starts_with text [] = true
starts_with [] (p ∷ prefix) = false
starts_with (c ∷ text) (p ∷ prefix) = c == p && starts_with text prefix

-- The parts of a path between its slashes.
unfoldable pub parts_from : Text → Text → List Text
parts_from part [] = part ∷ []
parts_from part (c ∷ path) =
    let rest = parts_from [] path in
    let more = parts_from (part ++ c ∷ []) path in if c == b'/' then part ∷ rest else more

-- pathlib drops empty parts and single dots.
abbrev pub is_part : Text → Bool
is_part part = not (is_empty part) && not (same_text part (b'.' ∷ []))

unfoldable pub last_part : Text → List Text → Text
unfolding same_text
last_part found [] = found
last_part found (part ∷ parts) = last_part (if is_part part then part else found) parts

-- Path(path).name
unfoldable pub name : Text → Text
unfolding last_part parts_from
name path = last_part [] (parts_from [] path)

-- The text behind the last dot, and the text in front of it.
unfoldable pub split_dot : Text → Text → Text → Option (Text × Text)
split_dot stem rest [] = none
split_dot stem rest (c ∷ reversed) =
    if c == b'.' then some (reverse reversed, rest) else split_dot stem (c ∷ rest) reversed

-- Path(path).stem and Path(path).suffix: a name's last dot counts unless it is its first or its
-- last character.
unfoldable pub stem_and_suffix : Text → Text × Text
unfolding name split_dot
stem_and_suffix path =
    let whole = name path in
    elim (split_dot [] [] (reverse whole)) [
      | none ↦ (whole, [])
      | some (stem, extension) ↦
          if is_empty stem || is_empty extension then (whole, []) else (stem, b'.' ∷ extension)
    ]

module _ (unicode : Unicode) (allowed_extensions : List Text) (max_file_size : ℕ) where
  abbrev pub too_large : Exc
  too_large =
      http 413 (with_text "File too large. Maximum size: " (unicode.megabytes max_file_size) "MB")

  abbrev pub extension_of : Text → Text
  extension_of filename = unicode.lower (stem_and_suffix filename).1

  abbrev pub is_allowed : Text → Bool
  is_allowed extension = any (λ allowed. same_text allowed extension) allowed_extensions

  -- `file.size and file.size > settings.max_file_size`
  abbrev pub is_too_large : Option ℕ → Bool
  is_too_large none = false
  is_too_large (some size) = ltb max_file_size size

  abbrev pub check_name : Text → Result (Unit {0})
  check_name filename =
      if is_empty filename
      then err (http 400 (message "No filename provided"))
      else if is_allowed (extension_of filename)
      then ok tt
      else err (
          http 400 (
            with_texts "File type " (extension_of filename) " not allowed. Allowed types: "
              (join_with (codes ", ") allowed_extensions)))

  unfoldable pub validate_file_upload : UploadFile → Result (Unit {0})
  unfolding stem_and_suffix same_text
  validate_file_upload file = elim file.filename [
    | none ↦ err (http 400 (message "No filename provided"))
    | some filename ↦
        check_name filename >>= λ _. if is_too_large file.size then err too_large else ok tt
  ]

  abbrev pub safe_char : ℕ → ℕ
  safe_char c = if unicode.is_alnum c || c == b'-' || c == b'_' then c else b'_'

  -- `timestamp` is today's date, `random_str` eight random hexadecimal digits.
  unfoldable pub generate_unique_filename : Text → Text → Text → Text
  unfolding stem_and_suffix
  generate_unique_filename timestamp random_str original_filename =
      let safe_name = take 100 (map safe_char (stem_and_suffix original_filename).0) in
      timestamp ++ (b'_' ∷ random_str ++ (b'_' ∷ safe_name ++ extension_of original_filename))

  abbrev pub pdf_magic_bytes : Bytes
  pdf_magic_bytes = b'%' ∷ b'P' ∷ b'D' ∷ b'F' ∷ b'-' ∷ []

  abbrev pub not_pdf : Exc
  not_pdf =
      http 400 (message "File content does not match PDF format. Only real PDF files are allowed.")

  -- The `while chunk := await file.read(chunk_size)` loop: what was written, and the size.
  unfoldable pub read_upload : Bool → Bool → ℕ → Bytes → List Bytes → Result (Bytes × ℕ)
  unfolding starts_with
  read_upload first_chunk is_pdf file_size written [] = ok (written, file_size)
  read_upload first_chunk is_pdf file_size written ([] ∷ reads) = ok (written, file_size)
  read_upload first_chunk is_pdf file_size written ((c ∷ r) ∷ reads) =
      if first_chunk && is_pdf && not (starts_with (c ∷ r) pdf_magic_bytes)
      then err not_pdf
      else if ltb max_file_size (file_size + length (c ∷ r))
      then err too_large
      else read_upload false is_pdf (file_size + length (c ∷ r)) (written ++ c ∷ r) reads

  abbrev pub ends_with : Text → Text → Bool
  ends_with text suffix = starts_with (reverse text) (reverse suffix)

  -- HTTPExceptions pass, any other exception becomes one.
  abbrev pub as_http {ℓ} : {A : Type ℓ} → Result A → Result A
  as_http (ok a) = ok a
  as_http (err (http status detail)) = err (http status detail)
  as_http (err e) = err (http 500 (with_detail "Failed to save file: " (str e)))

  -- `write_file_from_path` stores the bytes under the path, or raises.
  unfoldable pub save_upload_file :
      (Text → Bytes → Result (Unit {0})) → Text → Text → UploadFile → Text → Result (Text × ℕ)
  unfolding generate_unique_filename read_upload starts_with
  save_upload_file write_file_from_path timestamp random_str file filename =
      let unique_filename = generate_unique_filename timestamp random_str filename in
      let is_pdf = ends_with (unicode.lower unique_filename) (b'.' ∷ b'p' ∷ b'd' ∷ b'f' ∷ []) in
      let path = b'u' ∷ b'p' ∷ b'l' ∷ b'o' ∷ b'a' ∷ b'd' ∷ b's' ∷ b'/' ∷ unique_filename in
      as_http (
        read_upload true is_pdf 0 [] file.reads >>= λ stored.
        write_file_from_path path stored.0 >>= λ _. ok (path, stored.1))
