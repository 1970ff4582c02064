-- ===== src/Files/Uploads.antt =====
-- What an upload that is accepted has passed.
use mathlib.Core.List.{append-nil, append_assoc}
use vector_doc_qa.Prelude.{
  ℕ, ◌+◌, ◌≤◌, ◌≡◌, refl, Bool, true, false, List, [], ◌∷◌, ◌++◌, arith, length, length-append,
  is_empty, ltb, ◌&&◌, not, if◌then◌else◌,
}
use vector_doc_qa.Errors.{ok, err}
use vector_doc_qa.Text.{Text}
use vector_doc_qa.Files.{
  Bytes, Unicode, starts_with, pdf_magic_bytes, too_large, not_pdf, read_upload,
}

-- The bytes of the stream: the reads up to the first empty one.
abbrev pub content : List Bytes → Bytes
content [] = []
content ([] ∷ reads) = []
content ((c ∷ r) ∷ reads) = (c ∷ r) ++ content reads

abbrev pub first_read : List Bytes → Bytes
first_read [] = []
first_read (r ∷ reads) = r

starts_with-append :
    (text prefix more : Bytes)
    → starts_with text prefix ≡ true
    → starts_with (text ++ more) prefix ≡ true
unfolding starts_with
starts_with-append [] [] more h = refl
starts_with-append [] (p ∷ prefix) more h = cc
starts_with-append (c ∷ text) [] more h = refl
starts_with-append (c ∷ text) (p ∷ prefix) more h =
    ground (arith, starts_with-append text prefix more)

module _ (unicode : Unicode) (allowed : List Text) (max_file_size : ℕ) where
  read_upload-written :
      (first is_pdf : Bool) (size : ℕ) (written : Bytes) (reads : List Bytes) (out : Bytes) (n : ℕ)
      → read_upload unicode allowed max_file_size first is_pdf size written reads ≡ ok (out, n)
      → (out ≡ written ++ content reads) × (n ≡ size + length (content reads))
  unfolding read_upload
  read_upload-written first is_pdf size written [] out n h = ground (arith, append-nil written)
  read_upload-written first is_pdf size written ([] ∷ reads) out n h =
      ground (arith, append-nil written)
  read_upload-written first is_pdf size written ((c ∷ r) ∷ reads) out n h = ground (
    arith,
    read_upload-written false is_pdf (size + length (c ∷ r)) (written ++ c ∷ r) reads out n,
    append_assoc written (c ∷ r) (content reads),
    length-append (c ∷ r) (content reads),
  )

  read_upload-size :
      (first is_pdf : Bool) (size : ℕ) (written : Bytes) (reads : List Bytes) (out : Bytes) (n : ℕ)
      → size ≤ max_file_size
      → read_upload unicode allowed max_file_size first is_pdf size written reads ≡ ok (out, n)
      → n ≤ max_file_size
  unfolding read_upload
  read_upload-size first is_pdf size written [] out n fits h = ground arith
  read_upload-size first is_pdf size written ([] ∷ reads) out n fits h = ground arith
  read_upload-size first is_pdf size written ((c ∷ r) ∷ reads) out n fits h =
      ground (
        arith,
        read_upload-size false is_pdf (size + length (c ∷ r)) (written ++ c ∷ r) reads out n,
      )

  first_read-magic :
      (reads : List Bytes) (out : Bytes) (n : ℕ)
      → read_upload unicode allowed max_file_size true true 0 [] reads ≡ ok (out, n)
      → is_empty (content reads) ≡ false
      → starts_with (content reads) (pdf_magic_bytes unicode allowed max_file_size) ≡ true
  unfolding read_upload
  first_read-magic [] out n h k = cc
  first_read-magic ([] ∷ reads) out n h k = cc
  first_read-magic ((c ∷ r) ∷ reads) out n h k =
      starts_with-append (c ∷ r) (pdf_magic_bytes unicode allowed max_file_size) (content reads)
        (ground arith)

  -- An accepted upload was written whole, with its size, which is within the limit; if it is named a
  -- PDF and has any byte, it begins with the bytes of a PDF.
  pub read_upload-ok :
      (is_pdf : Bool) (reads : List Bytes) (out : Bytes) (n : ℕ)
      → read_upload unicode allowed max_file_size true is_pdf 0 [] reads ≡ ok (out, n)
      → (out ≡ content reads)
        × (n ≡ length (content reads))
        × (n ≤ max_file_size)
        × (is_pdf ≡ true
            → is_empty (content reads) ≡ false
            → starts_with (content reads) (pdf_magic_bytes unicode allowed max_file_size) ≡ true)
  read_upload-ok is_pdf reads out n h =
      let (whole, size) = read_upload-written true is_pdf 0 [] reads out n h in
      (
        whole,
        omega (arith, size),
        read_upload-size true is_pdf 0 [] reads out n (omega arith) h,
        λ pdf some_byte. first_read-magic reads out n (rw pdf at h) some_byte,
      )

  -- After the first read: the rest is written, unless the whole is too large.
  read_upload-rest :
      (is_pdf : Bool) (size : ℕ) (written : Bytes) (reads : List Bytes)
      → size ≤ max_file_size
      → read_upload unicode allowed max_file_size false is_pdf size written reads ≡ (
          if ltb max_file_size (size + length (content reads))
          then err (too_large unicode allowed max_file_size)
          else ok (written ++ content reads, size + length (content reads)))
  unfolding read_upload
  read_upload-rest is_pdf size written [] fits = ground (arith, append-nil written)
  read_upload-rest is_pdf size written ([] ∷ reads) fits = ground (arith, append-nil written)
  read_upload-rest is_pdf size written ((c ∷ r) ∷ reads) fits = ground (
    arith,
    read_upload-rest is_pdf (size + length (c ∷ r)) (written ++ c ∷ r) reads,
    append_assoc written (c ∷ r) (content reads),
    length-append (c ∷ r) (content reads),
  )

  -- Reading an upload in pieces does what a check of its whole content does: one named a PDF whose
  -- first read is not empty and does not begin with the bytes of a PDF is refused as no PDF; any
  -- other that is larger than the limit is refused as too large; all else is accepted, with its
  -- content and size, also what has no byte and is named a PDF.
  pub read_upload-content :
      (is_pdf : Bool) (reads : List Bytes)
      → read_upload unicode allowed max_file_size true is_pdf 0 [] reads ≡ (
          if is_pdf
            && not (is_empty (first_read reads))
            && not (starts_with (first_read reads) (pdf_magic_bytes unicode allowed max_file_size))
          then err (not_pdf unicode allowed max_file_size)
          else if ltb max_file_size (length (content reads))
          then err (too_large unicode allowed max_file_size)
          else ok (content reads, length (content reads)))
  unfolding read_upload
  read_upload-content is_pdf [] = ground arith
  read_upload-content is_pdf ([] ∷ reads) = ground arith
  read_upload-content is_pdf ((c ∷ r) ∷ reads) = ground (
    arith,
    read_upload-rest is_pdf (length (c ∷ r)) (c ∷ r) reads,
    length-append (c ∷ r) (content reads),
  )
