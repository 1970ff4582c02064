-- ===== src/Text/Strip.antt =====
-- `strip` leaves nothing exactly of the texts that are white space throughout.
use mathlib.Core.List.{reverse-cons}
use vector_doc_qa.Prelude.{
  ℕ, zero, suc, ◌<◌, ◌≡◌, refl, ◌⊎◌, inl, inr, true, false, [], ◌∷◌, ◌++◌, reverse, arith,
  Bool-cases, is_empty, length,
}
use vector_doc_qa.Text.{Text, is_space, space_at, lstrip, strip}

abbrev pub IsBlank : Text → Type 0
IsBlank s = (p : ℕ) → p < length s → space_at s p ≡ true

abbrev pub HasInk : Text → Type 0
HasInk s = (p : ℕ) × (p < length s) × (space_at s p ≡ false)

IsBlank-cons : (c : ℕ) (s : Text) → is_space c ≡ true → IsBlank s → IsBlank (c ∷ s)
unfolding space_at
IsBlank-cons c s blank all zero h = blank
IsBlank-cons c s blank all (suc p) h = all p (omega arith)

-- What `lstrip` leaves is empty, or begins with a character that is no white space.
lstrip-cases :
    (s : Text)
    → ((lstrip s ≡ []) × IsBlank s)
      ⊎ ((c : ℕ) × (r : Text) × (lstrip s ≡ c ∷ r) × (is_space c ≡ false) × HasInk s)
unfolding lstrip space_at
lstrip-cases [] = inl (refl, λ p h. elim h [ ])
lstrip-cases (c ∷ s) = elim (Bool-cases (is_space c)) [
  | inr ink ↦ inr (c, s, rw ink, ink, (0, omega arith, ink))
  | inl blank ↦ elim (lstrip-cases s) [
    | inl (none_left, all) ↦ inl (rw blank none_left, IsBlank-cons c s blank all)
    | inr (d, r, left, ink, (p, h, k)) ↦ inr (d, r, rw blank left, ink, (suc p, omega arith, k))
  ]
]

-- A last character that is no white space stops `lstrip`.
lstrip-append_ink :
    (c : ℕ) (xs : Text) → is_space c ≡ false → is_empty (lstrip (xs ++ c ∷ [])) ≡ false
unfolding lstrip
lstrip-append_ink c [] ink = rw ink
lstrip-append_ink c (x ∷ xs) ink = ground (arith, lstrip-append_ink c xs ink)

is_empty-append : (xs : Text) (c : ℕ) → is_empty (xs ++ c ∷ []) ≡ false
is_empty-append [] c = refl
is_empty-append (x ∷ xs) c = refl

is_empty-reverse : (xs : Text) → is_empty xs ≡ false → is_empty (reverse xs) ≡ false
is_empty-reverse [] h = h
is_empty-reverse (x ∷ xs) h = rw reverse-cons (is_empty-append (reverse xs) x)

kept :
    (c : ℕ) (r : Text)
    → is_space c ≡ false
    → is_empty (reverse (lstrip (reverse r ++ c ∷ []))) ≡ false
kept c r ink = is_empty-reverse (lstrip (reverse r ++ c ∷ [])) (lstrip-append_ink c (reverse r) ink)

pub strip-cases :
    (s : Text)
    → ((is_empty (strip s) ≡ true) × IsBlank s) ⊎ ((is_empty (strip s) ≡ false) × HasInk s)
unfolding strip
strip-cases s = elim (lstrip-cases s) [
  | inl (left, blank) ↦ inl (rw left, blank)
  | inr (c, r, left, ink, some_ink) ↦ inr (rw (left, reverse-cons) (kept c r ink), some_ink)
]
