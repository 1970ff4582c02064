-- ===== src/Errors.antt =====
-- The exceptions that the backend raises, as values, and the results of code that may raise.
use vector_doc_qa.Prelude.{ℕ, ◌≡◌, refl, ◌⊎◌, inl, inr, String, Bool, true, false, List}

-- A message: a constant, or an f-string with a number, a text or another message in it; `str(HTTPException)` puts the status
-- in front.
pub data Detail : Type 0 where
  message : String → Detail
  with_number : String → ℕ → String → Detail
  with_numbers : String → ℕ → String → ℕ → Detail
  with_text : String → List ℕ → String → Detail
  with_texts : String → List ℕ → String → List ℕ → Detail
  with_detail : String → Detail → Detail
  with_status : ℕ → Detail → Detail

pub data Exc : Type 0 where
  -- fastapi.HTTPException(status_code, detail)
  http : ℕ → Detail → Exc
  value_error : Detail → Exc
  runtime_error : Detail → Exc
  timeout_error : Detail → Exc
  -- FileNotFoundError and the other classes of OSError
  os_error : Detail → Exc
  -- sqlalchemy.exc.IntegrityError
  integrity_error : Detail → Exc
  -- any other class
  other : Detail → Exc

-- str(exc)
unfoldable pub str : Exc → Detail
str (http status detail) = with_status status detail
str (value_error d) = d
str (runtime_error d) = d
str (timeout_error d) = d
str (os_error d) = d
str (integrity_error d) = d
str (other d) = d

pub data Result {ℓ} (A : Type ℓ) : Type ℓ where
  ok : A → Result A
  err : Exc → Result A

abbrev pub and_then {ℓ κ} : {A : Type ℓ} {B : Type κ} → Result A → (A → Result B) → Result B
and_then (ok a) f = f a
and_then (err e) f = err e

infixl 5 ◌>>=◌
abbrev pub ◌>>=◌ {ℓ κ} : {A : Type ℓ} {B : Type κ} → Result A → (A → Result B) → Result B
r >>= f = and_then r f

abbrev pub is_ok {ℓ} : {A : Type ℓ} → Result A → Bool
is_ok (ok _) = true
is_ok (err _) = false

pub Result-cases {ℓ} :
    {A : Type ℓ} (r : Result A) → ((a : A) × (r ≡ ok a)) ⊎ ((e : Exc) × (r ≡ err e))
Result-cases (ok a) = inl (a, refl)
Result-cases (err e) = inr (e, refl)
