-- ===== src/Prelude/Tables.antt =====
-- Tables as lists of rows: the rows that meet a test, the first of them, changes, and an order.
use mathlib.Core.Path.{◌≡◌, refl}
use mathlib.Core.Logic.{inl, inr}
use mathlib.Core.Bool.{Bool, true}
use mathlib.Core.Option
use mathlib.Core.Option.{Option, none, some}
use mathlib.Core.List.{List, [], ◌∷◌, ◌++◌}
use native.Mathlib.Omega.{arith}
use vector_doc_qa.Prelude.Tests.{if◌then◌else◌, Bool-cases}
use Prim.Native.Nat.{◌≤◌}
use vector_doc_qa.Prelude.Lists.{length, All}

module _ {ℓ} {A : Type ℓ} where
  -- SELECT ... WHERE test
  abbrev pub select : (A → Bool) → List A → List A
  select test [] = []
  select test (r ∷ rows) = let rest = select test rows in if test r then r ∷ rest else rest

  -- The first row of it, as `scalar` returns.
  abbrev pub find : (A → Bool) → List A → Option A
  find test [] = none
  find test (r ∷ rows) = if test r then some r else find test rows

  -- UPDATE ... SET change WHERE test
  abbrev pub update : (A → Bool) → (A → A) → List A → List A
  update test change [] = []
  update test change (r ∷ rows) = (if test r then change r else r) ∷ update test change rows

  -- DELETE ... WHERE test
  abbrev pub delete : (A → Bool) → List A → List A
  delete test [] = []
  delete test (r ∷ rows) = let rest = delete test rows in if test r then rest else r ∷ rest

  -- ORDER BY, where `before` says that a row may stand in front of another.
  abbrev pub insert_by : (A → A → Bool) → A → List A → List A
  insert_by before a [] = a ∷ []
  insert_by before a (r ∷ rows) =
      let rest = insert_by before a rows in if before a r then a ∷ r ∷ rows else r ∷ rest

  abbrev pub order_by : (A → A → Bool) → List A → List A
  order_by before [] = []
  order_by before (r ∷ rows) = insert_by before r (order_by before rows)

  pub find-test :
      (test : A → Bool) (rows : List A) (r : A) → find test rows ≡ some r → test r ≡ true
  find-test test [] r h = ground arith
  find-test test (x ∷ rows) r h = elim (Bool-cases (test x)) [
    | inl meets ↦ let h' : some x ≡ some r = rw meets at h in cc
    | inr fails ↦ find-test test rows r (rw fails at h)
  ]

  pub select-append :
      (test : A → Bool) (xs ys : List A) → select test (xs ++ ys) ≡ select test xs ++ select test ys
  select-append test [] ys = refl
  select-append test (x ∷ xs) ys = ground (arith, select-append test xs ys)

  pub length-select-le : (test : A → Bool) (rows : List A) → length (select test rows) ≤ length rows
  length-select-le test [] = omega arith
  length-select-le test (x ∷ rows) = ground (arith, length-select-le test rows)

  pub All-select_self :
      (test : A → Bool) (rows : List A) → All (λ r. test r ≡ true) (select test rows)
  All-select_self test [] = tt
  All-select_self test (x ∷ rows) = ground (arith, All-select_self test rows)

  -- What is deleted is exactly what the test selects.
  pub select-delete : (test : A → Bool) (rows : List A) → select test (delete test rows) ≡ []
  select-delete test [] = refl
  select-delete test (x ∷ rows) = ground (arith, select-delete test rows)

  -- A change that keeps the test changes the row that is found.
  pub find-update :
      (test : A → Bool) (change : A → A) (rows : List A)
      → ((r : A) → test (change r) ≡ test r)
      → find test (update test change rows) ≡ Option.map change (find test rows)
  find-update test change [] keeps = refl
  find-update test change (r ∷ rows) keeps =
      ground (arith, keeps r, find-update test change rows keeps)
