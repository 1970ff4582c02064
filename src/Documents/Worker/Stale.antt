-- ===== src/Documents/Worker/Stale.antt =====
-- The reset of stale documents at the start of the worker.
use mathlib.Core.Path.{subst, fun_ext}
use vector_doc_qa.Prelude.{
  Bool, ◌+◌, ltb, ◌&&◌, ℕ, ◌-◌, ◌*◌, ◌≡◌, refl, true, List, [], ◌∷◌, arith, length, select, update,
  is_empty, Bool-cases, inl, inr,
}
use vector_doc_qa.Errors.{ok}
use vector_doc_qa.Models.{Document}
use vector_doc_qa.Documents.Status.{is_processing}
use vector_doc_qa.Database.{Session, commit}
use vector_doc_qa.Documents.Worker.{is_stale, interrupted, reset_stale_processing_documents}

select-update :
    (cutoff : ℕ) (rows : List Document)
    → select (is_stale cutoff) (update (is_stale cutoff) interrupted rows) ≡ []
select-update cutoff [] = refl
select-update cutoff (d ∷ rows) = ground (arith, select-update cutoff rows)

empty_nil : (rows : List Document) → is_empty rows ≡ true → rows ≡ []
empty_nil [] h = refl
empty_nil (d ∷ rows) h = absurd (ground arith)

update-none :
    (cutoff : ℕ) (rows : List Document)
    → select (is_stale cutoff) rows ≡ []
    → update (is_stale cutoff) interrupted rows ≡ rows
update-none cutoff [] h = refl
update-none cutoff (d ∷ rows) h = elim (Bool-cases (is_stale cutoff d)) [
  | inl old ↦ absurd (ground (arith, h, old))
  | inr young ↦ ground (arith, young, update-none cutoff rows (ground (arith, h, young)))
]

-- In processing, and uploaded more than the minutes before `now`.
abbrev pub is_overdue : ℕ → ℕ → Document → Bool
is_overdue stale_minutes now d =
    is_processing d.status && ltb (d.uploaded_at + stale_minutes * 60) now

is_stale-is_overdue :
    (stale_minutes now : ℕ) → is_stale (now - stale_minutes * 60) ≡ is_overdue stale_minutes now
is_stale-is_overdue stale_minutes now = fun_ext λ d. ground arith

-- The documents that a test selects are counted and reset, and all others stay.
abbrev pub Resets : (Document → Bool) → ℕ → Session → Type 0
Resets test stale_minutes s =
    ((reset_stale_processing_documents stale_minutes s).0
      ≡ ok (length (select test s.committed.documents)))
    × ((reset_stale_processing_documents stale_minutes s).1.committed.documents
        ≡ update test interrupted s.committed.documents)
    × (select test (reset_stale_processing_documents stale_minutes s).1.committed.documents ≡ [])

reset_stale_processing_documents-Resets :
    (stale_minutes : ℕ) (s : Session)
    → s.current ≡ s.committed
    → Resets (is_stale (s.now - stale_minutes * 60)) stale_minutes s
unfolding reset_stale_processing_documents commit
reset_stale_processing_documents-Resets stale_minutes s same =
    let cutoff = s.now - stale_minutes * 60 in
    elim (Bool-cases (is_empty (select (is_stale cutoff) s.current.documents))) [
      | inl none_stale ↦
          let e = empty_nil (select (is_stale cutoff) s.current.documents) none_stale in
          ground (arith, e, same, update-none cutoff s.current.documents e)
      | inr some_stale ↦ ground (arith, select-update cutoff s.current.documents, same)
    ]

-- For a session without changes of its own, the reset returns the number of documents that were
-- processing and uploaded more than the limit before now; in what is committed these are pending
-- again with the message of an interruption, all others are as before, and none is left that is
-- processing and older than the limit.
pub reset_stale_processing_documents-cleared :
    (stale_minutes : ℕ) (s : Session)
    → s.current ≡ s.committed
    → Resets (is_overdue stale_minutes s.now) stale_minutes s
reset_stale_processing_documents-cleared stale_minutes s same =
    subst (λ test. Resets test stale_minutes s) (is_stale-is_overdue stale_minutes s.now)
      (reset_stale_processing_documents-Resets stale_minutes s same)
