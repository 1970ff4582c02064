-- ===== src/MiniEval/Cases.antt =====
-- The cases of the fixture of backend/scripts/run_mini_eval.py, and how they are read and run.
use vector_doc_qa.Prelude.{
  ℕ, suc, String, Bool, true, false, ◌&&◌, ◌||◌, Option, none, some, List, [], ◌∷◌, ◌==◌, select,
  order_by, is_empty, ltb, leb, if◌then◌else◌,
}
use vector_doc_qa.Errors.{
  ◌>>=◌, Detail, Result, ok, err, and_then, value_error, other, message, with_number, with_text,
}
use vector_doc_qa.Text.{Text, strip}
use vector_doc_qa.Json.{Json, Items, Fields, nil, cons, string, array, object, get}
use vector_doc_qa.Models.{Document}
use vector_doc_qa.Database.{Db, Query}
use vector_doc_qa.Files.{same_text}
use vector_doc_qa.Documents.Status.{is_completed}

pub record EvalCase : Type 0 where
  pub case_id : Text
  pub question : Text
  pub target_document : Text
  pub expected_facts : List Text

-- A string that is not blank.
unfoldable pub text_of : Option Json → Option Text
unfolding strip
text_of (some (string text)) = if is_empty (strip text) then none else some text
text_of _ = none

abbrev required : Option Text → Detail → Result Text
required none detail = err (value_error detail)
required (some text) detail = ok text

abbrev of_case : Text → String → Detail
of_case case_id problem = with_text "Fixture case '" case_id problem

-- The facts, without the white space around them; the message of a bad one leaves out its value.
unfoldable pub facts_of : Text → Items → Result (List Text)
unfolding text_of
facts_of case_id nil = ok []
facts_of case_id (cons fact rest) =
    and_then (required (text_of (some fact)) (of_case case_id "' has invalid expected_facts value"))
      (λ text. and_then (facts_of case_id rest) (λ facts. ok (strip text ∷ facts)))

abbrev facts_list : Text → Option Json → Result (List Text)
facts_list case_id (some (array (cons fact rest))) = facts_of case_id (cons fact rest)
facts_list case_id _ =
    err (value_error (of_case case_id "' is missing non-empty 'expected_facts' list"))

unfoldable pub parse_fixture_case : Fields → ℕ → Result EvalCase
unfolding get text_of facts_of strip
parse_fixture_case raw_case index = do
  case_id ←
      required (text_of (get "case_id" raw_case))
        (with_number "Fixture case " index " is missing non-empty 'case_id'")
  question ←
      required (text_of (get "question" raw_case))
        (of_case case_id "' is missing non-empty 'question'")
  target_document ←
      required (text_of (get "target_document" raw_case))
        (of_case case_id "' is missing non-empty 'target_document'")
  expected_facts ← facts_list case_id (get "expected_facts" raw_case)
  ok (record {
    case_id = strip case_id;
    question = strip question;
    target_document = strip target_document;
    expected_facts = expected_facts;
  })

-- The cases from an index on; an item that is no object has no `get`.
unfoldable pub parse_cases : Items → ℕ → Result (List EvalCase)
unfolding parse_fixture_case
parse_cases nil index = ok []
parse_cases (cons (object raw_case) rest) index = do
  eval_case ← parse_fixture_case raw_case index
  cases ← parse_cases rest (suc index)
  ok (eval_case ∷ cases)
parse_cases (cons _ rest) index = err (other (message "object has no attribute 'get'"))

-- `x <= y` on texts, by code points.
unfoldable pub text_le : Text → Text → Bool
text_le [] t = true
text_le (c ∷ s) [] = false
text_le (c ∷ s) (d ∷ t) = ltb c d || (c == d && text_le s t)

-- The fixture's JSON, sorted by the identifiers.
unfoldable pub load_eval_cases : Json → Result (List EvalCase)
unfolding get parse_cases text_le
load_eval_cases (object raw_payload) = elim (get "cases" raw_payload) [
  | some (array (cons raw_case rest)) ↦
      and_then (parse_cases (cons raw_case rest) 1)
        (λ cases. ok (order_by (λ (a b : EvalCase). text_le a.case_id b.case_id) cases))
  | _ ↦ err (value_error (message "Fixture must define a non-empty 'cases' array"))
]
load_eval_cases _ = err (value_error (message "Fixture must be a JSON object"))

abbrev owned_by : Option ℕ → Document → Bool
owned_by none d = true
owned_by (some user_id) d = d.user_id == user_id

unfoldable pub matching_documents : Text → Option ℕ → Db → List Document
unfolding same_text
matching_documents target_document user_id db =
    order_by (λ (a b : Document). leb a.id b.id)
      (select
        (λ (d : Document).
          same_text d.filename target_document && is_completed d.status && owned_by user_id d)
        db.documents)

abbrev only : Text → List Document → Result ℕ
only target_document [] = err (
    value_error (with_text "No completed document found for target_document='" target_document "'"))
only target_document (d ∷ []) = ok d.id
only target_document (d ∷ e ∷ documents) = err (
    value_error
      (with_text "Multiple completed documents found for target_document='" target_document "'"))

unfoldable pub resolve_document_id : Text → Option ℕ → Query ℕ
unfolding matching_documents
resolve_document_id target_document user_id s =
    (only target_document (matching_documents target_document user_id s.current), s)
