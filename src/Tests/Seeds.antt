-- ===== src/Tests/Seeds.antt =====
-- Runs of the demo seed.
use vector_doc_qa.Prelude.{ℕ, zero, suc, ◌≡◌, refl, true, false, none, some, [], ◌∷◌, arith}
use vector_doc_qa.Errors.{Result, Exc, ok, err, os_error, value_error, message}
use vector_doc_qa.Text.Write.{codes}
use vector_doc_qa.Json.{Json, Items, nil, cons, int, string, array, object, field, end}
use vector_doc_qa.Models.{User, completed}
use vector_doc_qa.Database.{Session, open_session}
use vector_doc_qa.DemoSeed.Fixture.{Environment}
use vector_doc_qa.DemoSeed.Seeding.{seed_demo_user}
use vector_doc_qa.DemoSeed.Undone.{seed_demo_user-failed, seed_demo_user-committed}
use vector_doc_qa.DemoSeed.Settled.{IsFresh, IsIdle}
use vector_doc_qa.DemoSeed.Repeated.{seed_demo_user-IsIdle}
use vector_doc_qa.Tests.Data.{alice, rows, session, alone}

abbrev zero_items : ℕ → Items
zero_items zero = nil
zero_items (suc n) = cons (int 0) (zero_items n)

abbrev fixture_of : ℕ → Json
fixture_of dimensions = object (
    field "documents"
      (array (
        cons
          (object (
            field "filename" (string (codes "demo.pdf")) (
              field "chunks"
                (array (
                  cons
                    (object (
                      field "content" (string (codes "text")) (
                        field "page_start" (int 1)
                          (field "embedding" (array (zero_items dimensions)) end))))
                    nil))
                end)))
          nil))
      end)

-- The built-in functions on the JSON values that the fixture has.
abbrev seed_environment : ℕ → Environment
seed_environment dimensions = record {
  fixture = ok (some (fixture_of dimensions));
  str_of = λ value. elim value as (λ v. vector_doc_qa.Text.Text) [ string text ↦ text | _ ↦ [] ];
  int_of =
      λ value. elim value as (λ v. vector_doc_qa.Prelude.Option ℕ) [ int n ↦ some n | _ ↦ none ];
  float_of = λ value. elim value as (λ v. Result ℕ) [
    | int n ↦ ok n
    | _ ↦ err (value_error (message "float"))
  ];
  is_truthy = λ value. true;
  b64decode = λ text. some text;
  read_file_bytes = λ path. err (os_error (message "missing"));
  write_file_bytes = λ path bytes. ok tt;
  get_password_hash = λ password. password;
}

seeds : (seed_demo_user (seed_environment 1536) alone (session completed)).0 ≡ ok tt
unfolding seed_demo_user vector_doc_qa.Repositories.DemoSeed.create_completed_document
    vector_doc_qa.DemoSeed.Fixture.embedding_of
    vector_doc_qa.Repositories.DemoSeed.create_document_chunk
seeds = refl

fresh : IsFresh (seed_environment 1536) alone (session completed)
fresh = record {
  committed = refl;
  keyed = record {
    documents = (omega arith, tt);
    owners = (omega arith, tt);
    chunks = (omega arith, tt);
  };
  accounts = (omega arith, tt);
}

seed_demo_user-IsIdle_example :
    IsIdle
      (seed_environment 1536)
      alone
      (seed_demo_user (seed_environment 1536) alone (session completed)).1
seed_demo_user-IsIdle_example =
    seed_demo_user-IsIdle (seed_environment 1536) alone (session completed) fresh seeds

-- An embedding of another dimension.
abbrev refused : Exc
refused = Exc.other (message "expected 1536 dimensions")

seed_fails : (seed_demo_user (seed_environment 3) alone (session completed)).0 ≡ err refused
unfolding seed_demo_user vector_doc_qa.Repositories.DemoSeed.create_completed_document
    vector_doc_qa.DemoSeed.Fixture.embedding_of
    vector_doc_qa.Repositories.DemoSeed.create_document_chunk
seed_fails = refl

seed_demo_user-failed_example :
    ((seed_demo_user (seed_environment 3) alone (session completed)).1.committed
      ≡ (session completed).committed)
    × ((seed_demo_user (seed_environment 3) alone (session completed)).1.current
        ≡ (session completed).committed)
seed_demo_user-failed_example =
    seed_demo_user-failed (seed_environment 3) alone (session completed) refused seed_fails

abbrev namesake : User
namesake = record alice { username = "demo" }

abbrev occupied : Session
occupied = open_session (record (rows completed [] []) { users = namesake ∷ [] }) 7

seed_demo_user-committed_example :
    (seed_demo_user (seed_environment 1536) alone occupied).1.committed ≡ occupied.committed
unfolding vector_doc_qa.Repositories.DemoSeed.get_user_by_username_or_email
seed_demo_user-committed_example =
    seed_demo_user-committed (seed_environment 1536) alone occupied namesake refl refl
