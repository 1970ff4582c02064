-- ===== src/Database.antt =====
-- The database as the backend uses it: the rows of the tables of backend/app/models, and one
-- session, whose transaction sees its own changes and ends by a commit or a rollback. Keys are drawn
-- from one counter; the code only relies on their being new.
use vector_doc_qa.Prelude.{ℕ, ◌+◌, Option, none, List}
use vector_doc_qa.Errors.{ok}
use vector_doc_qa.Exec.{Exec}
use vector_doc_qa.Models.{
  User, Document, Chunk, Message, Workspace, WorkspaceDocument, RefreshToken,
}

pub record Db : Type 0 where
  pub users : List User
  pub documents : List Document
  pub chunks : List Chunk
  pub messages : List Message
  pub workspaces : List Workspace
  pub workspace_documents : List WorkspaceDocument
  pub refresh_tokens : List RefreshToken
  pub next_id : ℕ

-- What a call of the language model used.
pub record LlmTokenUsage : Type 0 where
  pub input_tokens : Option ℕ
  pub output_tokens : Option ℕ

-- `committed` is what other sessions see, `current` what this one does; `now` is the clock. The last
-- three are the context variables in which the provider services leave their usage.
pub record Session : Type 0 where
  pub committed : Db
  pub current : Db
  pub now : ℕ
  pub embedding_usage : Option ℕ
  pub answer_usage : Option LlmTokenUsage
  pub stream_usage : Option LlmTokenUsage

abbrev pub Query : Type 0 → Type 0
Query A = Exec Session A

-- A session that begins.
abbrev pub open_session : Db → ℕ → Session
open_session db now = record {
  committed = db;
  current = db;
  now = now;
  embedding_usage = none;
  answer_usage = none;
  stream_usage = none;
}

unfoldable pub commit : Query (Unit {0})
commit s = (ok tt, record s { committed = s.current })

unfoldable pub rollback : Query (Unit {0})
rollback s = (ok tt, record s { current = s.committed })

-- A change of the rows that this session sees.
abbrev pub execute : (Db → Db) → Query (Unit {0})
execute change s = (ok tt, record s { current = change s.current })

abbrev pub read {ℓ} : {A : Type ℓ} → (Db → A) → Session → A
read query s = query s.current

-- A new primary key.
abbrev pub fresh : Query ℕ
fresh s = (
  ok s.current.next_id,
  record s { current = record s.current { next_id = s.current.next_id + 1 } },
)

-- What other sessions commit while this one waits between two transactions.
abbrev pub meanwhile : (Db → Db) → Query (Unit {0})
meanwhile others s =
    (ok tt, record s { committed = others s.committed; current = others s.committed })
