-- ===== src/Chat/Turns/OfWorkspaces.antt =====
-- A query of a workspace stores both messages of a turn, or none.
use vector_doc_qa.Prelude.{ℕ, ◌≡◌, refl, none, some, List, map, arith, inl, inr}
use vector_doc_qa.Errors.{Exc, err, Result-cases}
use vector_doc_qa.Exec.{gets}
use vector_doc_qa.Text.{Text}
use vector_doc_qa.Models.{User, Role, user}
use vector_doc_qa.Database.{read, Session, rollback}
use vector_doc_qa.Repositories.Documents.{Hit}
use vector_doc_qa.Repositories.Messages.{create_message}
use vector_doc_qa.Chat.Sources.{workspace_search_result}
use vector_doc_qa.Chat.Queries.{
  Pipeline, check_workspace, answer_workspace, search_workspace, ask_workspace, workspace_history,
  query_workspace, query_workspace_command,
}
use vector_doc_qa.Anthropic.Answers.{generate_answer}
use vector_doc_qa.Chat.Turns.{
  IsUndone, bind-IsUndone, store_answer-IsUndone, create_message-committed, generate_rows,
  answer_rows,
}

module _ (p : Pipeline) (workspace_id : ℕ) (current_user : User) (query : Text) where
  search_workspace_keeps :
      (s : Session)
      → ((search_workspace p workspace_id query s).1.current ≡ s.current)
        × ((search_workspace p workspace_id query s).1.committed ≡ s.committed)
  unfolding search_workspace
  search_workspace_keeps s = ground (arith, generate_rows p query s)

  answer_workspace-IsUndone :
      (history : List (Role × Text)) (rows : List (Hit × Text))
      → IsUndone (answer_workspace p workspace_id current_user query history rows)
  unfolding answer_workspace
  answer_workspace-IsUndone history rows =
      bind-IsUndone
        (generate_answer p.model query (map (workspace_search_result p.floats) rows) history) _
        (λ s. (answer_rows p.model query (map (workspace_search_result p.floats) rows) history s).1)
        λ answer.
          store_answer-IsUndone p current_user query none (some workspace_id)
            (map (workspace_search_result p.floats) rows) _ answer

  ask_workspace-IsUndone :
      (history : List (Role × Text))
      → IsUndone (ask_workspace p workspace_id current_user query history)
  unfolding ask_workspace
  ask_workspace-IsUndone history =
      bind-IsUndone (create_message none (some workspace_id) current_user.id user query none) _
        (create_message-committed none (some workspace_id) current_user.id user query none)
        λ asked.
          bind-IsUndone (search_workspace p workspace_id query)
            (answer_workspace p workspace_id current_user query history)
            (λ s. (search_workspace_keeps s).1) (answer_workspace-IsUndone history)

  query_workspace-IsUndone : IsUndone (query_workspace p workspace_id current_user query)
  unfolding query_workspace
  query_workspace-IsUndone =
      bind-IsUndone (gets (read (workspace_history p workspace_id current_user)))
        (ask_workspace p workspace_id current_user query) (λ s. refl) ask_workspace-IsUndone

  check_workspace_state : (s : Session) → (check_workspace p workspace_id current_user s).1 ≡ s
  unfolding check_workspace
  check_workspace_state s = ground arith

  -- When a query of a workspace raises, nothing is committed.
  pub query_workspace_command-failed :
      (s : Session) (e : Exc)
      → (query_workspace_command p workspace_id current_user query s).0 ≡ err e
      → (query_workspace_command p workspace_id current_user query s).1.committed ≡ s.committed
  unfolding query_workspace_command rollback
  query_workspace_command-failed s e h =
      elim (Result-cases (query_workspace p workspace_id current_user query s).0) [
        | inl (r, fine) ↦ ground (arith, check_workspace_state s)
        | inr (x, failed) ↦
            ground (arith, check_workspace_state s, query_workspace-IsUndone.undone s x failed)
      ]
