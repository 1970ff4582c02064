-- ===== src/Workspaces/Commands/Membership.antt =====
-- The members of workspaces: at most twenty, no pair twice, and what an addition adds.
use mathlib.Core.Path.{subst}
use mathlib.Core.List.{append-nil, map-append, append_assoc}
use vector_doc_qa.Prelude.{
  ℕ, ◌≤◌, ◌≡◌, refl, ap, sym, ◌∙◌, Bool, false, List, [], ◌∷◌, ◌++◌, map, arith, ◌==◌, ==_iff,
  ==_refl, any, select, delete, length, Bool-cases, inl, inr, select-append,
}
use vector_doc_qa.Errors.{Result, ok, Result-cases}
use vector_doc_qa.Exec.{bind-ok, bind-err}
use vector_doc_qa.Models.{WorkspaceDocument}
use vector_doc_qa.Database.{Session}
use vector_doc_qa.Repositories.Workspaces.{
  of_workspace, links, document_of, list_workspace_document_ids, add_member,
  add_workspace_documents,
}
use vector_doc_qa.Workspaces.Commands.{max_documents_per_workspace}

-- How often a pair occurs.
abbrev pub occurrences : ℕ → ℕ → List WorkspaceDocument → ℕ
occurrences workspace_id document_id rows = length (select (links workspace_id document_id) rows)

-- No workspace has more than twenty members, and no document is a member twice.
pub record IsMembership (rows : List WorkspaceDocument) : Type 0 where
  pub capacity :
      (workspace_id : ℕ)
      → length (select (of_workspace workspace_id) rows) ≤ max_documents_per_workspace
  pub once : (workspace_id document_id : ℕ) → occurrences workspace_id document_id rows ≤ 1

length-select-delete :
    (p q : WorkspaceDocument → Bool) (rows : List WorkspaceDocument)
    → length (select p (delete q rows)) ≤ length (select p rows)
length-select-delete p q [] = omega arith
length-select-delete p q (r ∷ rows) = ground (arith, length-select-delete p q rows)

pub delete-IsMembership :
    (q : WorkspaceDocument → Bool) (rows : List WorkspaceDocument)
    → IsMembership rows
    → IsMembership (delete q rows)
delete-IsMembership q rows m = record {
  capacity = λ w. omega (arith, length-select-delete (of_workspace w) q rows, m.capacity w);
  once = λ w d. omega (arith, length-select-delete (links w d) q rows, m.once w d);
}

any-select :
    (p : WorkspaceDocument → Bool) (rows : List WorkspaceDocument)
    → any p rows ≡ false
    → select p rows ≡ []
any-select p [] h = refl
any-select p (r ∷ rows) h = ground (arith, any-select p rows)

-- What the rows added to a workspace change.
pub record IsAdded (workspace_id : ℕ) (ids : List ℕ) (s s' : Session) : Type 0 where
  pub members :
      list_workspace_document_ids workspace_id s'.current
      ≡ list_workspace_document_ids workspace_id s.current ++ ids
  pub elsewhere :
      (k : ℕ)
      → (k == workspace_id) ≡ false
      → select (of_workspace k) s'.current.workspace_documents
        ≡ select (of_workspace k) s.current.workspace_documents
  pub once :
      ((w d : ℕ) → occurrences w d s.current.workspace_documents ≤ 1)
      → (w d : ℕ) → occurrences w d s'.current.workspace_documents ≤ 1
  pub committed : s'.committed ≡ s.committed

once_more :
    (w d k e : ℕ) (row : WorkspaceDocument) (rows : List WorkspaceDocument)
    → row.workspace_id ≡ w
    → row.document_id ≡ d
    → any (links w d) rows ≡ false
    → ((a b : ℕ) → occurrences a b rows ≤ 1)
    → occurrences k e (rows ++ row ∷ []) ≤ 1
once_more w d k e row rows p q absent h = elim (Bool-cases (links k e row)) [
  | inr other ↦ ground (
    arith,
    select-append (links k e) rows (row ∷ []),
    append-nil (select (links k e) rows),
    h k e,
  )
  | inl same ↦
      let kw : k ≡ w = ground (arith, ==_iff row.workspace_id k) in
      let ed : e ≡ d = ground (arith, ==_iff row.document_id e) in
      let gone : select (links k e) rows ≡ [] =
        any-select (links k e) rows (rw kw (rw ed absent)) in
      ground (arith, select-append (links k e) rows (row ∷ []))
]

abbrev new_row : ℕ → ℕ → Session → WorkspaceDocument
new_row workspace_id document_id s = record {
  id = s.current.next_id;
  workspace_id = workspace_id;
  document_id = document_id;
  added_at = s.now;
}

-- A member that is added was none.
add_member-ok :
    (w d : ℕ) (s : Session)
    → (add_member w d s).0 ≡ ok tt
    → (any (links w d) s.current.workspace_documents ≡ false)
      × ((add_member w d s).1.current.workspace_documents
          ≡ s.current.workspace_documents ++ new_row w d s ∷ [])
add_member-ok w d s h = ground arith

add_member-committed : (w d : ℕ) (s : Session) → (add_member w d s).1.committed ≡ s.committed
add_member-committed w d s = ground arith

select_new :
    (w d k : ℕ) (s : Session)
    → (k == w) ≡ false
    → select (of_workspace k) (s.current.workspace_documents ++ new_row w d s ∷ [])
      ≡ select (of_workspace k) s.current.workspace_documents
select_new w d k s other = ground (
  arith,
  ==_iff w k,
  ==_iff k w,
  select-append (of_workspace k) s.current.workspace_documents (new_row w d s ∷ []),
  append-nil (select (of_workspace k) s.current.workspace_documents),
)

members_new :
    (w d : ℕ) (s : Session)
    → map document_of
        (select (of_workspace w) (s.current.workspace_documents ++ new_row w d s ∷ []))
      ≡ map document_of (select (of_workspace w) s.current.workspace_documents) ++ d ∷ []
members_new w d s = ground (
  arith,
  ==_refl w,
  select-append (of_workspace w) s.current.workspace_documents (new_row w d s ∷ []),
  map-append document_of (select (of_workspace w) s.current.workspace_documents)
      (new_row w d s ∷ []),
)

add_member-IsAdded :
    (w d : ℕ) (s : Session)
    → (add_member w d s).0 ≡ ok tt
    → IsAdded w (d ∷ []) s (add_member w d s).1
unfolding list_workspace_document_ids
add_member-IsAdded w d s h =
    let (absent, rows) = add_member-ok w d s h in
    record {
      members = ap (λ l. map document_of (select (of_workspace w) l)) rows ∙ members_new w d s;
      elsewhere = λ k other. ap (select (of_workspace k)) rows ∙ select_new w d k s other;
      once = λ before k e.
          rw rows (
            once_more w d k e (new_row w d s) s.current.workspace_documents refl refl absent
              before);
      committed = add_member-committed w d s;
    }

pub add_workspace_documents-committed :
    (w : ℕ) (ids : List ℕ) (s : Session)
    → (add_workspace_documents w ids s).1.committed ≡ s.committed
unfolding add_workspace_documents
add_workspace_documents-committed w [] s = refl
add_workspace_documents-committed w (d ∷ ids) s = elim (Result-cases (add_member w d s).0) [
  | inr (e, failed) ↦
      ap (λ t. t.1.committed)
        (bind-err (add_member w d) (λ _. add_workspace_documents w ids) s e failed)
      ∙ add_member-committed w d s
  | inl (u, fine) ↦
      ap (λ t. t.1.committed)
        (bind-ok (add_member w d) (λ _. add_workspace_documents w ids) s u fine)
      ∙ add_workspace_documents-committed w ids (add_member w d s).1
      ∙ add_member-committed w d s
]

pub add_workspace_documents-IsAdded :
    (w : ℕ) (ids : List ℕ) (s : Session)
    → (add_workspace_documents w ids s).0 ≡ ok tt
    → IsAdded w ids s (add_workspace_documents w ids s).1
unfolding add_workspace_documents
add_workspace_documents-IsAdded w [] s h = record {
  members = sym (append-nil _);
  elsewhere = λ k other. refl;
  once = λ before. before;
  committed = refl;
}
add_workspace_documents-IsAdded w (d ∷ ids) s h = elim (Result-cases (add_member w d s).0) [
  | inr (e, failed) ↦ absurd (ground arith)
  | inl (u, fine) ↦
      let s1 = (add_member w d s).1 in
      let p = bind-ok (add_member w d) (λ _. add_workspace_documents w ids) s u fine in
      let a = add_member-IsAdded w d s fine in
      let b = add_workspace_documents-IsAdded w ids s1 (ap (λ t. t.0) (sym p) ∙ h) in
      subst (λ (t : Result (Unit {0}) × Session). IsAdded w (d ∷ ids) s t.1) (sym p)
        (record {
          members = b.members ∙ ap (λ l. l ++ ids) a.members ∙ append_assoc _ (d ∷ []) ids;
          elsewhere = λ k other. b.elsewhere k other ∙ a.elsewhere k other;
          once = λ before. b.once (a.once before);
          committed = b.committed ∙ a.committed;
        })
]
