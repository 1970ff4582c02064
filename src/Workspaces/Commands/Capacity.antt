-- ===== src/Workspaces/Commands/Capacity.antt =====
-- The commands on members keep the limit of twenty and add exactly what is new.
use mathlib.Core.Path.{subst}
use vector_doc_qa.Prelude.{
  ℕ, ◌+◌, ◌≤◌, ◌≡◌, refl, ap, sym, ◌∙◌, Bool, true, false, not, ◌&&◌, List, ◌++◌, arith, is_some,
  ◌==◌, ==_iff, ltb, any, select, length, length-append, length-map, Bool-cases, inl, inr,
}
use vector_doc_qa.Errors.{Exc, Result, is_ok, ok, err, Result-cases}
use vector_doc_qa.Models.{User}
use vector_doc_qa.Database.{Db, Session, commit, meanwhile}
use vector_doc_qa.Repositories.Workspaces.{
  of_workspace, document_of, is_in, get_documents_for_user_by_ids, list_workspace_document_ids,
  get_workspace_for_user, add_workspace_documents,
}
use vector_doc_qa.Workspaces.Commands.{
  is_incomplete, max_documents_per_workspace, unique, add_members, add_workspace_documents_command,
}
use vector_doc_qa.Workspaces.Commands.Membership.{
  IsMembership, IsAdded, add_workspace_documents-IsAdded, add_workspace_documents-committed,
}

-- The requested keys that are not members yet.
abbrev pub new_ids : ℕ → List ℕ → Db → List ℕ
new_ids w ids db = select (λ id. not (is_in id (list_workspace_document_ids w db))) ids

-- What `add_members` has done when it returns.
pub record AreMembers (w : ℕ) (ids : List ℕ) (s s' : Session) : Type 0 where
  pub added : IsAdded w (new_ids w ids s.current) s (record s' { committed = s.committed })
  pub within : length (list_workspace_document_ids w s'.current) ≤ max_documents_per_workspace
  pub committed : s'.committed ≡ s'.current

length_ids :
    (w : ℕ) (db : Db)
    → length (list_workspace_document_ids w db)
      ≡ length (select (of_workspace w) db.workspace_documents)
unfolding list_workspace_document_ids
length_ids w db = length-map document_of (select (of_workspace w) db.workspace_documents)

room_le : (n k : ℕ) → ltb n k ≡ false → k ≤ n
room_le n k h = ground arith

pub add_members-AreMembers :
    (w : ℕ) (ids : List ℕ) (s : Session)
    → (add_members w ids s).0 ≡ ok tt
    → AreMembers w ids s (add_members w ids s).1
unfolding add_members commit
add_members-AreMembers w ids s h =
    let new = new_ids w ids s.current in
    elim (Bool-cases (
      ltb max_documents_per_workspace
        (length (list_workspace_document_ids w s.current) + length new))) [
          | inl full ↦ absurd (ground arith)
          | inr room ↦ elim (Result-cases (add_workspace_documents w new s).0) [
            | inr (e, failed) ↦ absurd (ground arith)
            | inl (u, fine) ↦
                let a = add_workspace_documents-IsAdded w new s fine in
                let s' = (add_workspace_documents w new s).1 in
                let p : add_members w ids s ≡ (ok tt, record s' { committed = s'.current }) =
                  ground arith in
                subst (λ (t : Result (Unit {0}) × Session). AreMembers w ids s t.1) (sym p)
                  (record {
                    added = record {
                      members = a.members;
                      elsewhere = a.elsewhere;
                      once = a.once;
                      committed = refl;
                    };
                    within = omega (
                      arith,
                      ap length a.members,
                      length-append (list_workspace_document_ids w s.current) new,
                      room_le _ _ room,
                    );
                    committed = refl;
                  })
          ]
        ]

add_members-refused :
    (w : ℕ) (ids : List ℕ) (s : Session) (e : Exc)
    → (add_members w ids s).0 ≡ err e
    → (add_members w ids s).1.committed ≡ s.committed
unfolding add_members commit
add_members-refused w ids s e h =
    ground (arith, add_workspace_documents-committed w (new_ids w ids s.current) s)

capacity_kept :
    (w : ℕ) (ids : List ℕ) (s s' : Session)
    → AreMembers w ids s s'
    → IsMembership s.current.workspace_documents
    → IsMembership s'.committed.workspace_documents
capacity_kept w ids s s' a m = rw a.committed (record {
  capacity = λ k. elim (Bool-cases (k == w)) [
    | inl same ↦
        let e : k ≡ w = ground (arith, ==_iff k w) in
        rw e (omega (arith, length_ids w s'.current, a.within))
    | inr other ↦ omega (arith, ap length (a.added.elsewhere k other), m.capacity k)
  ];
  once = a.added.once m.once;
})

add_members-IsMembership :
    (w : ℕ) (ids : List ℕ) (s : Session)
    → s.current ≡ s.committed
    → IsMembership s.committed.workspace_documents
    → IsMembership (add_members w ids s).1.committed.workspace_documents
add_members-IsMembership w ids s same m = elim (Result-cases (add_members w ids s).0) [
  | inr (e, failed) ↦ rw (add_members-refused w ids s e failed) m
  | inl (u, fine) ↦ capacity_kept w ids s _ (add_members-AreMembers w ids s fine) (rw same m)
]

module _ (others : Db → Db) (workspace_id : ℕ) (current_user : User) (document_ids : List ℕ) where
  -- The session that has the lock.
  abbrev pub locked : Session → Session
  locked s = (meanwhile others s).1

  abbrev under_lock : Session → Result (Unit {0}) × Session
  under_lock s = add_members workspace_id (unique document_ids) (locked s)

  -- The caller may change the workspace, and each requested document is hers and completed.
  abbrev pub is_addable : Db → Bool
  is_addable db =
      let documents = get_documents_for_user_by_ids current_user.id (unique document_ids) db in
      (not current_user.is_demo && is_some (get_workspace_for_user workspace_id current_user.id db))
      && ((length documents == length (unique document_ids)) && not (any is_incomplete documents))

  -- If the caller is the demo account or does not own the workspace, or a requested document is not
  -- hers or not completed, the addition raises and the session does not change.
  pub add_workspace_documents_command-refused :
      (s : Session)
      → is_addable s.current ≡ false
      → (is_ok (add_workspace_documents_command others workspace_id current_user document_ids s).0
          ≡ false)
        × ((add_workspace_documents_command others workspace_id current_user document_ids s).1 ≡ s)
  unfolding add_workspace_documents_command
  add_workspace_documents_command-refused s h = ground arith

  command_locked :
      (s : Session)
      → is_addable s.current ≡ true
      → ((add_workspace_documents_command others workspace_id current_user document_ids s).1
          ≡ (under_lock s).1)
        × (is_ok (add_workspace_documents_command others workspace_id current_user document_ids s).0
            ≡ is_ok (under_lock s).0)
  unfolding add_workspace_documents_command
  command_locked s h = ground arith

  -- If no workspace has more than twenty members and no document is a member twice, both before the
  -- request and in what others have committed when the lock is taken, then so it is in what is
  -- committed after the request, whether it returns or raises.
  pub add_workspace_documents_command-IsMembership :
      (s : Session)
      → IsMembership s.committed.workspace_documents
      → IsMembership (others s.committed).workspace_documents
      → IsMembership
          (add_workspace_documents_command others workspace_id current_user document_ids
            s).1.committed.workspace_documents
  add_workspace_documents_command-IsMembership s before meantime =
      elim (Bool-cases (is_addable s.current)) [
        | inr refused ↦ rw (add_workspace_documents_command-refused s refused).1 before
        | inl allowed ↦
            rw (command_locked s allowed).0
              (add_members-IsMembership workspace_id (unique document_ids) (locked s) refl meantime)
      ]

  -- When an addition returns, the committed members of the workspace are those that were committed
  -- when the lock was taken, followed by the requested documents that were not among them, each
  -- once and in their order.
  pub add_workspace_documents_command-members :
      (s : Session)
      → is_ok (add_workspace_documents_command others workspace_id current_user document_ids s).0
        ≡ true
      → list_workspace_document_ids workspace_id
          (add_workspace_documents_command others workspace_id current_user document_ids
            s).1.committed
        ≡ list_workspace_document_ids workspace_id (others s.committed)
          ++ new_ids workspace_id (unique document_ids) (others s.committed)
  add_workspace_documents_command-members s h = elim (Bool-cases (is_addable s.current)) [
    | inr refused ↦ absurd (ground (arith, (add_workspace_documents_command-refused s refused).0))
    | inl allowed ↦
        let (same, result) = command_locked s allowed in
        elim (Result-cases (under_lock s).0) [
          | inr (e, failed) ↦ absurd (ground arith)
          | inl (u, fine) ↦
              let a = add_members-AreMembers workspace_id (unique document_ids) (locked s) fine in
              rw same (ap (list_workspace_document_ids workspace_id) a.committed ∙ a.added.members)
        ]
  ]
