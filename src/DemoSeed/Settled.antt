-- ===== src/DemoSeed/Settled.antt =====
-- What a seed leaves when it returns.
use mathlib.Core.Path.{subst}
use text.Mathlib.Text.{◌==◌ as str_eq}
use vector_doc_qa.Prelude.{
  ◌+◌, ◌<◌, ◌≡◌, refl, ap, sym, ◌∙◌, ◌⊎◌, Bool, true, false, ◌||◌, Option, none, some, List, [],
  ◌∷◌, ◌++◌, find, arith, inl, inr, All, All-imp, Bool-cases,
}
use vector_doc_qa.Errors.{ok, Result}
use vector_doc_qa.Exec.{◌>>◌}
use vector_doc_qa.Json.{Fields}
use vector_doc_qa.Models.{User}
use vector_doc_qa.Database.{Db, Session, commit, rollback}
use vector_doc_qa.Repositories.DemoSeed.{
  get_user_by_username_or_email, create_demo_user, list_documents_with_chunks_for_user,
  delete_documents,
}
use vector_doc_qa.Repositories.Users.{is_taken}
use vector_doc_qa.Chat.Stored.{bound}
use vector_doc_qa.DemoSeed.Fixture.{
  Environment, load_fixture_payload, build_fixture_documents_payload,
}
use vector_doc_qa.DemoSeed.Signatures.{fixture_document_signature}
use vector_doc_qa.DemoSeed.Seeding.{
  seed_documents, is_unchanged, replace_documents, reconcile_documents_for_existing_demo_user,
  try_create_demo_user, seed_created, seed_payload, seed_demo_user, demo_username, demo_email,
  demo_password,
}
use vector_doc_qa.DemoSeed.Recorded.{
  IsKeyed, of_user, user_signatures, select-none, seed_documents-IsRecorded,
}
use vector_doc_qa.DemoSeed.Replaced.{signatures_nil, delete_documents-IsCleared}
use vector_doc_qa.DemoSeed.Unchanged.{is_unchanged_lem}

abbrev pub existing_demo : Db → Option User
existing_demo = get_user_by_username_or_email demo_username demo_email

module _ (env : Environment) (others : Db → Db) where
  -- The account is there, with the documents of the fixture, and all is committed.
  pub record IsSettled (payload : Option Fields) (s : Session) : Type 0 where
    demo_user : User
    found : existing_demo s.current ≡ some demo_user
    same :
        is_unchanged env
          (build_fixture_documents_payload payload)
          (list_documents_with_chunks_for_user demo_user.id s.current)
        ≡ true
    committed : s.committed ≡ s.current

  -- A run that changes no row.
  pub record IsIdle (s : Session) : Type 0 where
    pub returned : (seed_demo_user env others s).0 ≡ ok tt
    pub kept : (seed_demo_user env others s).1.committed ≡ s.committed

  settled_payload :
      (payload : Option Fields) (u : User) (s : Session)
      → is_unchanged env
          (build_fixture_documents_payload payload)
          (list_documents_with_chunks_for_user u.id s.current)
        ≡ true
      → s.committed ≡ s.current
      → ((seed_payload env others (some u) payload s).0 ≡ ok tt)
        × ((seed_payload env others (some u) payload s).1.committed ≡ s.committed)
  unfolding seed_payload reconcile_documents_for_existing_demo_user commit
  settled_payload none u s same saved = (refl, refl)
  settled_payload (some payload) u s same saved = ground (arith, same, saved)

  pub settled-IsIdle :
      (payload : Option Fields) (s : Session)
      → load_fixture_payload env ≡ ok payload
      → IsSettled payload s
      → IsIdle s
  unfolding seed_demo_user
  settled-IsIdle payload s loaded i =
      let q = settled_payload payload i.demo_user s i.same i.committed in
      record {
        returned = ground (arith, loaded, i.found, q);
        kept = ground (arith, loaded, i.found, q);
      }

  abbrev pub new_user : Session → User
  new_user s = record {
    id = s.current.next_id;
    username = demo_username;
    email = demo_email;
    hashed_password = env.get_password_hash demo_password;
    is_demo = true;
  }

  abbrev pub with_user : Session → Session
  with_user s = record s {
    current = record s.current {
      users = s.current.users ++ new_user s ∷ [];
      next_id = s.current.next_id + 1;
    };
  }

  -- The account is created, or a conflict is undone.
  pub try_create_lem :
      (s : Session)
      → (try_create_demo_user env others s ≡ (ok (some (new_user s)), with_user s))
        ⊎ (try_create_demo_user env others s ≡ (ok none, record s { current = s.committed }))
  unfolding try_create_demo_user create_demo_user rollback
  try_create_lem s =
      elim (Bool-cases (
        is_taken demo_username demo_email s.current
        || is_taken demo_username demo_email (others s.committed))) [
          | inl taken ↦ inr (ground (arith, taken))
          | inr free ↦ inl (ground (arith, free))
        ]

  find_new :
      (users : List User) (u : User)
      → u.username ≡ demo_username
      → find (λ (v : User). str_eq v.username demo_username || str_eq v.email demo_email) users
        ≡ none
      → find
          (λ (v : User). str_eq v.username demo_username || str_eq v.email demo_email)
          (users ++ u ∷ [])
        ≡ some u
  find_new [] u name h = rw name refl
  find_new (v ∷ users) u name h =
      elim (Bool-cases (str_eq v.username demo_username || str_eq v.email demo_email)) [
        | inl meets ↦ absurd (ground (arith, meets))
        | inr fails ↦ ground (arith, fails, find_new users u name (ground (arith, h, fails)))
      ]

  -- Of a session that begins: all is committed, and the keys in use are below the counter.
  pub record IsFresh (s : Session) : Type 0 where
    pub committed : s.current ≡ s.committed
    pub keyed : IsKeyed s.current
    pub accounts : All (λ (u : User). u.id < s.current.next_id) s.current.users

  -- After the documents of a user that had none.
  seeded-IsSettled :
      (payload : Option Fields) (u : User) (s : Session)
      → IsKeyed s.current
      → u.id < s.current.next_id
      → existing_demo s.current ≡ some u
      → user_signatures u.id s.current ≡ []
      → ((seed_documents env u.id 1 (build_fixture_documents_payload payload) >> commit) s).0
        ≡ ok tt
      → IsSettled payload
          ((seed_documents env u.id 1 (build_fixture_documents_payload payload) >> commit) s).1
  unfolding commit get_user_by_username_or_email
  seeded-IsSettled payload u s keyed below found bare h =
      let docs = build_fixture_documents_payload payload in
      let b = bound (seed_documents env u.id 1 docs) (λ _. commit) s tt h in
      let s1 = (seed_documents env u.id 1 docs s).1 in
      let r = seed_documents-IsRecorded env u.id 1 docs s keyed below b.first in
      subst (λ (t : Result (Unit {0}) × Session). IsSettled payload t.1) (sym b.rest)
        (record {
          demo_user = u;
          found =
              ap (find (λ (v : User). str_eq v.username demo_username || str_eq v.email demo_email))
                r.users
              ∙ found;
          same =
              is_unchanged_lem env docs (list_documents_with_chunks_for_user u.id s1.current)
                (r.signed ∙ ap (λ l. l ++ fixture_document_signature env 1 docs) bare);
          committed = refl;
        })

  find-All :
      (P : User → Type 0) (test : User → Bool) (users : List User) (u : User)
      → All P users
      → find test users ≡ some u
      → P u
  find-All P test [] u h e = absurd (ground arith)
  find-All P test (v ∷ users) u h e = elim (Bool-cases (test v)) [
    | inl meets ↦ let q : v ≡ u = ground (arith, e, meets) in subst P q h.0
    | inr fails ↦ find-All P test users u h.1 (ground (arith, e, fails))
  ]

  pub created-IsSettled :
      (payload : Option Fields) (s : Session)
      → IsFresh s
      → existing_demo s.current ≡ none
      → (seed_created env others
          (build_fixture_documents_payload payload)
          (some (new_user s))
          (with_user s)).0
        ≡ ok tt
      → IsSettled payload
          (seed_created env others
            (build_fixture_documents_payload payload)
            (some (new_user s))
            (with_user s)).1
  unfolding seed_created get_user_by_username_or_email
  created-IsSettled payload s fresh missing h =
      seeded-IsSettled payload (new_user s) (with_user s)
        (record {
          documents = All-imp s.current.documents (λ d k. omega (arith, k)) fresh.keyed.documents;
          owners = All-imp s.current.documents (λ d k. omega (arith, k)) fresh.keyed.owners;
          chunks = All-imp s.current.chunks (λ c k. omega (arith, k)) fresh.keyed.chunks;
        })
        (omega arith) (find_new s.current.users (new_user s) refl missing)
        (signatures_nil s.current.next_id (with_user s).current (
          select-none (of_user s.current.next_id) s.current.documents
            (All-imp s.current.documents (λ d k. ground (arith, k)) fresh.keyed.owners)))
        h

  pub replaced-IsSettled :
      (payload : Option Fields) (u : User) (s : Session)
      → IsFresh s
      → existing_demo s.current ≡ some u
      → is_unchanged env
          (build_fixture_documents_payload payload)
          (list_documents_with_chunks_for_user u.id s.current)
        ≡ false
      → ((reconcile_documents_for_existing_demo_user env u (build_fixture_documents_payload payload)
            >> commit)
          s).0
        ≡ ok tt
      → IsSettled payload
          ((reconcile_documents_for_existing_demo_user env u
                (build_fixture_documents_payload payload)
              >> commit)
            s).1
  unfolding reconcile_documents_for_existing_demo_user replace_documents
      get_user_by_username_or_email
  replaced-IsSettled payload u s fresh found differs h =
      let docs = build_fixture_documents_payload payload in
      let existing = list_documents_with_chunks_for_user u.id s.current in
      let s1 = record s { current = delete_documents existing s.current } in
      let c = delete_documents-IsCleared u.id s.current in
      let q : (reconcile_documents_for_existing_demo_user env u docs >> commit) s
          ≡ (seed_documents env u.id 1 docs >> commit) s1 =
        ground (arith, differs) in
      let below =
        find-All (λ v. v.id < s.current.next_id) _ s.current.users u fresh.accounts found in
      subst (λ (t : Result (Unit {0}) × Session). IsSettled payload t.1) (sym q)
        (seeded-IsSettled payload u s1 (c.keyed fresh.keyed) (ground (arith, below, c.keys))
          (ap (find (λ (v : User). str_eq v.username demo_username || str_eq v.email demo_email))
              c.users
            ∙ found)
          c.signed (ap (λ t. t.0) (sym q) ∙ h))
