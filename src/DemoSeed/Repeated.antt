-- ===== src/DemoSeed/Repeated.antt =====
-- A second seed finds nothing to do.
use mathlib.Core.Path.{subst}
use vector_doc_qa.Prelude.{
  ◌≡◌, refl, ap, sym, ◌∙◌, ◌⊎◌, Bool, true, false, not, Option, none, some, arith, inl, inr,
  Bool-cases, if◌then◌else◌,
}
use vector_doc_qa.Errors.{ok, Result, Result-cases}
use vector_doc_qa.Exec.{◌>>=◌, ◌>>◌, bind-ok, pure}
use vector_doc_qa.Json.{Fields}
use vector_doc_qa.Models.{User}
use vector_doc_qa.Database.{Db, Session, commit}
use vector_doc_qa.Repositories.DemoSeed.{list_documents_with_chunks_for_user}
use vector_doc_qa.DemoSeed.Fixture.{
  Environment, load_fixture_payload, build_fixture_documents_payload,
}
use vector_doc_qa.DemoSeed.Seeding.{
  is_unchanged, reconcile_documents_for_existing_demo_user, try_create_demo_user, seed_created,
  seed_payload, seed_demo_user,
}
use vector_doc_qa.DemoSeed.Settled.{
  existing_demo, IsSettled, IsIdle, IsFresh, settled-IsIdle, new_user, with_user, try_create_lem,
  created-IsSettled, replaced-IsSettled,
}

module _ (env : Environment) (others : Db → Db) where
  -- The account has the documents of the fixture, or nothing has changed at all.
  abbrev Outcome : Option Fields → Session → Session → Type 0
  Outcome payload s s' = IsSettled env others payload s' ⊎ (s' ≡ s)

  unmoved :
      (payload : Option Fields) (s : Session)
      → IsFresh env others s
      → (seed_created env others
          (build_fixture_documents_payload payload)
          none
          (record s { current = s.committed })).1
        ≡ s
  unfolding seed_created
  unmoved payload s fresh = ap (λ (db : Db). record s { current = db }) (sym fresh.committed)

  create-Outcome :
      (payload : Option Fields) (s : Session)
      → IsFresh env others s
      → existing_demo s.current ≡ none
      → (seed_payload env others none payload s).0 ≡ ok tt
      → Outcome payload s (seed_payload env others none payload s).1
  unfolding seed_payload
  create-Outcome payload s fresh missing h =
      let docs = build_fixture_documents_payload payload in
      let create = try_create_demo_user env others in
      elim (try_create_lem env others s) [
        | inl done ↦
            let q : (create >>= seed_created env others docs) s
                ≡ seed_created env others docs (some (new_user env others s))
                    (with_user env others s) =
              bind-ok create (seed_created env others docs) s (some (new_user env others s))
                (ap (λ t. t.0) done)
              ∙ ap
                  (λ (t : Result (Option User) × Session).
                    seed_created env others docs (some (new_user env others s)) t.1)
                  done in
            subst (λ (t : Result (Unit {0}) × Session). Outcome payload s t.1) (sym q)
              (inl
                (created-IsSettled env others payload s fresh missing (ap (λ t. t.0) (sym q) ∙ h)))
        | inr conflict ↦
            let q : (create >>= seed_created env others docs) s
                ≡ seed_created env others docs none (record s { current = s.committed }) =
              bind-ok create (seed_created env others docs) s none (ap (λ t. t.0) conflict)
              ∙ ap (λ (t : Result (Option User) × Session). seed_created env others docs none t.1)
                  conflict in
            inr (ap (λ t. t.1) q ∙ unmoved payload s fresh)
      ]

  demo-Outcome :
      (is_demo : Bool) (payload : Fields) (u : User) (s : Session)
      → IsFresh env others s
      → existing_demo s.current ≡ some u
      → ((if not is_demo
            then pure tt
            else reconcile_documents_for_existing_demo_user env u
                (build_fixture_documents_payload (some payload))
              >> commit)
          s).0
        ≡ ok tt
      → Outcome
          (some payload)
          s
          ((if not is_demo
              then pure tt
              else reconcile_documents_for_existing_demo_user env u
                  (build_fixture_documents_payload (some payload))
                >> commit)
            s).1
  unfolding reconcile_documents_for_existing_demo_user commit
  demo-Outcome false payload u s fresh found h = inr refl
  demo-Outcome true payload u s fresh found h =
      let docs = build_fixture_documents_payload (some payload) in
      elim (Bool-cases
        (is_unchanged env docs (list_documents_with_chunks_for_user u.id s.current))) [
          | inl same ↦ inr (ground (arith, same, fresh.committed))
          | inr differs ↦
              inl (replaced-IsSettled env others (some payload) u s fresh found differs h)
        ]

  payload-Outcome :
      (existing : Option User) (payload : Option Fields) (s : Session)
      → IsFresh env others s
      → existing_demo s.current ≡ existing
      → (seed_payload env others existing payload s).0 ≡ ok tt
      → Outcome payload s (seed_payload env others existing payload s).1
  unfolding seed_payload
  payload-Outcome none payload s fresh found h = create-Outcome payload s fresh found h
  payload-Outcome (some u) none s fresh found h = inr refl
  payload-Outcome (some u) (some payload) s fresh found h =
      demo-Outcome u.is_demo payload u s fresh found h

  Outcome-IsIdle :
      (payload : Option Fields) (s s' : Session)
      → load_fixture_payload env ≡ ok payload
      → (seed_demo_user env others s).0 ≡ ok tt
      → (seed_demo_user env others s).1 ≡ s'
      → Outcome payload s s'
      → IsIdle env others s'
  Outcome-IsIdle payload s s' loaded h q (inl settled) =
      settled-IsIdle env others payload s' loaded settled
  Outcome-IsIdle payload s s' loaded h q (inr same) =
      subst (IsIdle env others) (sym same)
        (record { returned = h; kept = ap (λ (t : Session). t.committed) (q ∙ same) })

  -- For a session without uncommitted changes, whose keys in use are below the counter: when the
  -- seed returns, a second seed returns too, and commits no change.
  pub seed_demo_user-IsIdle :
      (s : Session)
      → IsFresh env others s
      → (seed_demo_user env others s).0 ≡ ok tt
      → IsIdle env others (seed_demo_user env others s).1
  unfolding seed_demo_user
  seed_demo_user-IsIdle s fresh h = elim (Result-cases (load_fixture_payload env)) [
    | inr (e, failed) ↦ absurd (ground (arith, failed))
    | inl (payload, loaded) ↦
        let existing = existing_demo s.current in
        elim (Result-cases (seed_payload env others existing payload s).0) [
          | inr (e, failed) ↦ absurd (ground (arith, loaded, failed))
          | inl (r, fine) ↦
              let q : seed_demo_user env others s ≡ seed_payload env others existing payload s =
                ground (arith, loaded, fine) in
              subst (λ (t : Result (Unit {0}) × Session). IsIdle env others t.1) (sym q)
                (Outcome-IsIdle payload s _ loaded h (ap (λ t. t.1) q)
                  (payload-Outcome existing payload s fresh refl fine))
        ]
  ]
