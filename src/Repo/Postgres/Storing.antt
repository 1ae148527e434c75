-- ===== src/Repo/Postgres/Storing.antt =====
-- Store of the Postgres repository, across broken transactions, retries and reconnections.
use sapper_bricks.Prelude.{
  ℕ, String, ◌≡◌, refl, ◌∙◌, ◌⊎◌, inl, inr, Option, none, some, List, arith,
}
use sapper_bricks.Effect.{returns}
use sapper_bricks.Effect.Laws.{Result-cases, >>=_inversion, >>=_keeps}
use sapper_bricks.Ports.{Entity}
use sapper_bricks.Ports.Contract.{updated}
use sapper_bricks.Mse.{IssuerLib, IsIssuer}
use sapper_bricks.Repo.Postgres.Connection.{
  create_connection as connect_with, PostgresConnectionManager, with_connection, deref,
}
use sapper_bricks.Repo.Postgres.Connection.Rule.{with_connection_rule}
use sapper_bricks.Repo.Postgres.{
  PqxxLib, IsDatabase, prepared_texts, row_of, manager_for, create_connection, store_op, store,
}
use sapper_bricks.Repo.Postgres.Table.{Same, connecting-keeps, store_entity-prepared}

module _ {W : Type 0} (P : PqxxLib W) {table : W → String → Option Entity}
    (db : IsDatabase P prepared_texts table) where
  module _ (e : Entity) (old : String → Option Entity) where
    -- The table as it was, or with the entity stored.
    abbrev pub OldOrUpdated : W → Type 0
    OldOrUpdated w = Same (table w) old ⊎ Same (table w) (updated e old)

    -- Storing the entity a second time changes nothing.
    updated_again :
        (t : String → Option Entity)
        → Same t old ⊎ Same t (updated e old)
        → Same (updated e t) (updated e old)
    updated_again t (inl h) id = ground (arith, h id)
    updated_again t (inr h) id = ground (arith, h id)

    OldOrUpdated-Same : (w w' : W) → Same (table w') (table w) → OldOrUpdated w → OldOrUpdated w'
    OldOrUpdated-Same w w' same (inl h) = inl (λ id. same id ∙ h id)
    OldOrUpdated-Same w w' same (inr h) = inr (λ id. same id ∙ h id)

    commit-keeps :
        (t : P.Work) (w : W) (rows : List P.Row)
        → let w' = (P.exec_prepared t "store_entity" (row_of e) w).1 in
          (P.exec_prepared t "store_entity" (row_of e) w).0 ≡ returns rows
          → OldOrUpdated w'
          → OldOrUpdated (P.commit t w').1
            × ((P.commit t w').0 ≡ returns tt → Same (table (P.commit t w').1) (updated e old))
    commit-keeps t w rows ran h = elim (Result-cases (P.commit t w').0) [
      | inl (_, done) ↦ (inr (stored done), stored)
      | inr (x, lost) ↦ (
        elim (db.commit_in_doubt t "store_entity" e w rows x store_entity-prepared ran lost) [
          | inl same ↦ OldOrUpdated-Same w' _ same h
          | inr same ↦ inr (λ id. same id ∙ updated_again (table w') h id)
        ],
        stored,
      )
    ]
      where
        w' : W
        w' = (P.exec_prepared t "store_entity" (row_of e) w).1

        stored : (P.commit t w').0 ≡ returns tt → Same (table (P.commit t w').1) (updated e old)
        stored done id =
            db.commit_done t "store_entity" e w rows store_entity-prepared ran done id
            ∙ updated_again (table w') h id

    store_op-keeps : (c : P.Connection) (w : W) → OldOrUpdated w → OldOrUpdated (store_op P e c w).1
    unfolding store_op
    store_op-keeps c w h =
        >>=_keeps OldOrUpdated (P.work c) _ w (OldOrUpdated-Same w _ (db.work_keeps c w) h) λ t _ p.
          OldOrUpdated-Same _ _ (db.destroy_keeps t _) (
            >>=_keeps OldOrUpdated (P.exec_prepared t "store_entity" (row_of e)) _ _
              (OldOrUpdated-Same _ _ (db.exec_keeps t "store_entity" (row_of e) _) p)
              λ rows ran q. (commit-keeps t _ rows ran q).0)

    store_op-updates :
        (c : P.Connection) (w : W)
        → OldOrUpdated w
        → (store_op P e c w).0 ≡ returns tt
        → Same (table (store_op P e c w).1) (updated e old)
    unfolding store_op
    store_op-updates c w h done =
        let (t, _, same, done') = >>=_inversion (P.work c) _ w done in
        let w₁ = (P.work c w).1 in
        let h₁ = OldOrUpdated-Same w w₁ (db.work_keeps c w) h in
        let (rows, ran, same', done'') =
          >>=_inversion (P.exec_prepared t "store_entity" (row_of e)) (λ _. P.commit t) w₁ done' in
        let h₂ = OldOrUpdated-Same w₁ _ (db.exec_keeps t "store_entity" (row_of e) w₁) h₁ in
        let end = (commit-keeps t w₁ rows ran h₂).1 done'' in
        λ id. rw (same, same') (db.destroy_keeps t _ id ∙ end id)

  module _ (connection_string : String) (e : Entity) (old : String → Option Entity) where
    pub store-connects :
        (w : W)
        → OldOrUpdated e old w
        → OldOrUpdated e old (connect_with (some (create_connection P connection_string)) w).1
    unfolding connect_with
    store-connects w h = OldOrUpdated-Same e old w _ (connecting-keeps P db connection_string w) h

    pub store-keeps :
        (c : Option P.Connection) (w : W)
        → OldOrUpdated e old w
        → OldOrUpdated e old (deref (store_op P e) c w).1
    store-keeps none w h = h
    store-keeps (some c) w h = store_op-keeps e old c w h

    pub store-reaches :
        (c : Option P.Connection) (w : W)
        → OldOrUpdated e old w
        → (deref (store_op P e) c w).0 ≡ returns tt
        → Same (table (deref (store_op P e) c w).1) (updated e old)
    store-reaches none w h done = absurd (cc done)
    store-reaches (some c) w h done = store_op-updates e old c w h done

  module _ (M : IssuerLib) (hooks : IsIssuer M) (connection_string : String)
      (retries interval : ℕ) where
    abbrev manager : PostgresConnectionManager P.Connection W
    manager = manager_for P connection_string retries interval

    -- Whether Store returns or throws, and whichever attempts broke, the table is the old one or
    -- the one with just this entity stored; when it returns, it is the latter.
    pub store-refines :
        (e : Entity) (s : Option P.Connection × W)
        → OldOrUpdated e (table s.1) (store P M manager e s).1.1
          × ((store P M manager e s).0 ≡ returns tt
              → Same (table (store P M manager e s).1.1) (updated e (table s.1)))
    unfolding store with_connection
    store-refines e s =
        let old = table s.1 in
        with_connection_rule M hooks manager (deref (store_op P e)) "store" (OldOrUpdated e old)
          (λ w. Same (table w) (updated e old)) (store-connects connection_string e old)
          (store-keeps connection_string e old) (store-reaches connection_string e old) s
          (inl (λ id. refl))
