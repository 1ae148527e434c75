-- ===== src/Repo/Postgres/Table.antt =====
-- Tables of entities, and the connections that leave them alone.
use sapper_bricks.Prelude.{String, ◌≡◌, ◌∙◌, refl, Option, some}
use sapper_bricks.Effect.Laws.{>>=_keeps}
use sapper_bricks.Dict.{find, assign}
use sapper_bricks.Ports.{Entity}
use sapper_bricks.Repo.Postgres.{
  PqxxLib, IsDatabase, prepared_texts, create_connection, upsert_sql, select_sql,
}

-- The texts of the two statements that Store and Retrieve run.
pub store_entity-prepared : find "store_entity" prepared_texts ≡ some upsert_sql
unfolding create_connection find assign
store_entity-prepared = refl

pub retrieve_entity-prepared : find "retrieve_entity" prepared_texts ≡ some select_sql
unfolding create_connection find assign
retrieve_entity-prepared = refl

-- Two tables with the same entities.
abbrev pub Same : (String → Option Entity) → (String → Option Entity) → Type 0
Same t u = (id : String) → t id ≡ u id

module _ {W : Type 0} (P : PqxxLib W) {table : W → String → Option Entity}
    (db : IsDatabase P prepared_texts table) where
  -- A new connection leaves the table as it is.
  pub connecting-keeps : (s : String) (w : W) → Same (table (create_connection P s w).1) (table w)
  unfolding create_connection
  connecting-keeps s w =
      let Kept = λ (w' : W). Same (table w') (table w) in
      >>=_keeps Kept (P.connect s) _ w (db.connect_keeps s w) λ c _ k.
        >>=_keeps Kept (P.prepare c _ _) _ _ (λ id. db.prepare_keeps c _ _ _ id ∙ k id)
          λ _ _ k'.
            >>=_keeps Kept (P.prepare c _ _) _ _ (λ id. db.prepare_keeps c _ _ _ id ∙ k' id)
              λ _ _ k''. k''
