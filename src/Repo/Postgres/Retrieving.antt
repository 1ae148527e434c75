-- ===== src/Repo/Postgres/Retrieving.antt =====
-- Retrieve of the Postgres repository, across retries and reconnections.
use sapper_bricks.Prelude.{
  ℕ, String, ◌≡◌, refl, ◌∙◌, ◌⊎◌, inl, inr, Option, none, some, List, [], ◌∷◌,
}
use sapper_bricks.Effect.{on_left, returns}
use sapper_bricks.Effect.Laws.{>>=_inversion, >>=_keeps}
use sapper_bricks.Ports.{Entity}
use sapper_bricks.Mse.{IssuerLib, IsIssuer}
use sapper_bricks.Repo.Postgres.Connection.{
  create_connection as connect_with, with_connection, deref,
}
use sapper_bricks.Repo.Postgres.Connection.Rule.{with_connection_rule}
use sapper_bricks.Repo.Postgres.{
  PqxxLib, IsDatabase, prepared_texts, text, Selects, read_rows, widened, result_of_local_inversion,
  manager_for, create_connection, retrieve_op, retrieve,
}
use sapper_bricks.Repo.Postgres.Table.{Same, connecting-keeps, retrieve_entity-prepared}

module _ {W : Type 0} (P : PqxxLib W) {table : W → String → Option Entity}
    (db : IsDatabase P prepared_texts table) where
  -- The local entity_opt after the rows of one selection.
  read_rows-lem :
      (o : Option Entity) (rows : List P.Row) (w : W) (v : Option Entity)
      → Selects P o rows
      → (v ≡ none) ⊎ (v ≡ o)
      → ((read_rows P rows (w, v)).1.0 ≡ w) × ((read_rows P rows (w, v)).1.1 ≡ o)
  unfolding read_rows
  read_rows-lem none rows w v empty (inl h) = rw (empty, read_rows) (refl, h)
  read_rows-lem none rows w v empty (inr h) = rw (empty, read_rows) (refl, h)
  read_rows-lem (some e) rows w v (row, one, fields) h = rw (one, read_rows, fields) (refl, refl)

  module _ (id : String) (old : String → Option Entity) where
    -- The table is the old one, and entity_opt is not set or the entity of the table.
    abbrev pub OldAnd : (Option Entity → Type 0) → W × Option Entity → Type 0
    OldAnd Found s = Same (table s.0) old × Found s.1

    abbrev pub MaybeFound : Option Entity → Type 0
    MaybeFound v = (v ≡ none) ⊎ (v ≡ old id)

    -- Reading the rows of a selection that returned leaves the entity of the table.
    rows_found :
        (t : P.Work) (s : W × Option Entity) (rows : List P.Row)
        → OldAnd MaybeFound s
        → (P.exec_prepared t "retrieve_entity" (text id ∷ []) s.0).0 ≡ returns rows
        → let w' = (P.exec_prepared t "retrieve_entity" (text id ∷ []) s.0).1 in
          OldAnd (λ v. v ≡ old id) (read_rows P rows (w', s.1)).1
    rows_found t s rows (same, found) ran =
        let w' = (P.exec_prepared t "retrieve_entity" (text id ∷ []) s.0).1 in
        let here = same id in
        let selects = db.selected t "retrieve_entity" id s.0 rows retrieve_entity-prepared ran in
        let (world, local) = read_rows-lem (old id) rows w' s.1 (rw here at selects) found in
        (λ j. rw world (db.exec_keeps t "retrieve_entity" (text id ∷ []) s.0 j ∙ same j), local)

    retrieve_op-keeps :
        (c : P.Connection) (s : W × Option Entity)
        → OldAnd MaybeFound s
        → OldAnd MaybeFound (retrieve_op P id c s).1
    unfolding retrieve_op
    retrieve_op-keeps c s (same, found) =
        >>=_keeps (OldAnd MaybeFound) (on_left (P.work c)) _ s
          (λ j. db.work_keeps c s.0 j ∙ same j, found)
          λ t _ p.
            let selection = on_left (P.exec_prepared t "retrieve_entity" (text id ∷ [])) in
            let inner =
              >>=_keeps (OldAnd MaybeFound) selection (read_rows P) _
                (λ j. db.exec_keeps t _ _ _ j ∙ p.0 j, p.1)
                λ rows ran q. let (kept, got) = rows_found t _ rows p ran in (kept, inr got) in
            (λ j. db.destroy_keeps t _ j ∙ inner.0 j, inner.1)

    retrieve_op-finds :
        (c : P.Connection) (s : W × Option Entity)
        → OldAnd MaybeFound s
        → (retrieve_op P id c s).0 ≡ returns tt
        → OldAnd (λ v. v ≡ old id) (retrieve_op P id c s).1
    unfolding retrieve_op
    retrieve_op-finds c s (same, found) done =
        let (t, _, step, done') = >>=_inversion (on_left (P.work c)) _ s done in
        let s₁ = (on_left (P.work c) s).1 in
        let kept₁ : OldAnd MaybeFound s₁ = (λ j. db.work_keeps c s.0 j ∙ same j, found) in
        let selection = on_left (P.exec_prepared t "retrieve_entity" (text id ∷ [])) in
        let (rows, ran, step', _) = >>=_inversion selection (read_rows P) s₁ done' in
        let (kept, got) = rows_found t s₁ rows kept₁ ran in
        rw (step, step') (λ j. db.destroy_keeps t _ j ∙ kept j, got)

  module _ (connection_string id : String) (old : String → Option Entity) where
    pub retrieve-connects :
        (s : W × Option Entity)
        → OldAnd id old (MaybeFound id old) s
        → OldAnd id old
            (MaybeFound id old)
            (connect_with (some (on_left (create_connection P connection_string))) s).1
    unfolding connect_with
    retrieve-connects s (same, found) =
        (λ j. connecting-keeps P db connection_string s.0 j ∙ same j, found)

    pub retrieve-keeps :
        (c : Option P.Connection) (s : W × Option Entity)
        → OldAnd id old (MaybeFound id old) s
        → OldAnd id old (MaybeFound id old) (deref (retrieve_op P id) c s).1
    retrieve-keeps none s h = h
    retrieve-keeps (some c) s h = retrieve_op-keeps id old c s h

    pub retrieve-reaches :
        (c : Option P.Connection) (s : W × Option Entity)
        → OldAnd id old (MaybeFound id old) s
        → (deref (retrieve_op P id) c s).0 ≡ returns tt
        → OldAnd id old (λ v. v ≡ old id) (deref (retrieve_op P id) c s).1
    retrieve-reaches none s h done = absurd (cc done)
    retrieve-reaches (some c) s h done = retrieve_op-finds id old c s h done

  module _ (M : IssuerLib) (hooks : IsIssuer M) (connection_string : String)
      (retries interval : ℕ) where
    -- Retrieve leaves the table alone, and when it returns it has found the row of the table.
    pub retrieve-refines :
        (id : String) (s : Option P.Connection × W)
        → Same
            (table (retrieve P M (manager_for P connection_string retries interval) id s).1.1)
            (table s.1)
          × ((found : Option Entity)
              → (retrieve P M (manager_for P connection_string retries interval) id s).0
                ≡ returns found
              → found ≡ table s.1 id)
    unfolding retrieve with_connection
    retrieve-refines id s =
        let old = table s.1 in
        let (kept, reached) =
          with_connection_rule M hooks (widened (manager_for P connection_string retries interval))
            (deref (retrieve_op P id)) "retrieve" (OldAnd id old (MaybeFound id old))
            (OldAnd id old (λ v. v ≡ old id)) (retrieve-connects connection_string id old)
            (retrieve-keeps connection_string id old) (retrieve-reaches connection_string id old)
            (s.0, (s.1, none)) (λ j. refl, inl refl) in
        (
          kept.0,
          λ found h.
              let (ended, local) = result_of_local_inversion _ _ found h in
              local ∙ (reached ended).1,
        )
