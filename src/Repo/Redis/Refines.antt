-- ===== src/Repo/Redis/Refines.antt =====
-- The Redis repository keeps the contract of the port.
use sapper_bricks.Prelude.{String, ◌≡◌, true, Option, arith}
use sapper_bricks.Prelude.Int.{IsInt32}
use sapper_bricks.Effect.{returns, lift}
use sapper_bricks.Effect.Laws.{>>=_inversion}
use sapper_bricks.Ports.{Entity}
use sapper_bricks.Ports.Contract.{IsRepo, updated}
use sapper_bricks.Json.{JsonLib, IsJson}
use sapper_bricks.Json.Codec.{encode}
use sapper_bricks.Repo.Stored.{table_of, table_of-updated}
use sapper_bricks.Repo.Redis.{RedisLib, IsRedis, RedisRepo, store, retrieve, redis_repo}

module _ {W : Type 0} (R : RedisLib W) (J : JsonLib) (laws : IsJson J)
    {texts : R.Connection → W → String → Option String} (server : IsRedis R texts)
    (repo : RedisRepo R J) where
  abbrev pub view : W → String → Option Entity
  view w = table_of J (texts repo.connection w)

  store-updated :
      (e : Entity) (w : W)
      → IsInt32 e.int_property
      → (store R J repo e w).0 ≡ returns tt
      → (id : String) → view (store R J repo e w).1 id ≡ updated e (view w) id
  unfolding store
  store-updated e w range h =
      let (text, dumped, rest, h') = >>=_inversion (lift (encode J e)) _ w h in
      let (done, answer, last, h'') = >>=_inversion (R.set repo.connection e.id text) _ w h' in
      let written : (R.set repo.connection e.id text w).0 ≡ returns true = ground arith in
      let same : (store R J repo e w).1 ≡ (R.set repo.connection e.id text w).1 = ground arith in
      rw same (
        table_of-updated J laws e text _ _ range dumped
          (server.set_done repo.connection e.id text w written))

  retrieve-view :
      (id : String) (w : W) (found : Option Entity)
      → (retrieve R J repo id w).0 ≡ returns found
      → found ≡ view w id
  unfolding retrieve
  retrieve-view id w found h =
      let (json, got, rest, h') = >>=_inversion (R.get repo.connection id) _ w h in
      ground (arith, server.get_found repo.connection id w json got)

  retrieve-kept : (id : String) (w : W) (j : String) → view (retrieve R J repo id w).1 j ≡ view w j
  unfolding retrieve
  retrieve-kept id w j = ground (arith, server.get_keeps repo.connection id w j)

  -- Over a Redis server the repository refines the table of the entities whose documents the
  -- server holds: a store that returns replaces one of them, a retrieval answers from them.
  pub redis_repo-IsRepo : IsRepo (redis_repo R J repo) view
  redis_repo-IsRepo = record {
    stored = store-updated;
    retrieved = retrieve-view;
    kept = retrieve-kept;
  }
