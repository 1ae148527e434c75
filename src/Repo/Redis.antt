-- ===== src/Repo/Redis.antt =====
-- repo/redis/src/adapters/repo-redis. The client library (redis-plus-plus) is the parameter
-- `RedisLib`, and `IsRedis` states what the commands SET and GET do to the texts of the server.
pub mod Refines
use sapper_bricks.Prelude.{String, ◌≡◌, Bool, true, not, Option, none, some, ◌==◌, if◌then◌else◌}
use sapper_bricks.Effect.{Comp, returns, runtime_error, pure, lift, throw_if, ◌>>=◌, ◌>>◌}
use sapper_bricks.Ports.{Entity, EntityRepo}
use sapper_bricks.Json.{JsonLib}
use sapper_bricks.Json.Codec.{encode, decode}

pub record RedisLib (W : Type 0) : Type 1 where
  pub Connection : Type 0
  pub connect : String → Comp W Connection
  pub ping : Connection → String → Comp W String
  pub set : Connection → String → String → Comp W Bool
  pub get : Connection → String → Comp W (Option String)

-- `texts c w` are the values that the server behind `c` holds.
pub record IsRedis {W : Type 0} (R : RedisLib W) (texts : R.Connection → W → String → Option String)
    : Type 0 where
  pub set_done :
      (c : R.Connection) (key text : String) (w : W)
      → (R.set c key text w).0 ≡ returns true
      → (k : String)
      → texts c (R.set c key text w).1 k ≡ (if key == k then some text else texts c w k)
  pub get_found :
      (c : R.Connection) (key : String) (w : W) (found : Option String)
      → (R.get c key w).0 ≡ returns found
      → found ≡ texts c w key
  pub get_keeps :
      (c : R.Connection) (key : String) (w : W) (k : String)
      → texts c (R.get c key w).1 k ≡ texts c w k

module _ {W : Type 0} (R : RedisLib W) (J : JsonLib) where
  pub record RedisRepo : Type 0 where
    pub connection : R.Connection

  -- The constructor.
  unfoldable pub create : String → Comp W RedisRepo
  create connection_string = do
    connection ← R.connect connection_string
    answer ← R.ping connection "test"
    throw_if (not (answer == "test")) (runtime_error "[redis] invalid connection")
    pure (record { connection = connection })

  unfoldable pub store : RedisRepo → Entity → Comp W (Unit {0})
  store repo entity = do
    text ← lift (encode J entity)
    done ← R.set repo.connection entity.id text
    throw_if (not done) (runtime_error "[redis] unable to set entity")

  -- The value of the document, if there is one.
  abbrev pub parsed : Option String → Comp W (Option Entity)
  parsed none = pure none
  parsed (some text) = do e ← lift (decode J text); pure (some e)

  unfoldable pub retrieve : RedisRepo → String → Comp W (Option Entity)
  retrieve repo id = do json ← R.get repo.connection id; parsed json

  abbrev pub redis_repo : RedisRepo → EntityRepo W
  redis_repo repo = record { store = store repo; retrieve = retrieve repo }
