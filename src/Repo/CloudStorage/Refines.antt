-- ===== src/Repo/CloudStorage/Refines.antt =====
-- What the cloud storage repository promises, and that it keeps the contract of the port as long as
-- reading meets no error.
use sapper_bricks.Prelude.{String, ◌≡◌, ◌≢◌, ◌⊎◌, true, false, Option, none, some}
use sapper_bricks.Effect.{◌>>=◌}
use sapper_bricks.Ports.{Entity}
use sapper_bricks.Json.{JsonLib, IsJson}
use sapper_bricks.Repo.Stored.{table_of}
use sapper_bricks.Repo.CloudStorage.{StorageLib, IsStorage, CloudStorageRepo}

module _ {W : Type 0} (G : StorageLib W) (J : JsonLib) (laws : IsJson J)
    {texts : String → W → String → Option String} {Whole : G.ReadStream → Type 0}
    (bucket : IsStorage G texts Whole) (repo : CloudStorageRepo) where
  abbrev pub view : W → String → Option Entity
  view w = table_of J (texts repo.bucket w)

  -- How a retrieval that returned came to its answer: nothing, from a stream that was bad, or else an
  -- entity, which is that of the table if the stream was whole; then an object of that name is there.
  abbrev pub Answers : String → W → Option Entity → G.ReadStream → Type 0
  Answers id w found stream =
      ((G.bad stream ≡ true) × (found ≡ none))
      ⊎ ((G.bad stream ≡ false)
          × (Whole stream → found ≡ view w id)
          × (texts repo.bucket w id ≢ none)
          × ((e : Entity) × (found ≡ some e)))
