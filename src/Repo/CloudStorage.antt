-- ===== src/Repo/CloudStorage.antt =====
-- repo/google-cloud-storage/src/adapters/repo-cloud-storage. The client library is the parameter
-- `StorageLib`, and `IsStorage` states what it does to the objects of the bucket.
pub mod Refines
use sapper_bricks.Prelude.{String, ◌≡◌, Bool, true, false, Option, none, some, ◌==◌, if◌then◌else◌}
use sapper_bricks.Effect.{
  Comp, returns, runtime_error, pure, raise, lift, with_cleanup, ◌>>=◌, ◌>>◌,
}
use sapper_bricks.Ports.{Entity, EntityRepo}
use sapper_bricks.Json.{JsonLib}
use sapper_bricks.Json.Codec.{encode, decode}

-- A StatusOr without a value is `none`, and its status message is kept where the source reads it.
pub record StorageLib (W : Type 0) : Type 1 where
  pub Client : Type 0
  pub WriteStream : Type 0
  pub create_default_client : Comp W (Option Client)
  pub write_object : Client → String → String → Comp W WriteStream
  pub write : WriteStream → String → Comp W (Unit {0})
  pub close : WriteStream → Comp W (Unit {0})
  -- the message of the metadata's status, `none` when the upload went well
  pub metadata_error : WriteStream → Comp W (Option String)
  pub destroy : WriteStream → Comp W (Unit {0})
  pub ReadStream : Type 0
  pub read_object : Client → String → String → Comp W ReadStream
  pub bad : ReadStream → Bool
  -- the characters up to the end of the stream, be it that of the object or an error in between
  pub read_all : ReadStream → Comp W String

module _ {W : Type 0} (G : StorageLib W) where
  -- What the source does with an open stream once the text is there.
  abbrev pub upload : G.WriteStream → String → Comp W (Option String)
  upload stream text = do G.write stream text; G.close stream; G.metadata_error stream

  -- `texts bucket w` are the objects of the bucket, and a stream is `Whole` if it delivers its object
  -- to the end. A stream is bad at once for an object that is not there, but also for one that may
  -- not be read or when the service is out of reach, and an error later on ends it early.
  pub record IsStorage (texts : String → W → String → Option String) (Whole : G.ReadStream → Type 0)
      : Type 0 where
    pub client_keeps :
        (bucket : String) (w : W) (k : String)
        → texts bucket (G.create_default_client w).1 k ≡ texts bucket w k
    pub opened_keeps :
        (c : G.Client) (bucket name : String) (w : W) (k : String)
        → texts bucket (G.write_object c bucket name w).1 k ≡ texts bucket w k
    -- an upload whose metadata arrived has replaced the object of that name
    pub uploaded :
        (c : G.Client) (bucket name text : String) (stream : G.WriteStream) (w : W)
        → (G.write_object c bucket name w).0 ≡ returns stream
        → (upload stream text (G.write_object c bucket name w).1).0 ≡ returns none
        → (k : String)
        → texts bucket
            (G.destroy stream (upload stream text (G.write_object c bucket name w).1).1).1
            k
          ≡ (if name == k then some text else texts bucket (G.write_object c bucket name w).1 k)
    pub read_found :
        (c : G.Client) (bucket name text : String) (stream : G.ReadStream) (w : W)
        → (G.read_object c bucket name w).0 ≡ returns stream
        → Whole stream
        → (G.read_all stream (G.read_object c bucket name w).1).0 ≡ returns text
        → texts bucket w name ≡ some text
    pub missing_bad :
        (c : G.Client) (bucket name : String) (stream : G.ReadStream) (w : W)
        → (G.read_object c bucket name w).0 ≡ returns stream
        → texts bucket w name ≡ none
        → G.bad stream ≡ true
    pub read_all_keeps :
        (stream : G.ReadStream) (bucket : String) (w : W) (k : String)
        → texts bucket (G.read_all stream w).1 k ≡ texts bucket w k
    pub read_keeps :
        (c : G.Client) (bucket name : String) (w : W) (k : String)
        → texts bucket (G.read_object c bucket name w).1 k ≡ texts bucket w k

pub record CloudStorageRepo : Type 0 where
  pub bucket : String

module _ {W : Type 0} (G : StorageLib W) (J : JsonLib) where
  -- if(!client) { throw … }
  abbrev require_client : Option G.Client → Comp W G.Client
  require_client none = raise (runtime_error "unable to create cloud storage client")
  require_client (some client) = pure client

  -- The client that both methods begin with.
  default_client : Comp W G.Client
  default_client = do created ← G.create_default_client; require_client created

  -- if(!metadata) { throw … }
  abbrev require_metadata : Option String → Comp W (Unit {0})
  require_metadata none = pure tt
  require_metadata (some message) = raise (runtime_error message)

  -- The life of the stream, up to its destructor.
  write_entity : Entity → G.WriteStream → Comp W (Unit {0})
  write_entity entity stream = do
    text ← lift (encode J entity)
    error ← upload G stream text
    require_metadata error

  unfoldable pub store : CloudStorageRepo → Entity → Comp W (Unit {0})
  unfolding default_client write_entity
  store repo entity = do
    client ← default_client
    stream ← G.write_object client repo.bucket entity.id
    with_cleanup (G.destroy stream) (write_entity entity stream)

  -- if(stream.bad()) { return std::nullopt; }
  abbrev pub read_unless : Bool → G.ReadStream → Comp W (Option Entity)
  read_unless true stream = pure none
  read_unless false stream = do text ← G.read_all stream; e ← lift (decode J text); pure (some e)

  unfoldable pub retrieve : CloudStorageRepo → String → Comp W (Option Entity)
  unfolding default_client
  retrieve repo id = do
    client ← default_client
    stream ← G.read_object client repo.bucket id
    read_unless (G.bad stream) stream

  abbrev pub cloud_storage_repo : CloudStorageRepo → EntityRepo W
  cloud_storage_repo repo = record { store = store repo; retrieve = retrieve repo }
