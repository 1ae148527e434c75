-- ===== src/Lib.antt =====
-- Sapper Bricks: the code fragments ("bricks") from which a microservice of hexagonal shape is
-- assembled. A core (base/hexagonal-skeleton) offers the port Api and uses the ports EntityRepo and
-- EntityNotifier; repositories (repo/), notifiers (notifier/) and handlers (handler/) are adapters
-- of these ports; security/ has the checks of tokens and the reading of keys and configurations.
--
-- Prelude, Effect and Dict are shared: names and case lemmas; exceptions and state (an action
-- `Comp W A` reads and changes a world and returns or throws); std::map as an association list.
-- Ports, Core: base/hexagonal-skeleton/src/ports and src/core/core.cpp (`set_entity` is SetEntity,
-- `get_entity` is GetEntity). `Ports/Contract.antt` says what a repository promises: it refines a
-- table from ids to entities. The repositories in memory, on Redis and on Postgres prove that
-- contract, and the core and the handlers take it; on Cloud Storage an error of reading breaks it,
-- and Repo/CloudStorage/Refines says what is left of it.
-- Repo: one module for each brick under repo/, with Store and Retrieve as `store` and `retrieve`.
-- Postgres has the repository, and Postgres/Connection the connection manager, whose retried
-- attempts are one action each, since the manager holds its lock; Postgres/Threads has the attempts
-- of several threads in one sequence.
-- Json: the JSON library, the codec that seven bricks repeat, and the optional fields that
-- security/openid and security/jwt-auth read. Http: one GET of a URL. Mse: the requests that the
-- library microservice-essentials issues, with its hooks for retries and forwarded errors.
-- Security: Jwks is key_conversion.cpp, KeyProvider rest-jwks-rsa-key-provider.cpp, JwtAuth
-- jwt-auth-request-hook.cpp (all security/jwt-auth); JwtAuth/Hook has the hook over its base class
-- and JwtAuth/Guards the requests that it lets run; KeyProvider/Threads, Once and Requests have
-- the threads that share one cache. OpenId is openid-configuration.cpp (security/openid).
-- Handler: one module for each brick under handler/. Handler/Http has the requests, and in Server
-- the routes; Service sets it, over the core and the in-memory repository, against the abstract
-- service of Table: requests are answered one after another, since that repository is documented
-- as not safe for threads. Handler/PubSub/Session has the callbacks of one session as events, one
-- after another, in any order. Handler/Grpc/Server has the server that two threads start and stop.
-- Notifier: the two bricks under notifier/, each with a Chain to the handler of another service. Tracing: the hook of
-- observerability/opentelemetry-tracing, with the carrier of its headers and its TracerProvider;
-- Tracing/Across follows a trace from one service to the next.
-- App: main of base/hexagonal-skeleton as the list of its SAPPER sections, and in App/Bricks what
-- the src/app/main.cpp of every brick does to them. App/Secured, App/Propagated, App/Traced and
-- App/CommandLine are about services that are assembled so; Security/Keyed puts the token hook and
-- the key provider together.
-- Tests: each result at a concrete input, over small instances of the libraries. Tests/Scenarios
-- runs the unit tests of the repository on the model, their JSON documents read by Tests/Reader.
--
-- Libraries that are not in the repository are parameters: records of the calls that the sources
-- make, and where a result needs it a record of laws that states what their documentation says: the
-- meaning of an SQL text for a connection that has prepared it, or the headers of a propagator
-- (IsJson, IsRedis, IsStorage, IsDatabase, IsIssuer, IsHandler, IsOtel,
-- IsExporter, IsContext, IsServer, IsQuiet, IsMessage, IsPropagator, IsTokenAuth). The instances
-- in Tests show that the laws can hold. Time is no part of the model: a waiting retry is the next
-- attempt.
-- No definition takes fuel: the loops of the program run over lists and over the retries left.
-- An `int` is an integer with its range, IsInt32; text is Unicode, a position in it counts bytes.
--
-- Not modelled: the accept loops of the server libraries and the generated messages, log messages,
-- the includes that a generator merges, build and deployment files, and the
-- unit test of the PEM text that OpenSSL makes; the base64 text and the signatures of the tokens in
-- the unit tests are the JWT library's, so the tests name the tokens by what they hold.
pub mod Prelude
pub mod Effect
pub mod Dict
pub mod Ports
pub mod Json
pub mod Mse
pub mod Core
pub mod Repo
pub mod Http
pub mod Security
pub mod Handler
pub mod Notifier
pub mod Tracing
pub mod App
pub mod Tests
