-- ===== src/Handler/Http/Server.antt =====
-- The constructor, Handle and Stop of the HTTP handler. The server (cpp-httplib) is a parameter.
use sapper_bricks.Prelude.{
  ℕ, String, ◌≡◌, Bool, true, false, ◌&&◌, ◌||◌, List, [], ◌∷◌, if◌then◌else◌,
}
use sapper_bricks.Effect.{returns, Comp}
use sapper_bricks.Ports.{Api}
use sapper_bricks.Json.{JsonLib}
use sapper_bricks.Handler.{HandlerLib}
use sapper_bricks.Handler.Http.{Request, Response, get_entity, set_entity}

pub data Method : Type 0 where
  get put other : Method

abbrev pub RequestHandler : Type 0 → Type 0
RequestHandler W = Request → Comp (Response × W) (Unit {0})

pub record ServerLib (W : Type 0) : Type 1 where
  pub Server : Type 0
  -- Server(), server.Get(pattern, handler) and server.Put(pattern, handler)
  pub new : Server
  pub add_get : String → RequestHandler W → Server → Server
  pub add_put : String → RequestHandler W → Server → Server
  -- what the server does with one request
  pub route : Server → Method → RequestHandler W
  -- whether a path fits the pattern of a route
  pub fits : String → String → Bool
  -- the status of a request that no route fits
  pub unrouted : Response → Response
  -- server.listen(host, port), and server.stop()
  pub listen : Server → String → ℕ → Comp W (Unit {0})
  pub stop : Server → Comp W (Unit {0})

abbrev pub is_get : Method → Bool
is_get get = true
is_get put = false
is_get other = false

abbrev pub is_put : Method → Bool
is_put get = false
is_put put = true
is_put other = false

-- What the documentation says of the routing: a request goes to the first route of its method whose
-- pattern fits the path, and else it is answered as not found.
pub record IsServer {W : Type 0} (S : ServerLib W) (routed : S.Server → Method → String → Bool)
    : Type 0 where
  pub routed_new : (m : Method) (path : String) → routed S.new m path ≡ false
  pub routed_get :
      (p : String) (h : RequestHandler W) (s : S.Server) (m : Method) (path : String)
      → routed (S.add_get p h s) m path ≡ (routed s m path || (is_get m && S.fits p path))
  pub routed_put :
      (p : String) (h : RequestHandler W) (s : S.Server) (m : Method) (path : String)
      → routed (S.add_put p h s) m path ≡ (routed s m path || (is_put m && S.fits p path))
  pub route_new :
      (m : Method) (r : Request) (t : Response × W)
      → S.route S.new m r t ≡ (returns tt, (S.unrouted t.0, t.1))
  pub route_get :
      (p : String) (h : RequestHandler W) (s : S.Server) (m : Method) (r : Request)
      (t : Response × W)
      → S.route (S.add_get p h s) m r t ≡ (
          if routed s m r.path
          then S.route s m r t
          else if is_get m && S.fits p r.path
          then h r t
          else S.route s m r t)
  pub route_put :
      (p : String) (h : RequestHandler W) (s : S.Server) (m : Method) (r : Request)
      (t : Response × W)
      → S.route (S.add_put p h s) m r t ≡ (
          if routed s m r.path
          then S.route s m r t
          else if is_put m && S.fits p r.path
          then h r t
          else S.route s m r t)

module _ (J : JsonLib) (M : HandlerLib) {W : Type 0} (S : ServerLib W) where
  -- HttpHandler: the server has the routes, which hold the Api.
  pub record HttpHandler : Type 0 where
    pub svr : S.Server
    pub host : String
    pub port : ℕ

  -- The constructor.
  unfoldable pub create : Api W → String → ℕ → HttpHandler
  create api host port = record {
    svr =
        S.add_put "/Entity/(.*)" (set_entity J M api)
          (S.add_get "/Entity/(.*)" (get_entity J M api) S.new);
    host = host;
    port = port;
  }

  unfoldable pub handle : HttpHandler → Comp W (Unit {0})
  handle handler = S.listen handler.svr handler.host handler.port

  unfoldable pub stop : HttpHandler → Comp W (Unit {0})
  stop handler = S.stop handler.svr

  -- One request after another, each with a response that is made for it, and the responses.
  unfoldable pub answer_all : S.Server → Response → List (Method × Request) → W → List Response × W
  answer_all svr fresh [] w = ([], w)
  answer_all svr fresh ((method, request) ∷ requests) w =
      let answered = (S.route svr method request (fresh, w)).1 in
      let rest = answer_all svr fresh requests answered.1 in (answered.0 ∷ rest.0, rest.1)
