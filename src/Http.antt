-- ===== src/Http.antt =====
-- The HTTP client (cpp-httplib) and the URL helper (mse::ToUrl) that some bricks call, as a
-- parameter: one GET of a URL. A response without an error has a status and a body.
use sapper_bricks.Prelude.{ℕ, String}
use sapper_bricks.Effect.{Comp}

pub data Fetched : Type 0 where
  -- resp.error() other than Success, with its text
  failed : String → Fetched
  -- resp->status and resp->body
  answered : ℕ → String → Fetched

pub record HttpLib (W : Type 0) : Type 0 where
  -- ToUrl, Client(url.GetConnectionString()) and Get(url.GetWholePath())
  pub get : String → Comp W Fetched
  -- std::to_string
  pub to_text : ℕ → String
