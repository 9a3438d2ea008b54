-- ===== src/Http.antt =====
-- The exchange of panelapi/minhttp.go: what a request and its answer hold. The body is a value of a
-- type `W`, such as the bytes of a JSON text.
pub mod Reading
pub mod Client
pub mod Digits
pub mod Exchange
pub mod Chunks
pub mod Bounds
use mini_sb_agent.Base.{ℕ, Option, nat_eq, list_eq, pair_eq, Map, Text}

-- The arguments of `minHTTPClient.do`.
pub record HttpRequest (W : Type 0) : Type 0 where
  pub method : Text
  pub url : Text
  pub headers : Map Text Text
  pub content : Option W

-- `minHTTPResponse`, without the text of the status
pub record HttpReply (W : Type 0) : Type 0 where
  pub status_code : ℕ
  pub content : W
