-- ===== src/HttpProxy/Router.antt =====
-- The router's configuration in backend/pkg/httpproxy/httpproxy.go, and its route for a ping.
use hackfs_mdc.Base.{String, Bool, true, List, [], ◌∷◌, ◌==◌}
use hackfs_mdc.HttpProxy.{Body, Reply}
use hackfs_mdc.Serve.{status_ok}

-- `cors.Config`, for the fields that are set.
pub record CorsConfig : Type 0 where
  pub allow_origins : List String
  pub allow_methods : List String
  pub allow_headers : List String
  pub expose_headers : List String
  pub allow_credentials : Bool
  pub allow_origin_func : String → Bool

abbrev pub cors_config : CorsConfig
cors_config = record {
  allow_origins = "http://localhost:3000" ∷ [];
  allow_methods = "PUT" ∷ "PATCH" ∷ "GET" ∷ "POST" ∷ "OPTIONS" ∷ [];
  allow_headers = "Origin" ∷ [];
  expose_headers = "Content-Length" ∷ [];
  allow_credentials = true;
  allow_origin_func = λ origin. origin == "http://localhost:3000";
}

-- GET /api/ping
abbrev pub ping : Reply
ping = Reply.json status_ok (Body.message "pong")
