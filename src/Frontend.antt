-- ===== src/Frontend.antt =====
-- frontend/go-api.go: the small server of the frontend, over the IPFS shell.
pub mod Serving
use hackfs_mdc.Base.{String, ◌<>◌, Bool, true, Option, List, [], ◌∷◌, ◌==◌}
use hackfs_mdc.Go.{Result, ok, err}
use hackfs_mdc.Common.{Error}
use hackfs_mdc.Messages.{Bytes}
use hackfs_mdc.Serve.{status_ok}
use hackfs_mdc.HttpProxy.{Body, Reply}
use hackfs_mdc.HttpProxy.Router.{CorsConfig}
use hackfs_mdc.Process.{Process, exited, done, stop, ask, ◌>>=◌}

pub record SmtpServer : Type 0 where
  pub host : String
  pub port : String

-- smtpServer.Address
unfoldable pub address : SmtpServer → String
address s = s.host <> ":" <> s.port

-- What the server calls: the IPFS shell, which may be given no file, SHA-256 and its digits.
pub record Ipfs : Type 1 where
  pub World : Type 0
  pub add : Option Bytes → World → Result Error String × World
  pub bytes_of_string : String → Bytes
  pub sha256 : Bytes → Bytes
  pub encode_to_string : Bytes → String

-- The requests that the router knows; `ipfs` with the file of its form, nil if it has none.
pub data Request : Type 0 where
  ping : Request
  ipfs : Option Bytes → Request
  encrypt : Request
  decrypt : Request

abbrev pub api_cors_config : CorsConfig
api_cors_config = record {
  allow_origins = "http://localhost:3000" ∷ [];
  allow_methods = "PUT" ∷ "PATCH" ∷ "GET" ∷ "POST" ∷ "OPTIONS" ∷ [];
  allow_headers = "Origin" ∷ [];
  expose_headers = "Content-Length" ∷ [];
  allow_credentials = true;
  allow_origin_func = λ origin. origin == "http://localhost:3000";
}

module _ (env : Ipfs) where
  open env use {World, add, bytes_of_string, sha256, encode_to_string}

  unfoldable pub create_hash : String → String
  create_hash key = encode_to_string (sha256 (bytes_of_string key))

  -- POST /api/ipfs: the error of the form is overwritten, and a failure ends the whole server.
  unfoldable pub add_file : Option Bytes → Process World Reply
  add_file file = do
    added ← ask (add file)
    elim added [ err e ↦ stop (exited 1) | ok cid ↦ done (Reply.json status_ok (Body.text cid)) ]

  unfoldable pub handle_request : Request → Process World Reply
  handle_request Request.ping = done (Reply.json status_ok (Body.message "pong"))
  handle_request (Request.ipfs file) = add_file file
  handle_request Request.encrypt = done Reply.nothing
  handle_request Request.decrypt = done Reply.nothing

  -- The requests that arrive, in the order in which they are handled.
  unfoldable pub serve : List Request → Process World (List Reply)
  serve [] = done []
  serve (r ∷ rest) = do reply ← handle_request r; replies ← serve rest; done (reply ∷ replies)
