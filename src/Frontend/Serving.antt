-- ===== src/Frontend/Serving.antt =====
-- The frontend's server answers every request, or stops at the first file that cannot be added.
use hackfs_mdc.Base.{◌≡◌, String, Option, List, [], ◌∷◌, ◌++◌}
use hackfs_mdc.Messages.{Bytes}
use hackfs_mdc.Serve.{status_ok}
use hackfs_mdc.HttpProxy.{Body, Reply}
use hackfs_mdc.Process.{Ended, exited}
use hackfs_mdc.Frontend.{Request}

-- The reply that a request is due.
pub data Answers : Request → Reply → Type 0 where
  pong : Answers Request.ping (Reply.json status_ok (Body.message "pong"))
  added :
      (file : Option Bytes) (cid : String)
      → Answers (Request.ipfs file) (Reply.json status_ok (Body.text cid))
  encrypted : Answers Request.encrypt Reply.nothing
  decrypted : Answers Request.decrypt Reply.nothing

pub data AllAnswered : List Request → List Reply → Type 0 where
  all_done : AllAnswered [] []
  one_more :
      {r : Request} {x : Reply} {rs : List Request} {xs : List Reply}
      → Answers r x
      → AllAnswered rs xs
      → AllAnswered (r ∷ rs) (x ∷ xs)

-- The process has exited with 1, at a request to add a file.
pub record IsStopped (rs : List Request) (e : Ended) : Type 0 where
  pub exit : e ≡ exited 1
  pub before : List Request
  pub after : List Request
  pub file : Option Bytes
  pub here : rs ≡ before ++ Request.ipfs file ∷ after
