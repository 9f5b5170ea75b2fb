-- ===== src/Serve.antt =====
-- The handlers of incoming requests, which backend/pkg/libp2pnode has three times over
-- (onUploadRequest, onDownloadRequest, onJsonRequest): one function of what differs between them.
pub mod Outcomes
pub mod Replies
pub mod Handling
pub mod Effects
pub mod Returning
use hackfs_mdc.Base.{String, Bool, true, false, Option}
use hackfs_mdc.Go.{Go, Result, ok, err, returned, panicked, pure, panic, call, effect, ◌>>=◌, ◌>>◌}
use hackfs_mdc.Common.{Error}
use hackfs_mdc.Messages.{Bytes}
use hackfs_mdc.Messages.Envelope.{Envelope}
use hackfs_mdc.Services.{Services}
use hackfs_mdc.Node.{authenticate_message, sign_proto_message, set_sign, send_proto_message}
use hackfs_mdc.Base.Int.{ℤ, pos}

-- http.StatusInternalServerError and http.StatusOK
abbrev pub status_internal_server_error : ℤ
status_internal_server_error = pos 500

abbrev pub status_ok : ℤ
status_ok = pos 200

module _ (env : Services) where
  open env use {World, Stream, read_all, reset, close, remote_peer}

  module _ {Resp : Type 0} ⦃r : Envelope Resp⦄ where
    -- Signs the response and sends it. A response that cannot be signed is not sent.
    unfoldable pub respond : String → String → Resp → Go World (Unit {0})
    respond peer protocol resp = do
      signed ← sign_proto_message env resp
      elim signed [
        | err x ↦ pure tt
        | ok signature ↦ do
          resp' ← set_sign env signature resp
          sent ← send_proto_message env peer protocol resp'
          pure tt
      ]

  module _ {Req Resp : Type 0} ⦃q : Envelope Req⦄ ⦃r : Envelope Resp⦄
      (inspect : Req → Go World (Unit {0})) (process : Req → Go World Resp) where
    -- After a request has been read and unmarshalled: `inspect` is what the log line reads of it.
    unfoldable pub answer : String → String → Req → Go World (Unit {0})
    answer peer protocol req = do
      inspect req
      checked ← authenticate_message env req
      elim checked.0 [
        | false ↦ pure tt
        | true ↦ do resp ← process checked.1; respond peer protocol resp
      ]

    -- The error of the unmarshal is dropped: the code tests the error of the read once more.
    unfoldable pub serve_request :
        (Bytes → Req × Option Error) → String → Stream → Go World (Unit {0})
    serve_request unmarshal protocol s = do
      buf ← call (read_all s)
      elim buf [
        | err x ↦ effect (reset s)
        | ok bytes ↦ do effect (close s); answer (remote_peer s) protocol (unmarshal bytes).0
      ]
