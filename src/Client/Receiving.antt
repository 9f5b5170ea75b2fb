-- ===== src/Client/Receiving.antt =====
-- What a handler of responses does with each stream: onUploadResponse, onDownloadResponse and
-- onJsonResponse of backend/pkg/libp2pnode.
use hackfs_mdc.Base.{◌≡◌, Option, none, some}
use hackfs_mdc.Go.{Outcome, ok, err, returned, panicked}
use hackfs_mdc.Common.{Error}
use hackfs_mdc.Messages.{Bytes, MessageData}
use hackfs_mdc.Messages.Envelope.{Envelope}
use hackfs_mdc.Services.{Services}
use hackfs_mdc.Node.Authenticity.{IsAuthentic}
use hackfs_mdc.Client.{Exchange, settle}

module _ (env : Services) {Req Resp : Type 0} ⦃r : Envelope Resp⦄
    (unmarshal : Bytes → Resp × Option Error) (ex : Exchange Req Resp) (s : env.Stream)
    (w : env.World) where
  open env use {World, read_all, reset, close}

  -- The stream is reset if it cannot be read, and closed if it can. An authentic response settles
  -- the request that it names, any other with message data changes nothing, and one without is
  -- a panic.
  pub data Receives : Outcome (Exchange Req Resp) × World → Type 0 where
    unread :
        (e : Error) (w' : World) → read_all s w ≡ (err e, w') → Receives (returned ex, reset s w')
    nil :
        (bytes : Bytes) (w' : World)
        → read_all s w ≡ (ok bytes, w')
        → r.get (unmarshal bytes).0 ≡ none
        → Receives (panicked, close s w')
    settles :
        (bytes : Bytes) (w' : World) (d : MessageData)
        → read_all s w ≡ (ok bytes, w')
        → r.get (unmarshal bytes).0 ≡ some d
        → IsAuthentic env (unmarshal bytes).0
        → Receives (returned (settle ex d.id (unmarshal bytes).0), close s w')
    drops :
        (bytes : Bytes) (w' : World)
        → read_all s w ≡ (ok bytes, w')
        → (¬ IsAuthentic env (unmarshal bytes).0)
        → Receives (returned ex, close s w')
