-- ===== src/HttpProxy/Routes.antt =====
-- What the upload routes send and what they reply, across the node that sends and the node that
-- answers.
use hackfs_mdc.Base.{◌≡◌, String, Option, some, arith}
use hackfs_mdc.Go.{Result, ok, err}
use hackfs_mdc.Common.{Error}
use hackfs_mdc.Messages.{Bytes, MessageData, UploadRequest, UploadResponse}
use hackfs_mdc.Messages.Envelope.{upload_request_envelope, upload_response_envelope}
use hackfs_mdc.Services.{Services}
use hackfs_mdc.Node.Signing.{HostKeys}
use hackfs_mdc.Textile.Promises.{Promises}
use hackfs_mdc.Serve.{status_internal_server_error}
use hackfs_mdc.Serve.Replies.{IsReply}
use hackfs_mdc.Client.{Exchange, register}
use hackfs_mdc.HttpProxy.{Body, Reply, FormFile, UploadForm, form_upload_data}

pub IsReply-id :
    (env : Services) (id : String) (o : Option MessageData) (d : MessageData)
    → IsReply env id o
    → o ≡ some d
    → d.id ≡ id
IsReply-id env id o d r h = ground (arith, r.present, r.same_id)

module _ (env : Services) (pk : Bytes) (keyed : env.host_pub_key_bytes ≡ ok pk)
    (keys : HostKeys env) (server : String) (owner_id description : String) (form : UploadForm)
    (file : FormFile) (bytes : Bytes) where
  open env use {World}

  abbrev pub FormAnswer :
      Exchange UploadRequest UploadResponse
      → World
      → Result Reply String × Exchange UploadRequest UploadResponse
      → World
      → Type 0
  FormAnswer ex w (err reply, after) w' =
      ((e : Error) × (reply ≡ Reply.json status_internal_server_error (Body.error e)))
      × (after ≡ ex)
  FormAnswer ex w (ok id, after) w' =
      (req : UploadRequest) × (req.upload_data
        ≡ some (form_upload_data owner_id file.file_name description bytes))
      × ((d : MessageData) × (req.message_data ≡ some d) × (d.id ≡ id))
      × (after ≡ register ex id req)

  abbrev make : MessageData → UploadRequest
  make md = record {
    message_data = some md;
    upload_data = some (form_upload_data owner_id file.file_name description bytes);
  }
