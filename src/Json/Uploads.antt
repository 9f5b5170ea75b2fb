-- ===== src/Json/Uploads.antt =====
-- The response to an upload in JSON, on every branch.
use hackfs_mdc.Base.{◌≡◌, ◌⊎◌, String, some}
use hackfs_mdc.Go.{ok, err}
use hackfs_mdc.Common.{Error}
use hackfs_mdc.Messages.{Bytes, MessageData, JsonResponse, JsonData, UploadData, ContentData}
use hackfs_mdc.Services.{Services}
use hackfs_mdc.Textile.{Clients}
use hackfs_mdc.Textile.Promises.{View, Extends, Promises}
use hackfs_mdc.Content.Storing.{IsStored}
use hackfs_mdc.Serve.{status_ok, status_internal_server_error}
use hackfs_mdc.Serve.Replies.{IsReply}

module _ (env : Services) (pk : Bytes) (keyed : env.host_pub_key_bytes ≡ ok pk) where
  open env use {World, unix_nano}

  module _ (clients : Clients env) (view : View env) (law : Promises env view) where
    -- The response to an upload in JSON, and what it says of Textile. With status 200 the upload is
    -- stored, and the output is its record. With status 500 it is stored if the record cannot be
    -- put into JSON, and otherwise no record was added and no bytes were lost.
    pub record JsonUploadAnswer (md : MessageData) (jd : JsonData) (d : UploadData) (w : World)
        (resp : JsonResponse) (w' : World) : Type 0 where
      pub reply_to : IsReply env md.id resp.message_data
      pub outcome :
          ((resp.response_data ≡ some (record { code = status_ok; err = "" }))
            × ((cd : ContentData) × IsStored env clients view law d jd.received_at w cd w'
                × ((out : Bytes) × (env.json_marshal_content_data cd ≡ ok out)
                    × ((answer : JsonData) × (resp.json_data ≡ some answer)
                        × (answer.json_output ≡ env.string_of_bytes out)))))
          ⊎ (((text : String) × (resp.response_data
                  ≡ some (record { code = status_internal_server_error; err = text })))
              × (((cd : ContentData) × IsStored env clients view law d jd.received_at w cd w'
                    × ((e : Error) × (env.json_marshal_content_data cd ≡ err e)))
                  ⊎ Extends env view w w'))
