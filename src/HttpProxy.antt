-- ===== src/HttpProxy.antt =====
-- backend/pkg/httpproxy/httpproxy.go: the four routes that send a request to the node and wait for
-- its response. A route is a function up to the wait and one of what the channel holds, since other
-- routes and the handlers of responses run in between.
pub mod Router
pub mod Waiting
pub mod Arrival
pub mod Routes
pub mod Downloads
use hackfs_mdc.Base.{
  String, ◌<>◌, Bool, true, false, not, ◌||◌, Option, none, some, List, [], ◌∷◌, ◌==◌, is_empty,
  length, if◌then◌else◌,
}
use hackfs_mdc.Base.Int.{ℤ, pos, eqb_ℤ}
use hackfs_mdc.Go.{Go, Outcome, Result, ok, err, returned, panicked, pure, panic, deref, ◌>>=◌}
use hackfs_mdc.Common.{Error, error_text, errorf, in_pkg}
use hackfs_mdc.Messages.{
  Bytes, MessageData, UploadRequest, UploadResponse, UploadData, DownloadRequest, DownloadResponse,
  DownloadData, JsonRequest, JsonResponse, JsonData, ContentData, ResponseData,
}
use hackfs_mdc.Messages.Envelope.{
  Envelope, upload_response_envelope, download_response_envelope, json_response_envelope,
}
use hackfs_mdc.Services.{Services}
use hackfs_mdc.Node.{get_time_stamp_millisecond}
use hackfs_mdc.Serve.{status_ok, status_internal_server_error}
use hackfs_mdc.Client.{Exchange, upload_to, download_from, send_json_api_to}

-- http.StatusBadRequest
abbrev pub status_bad_request : ℤ
status_bad_request = pos 400

-- What `c.JSON` is given.
pub data Body : Type 0 where
  error : Error → Body
  error_message : String → Body
  text : String → Body
  message : String → Body
  content : Option ContentData → Body
  json_response : JsonResponse → Body

-- What a route writes: JSON under a status, the bytes of a file under its length and type, or
-- nothing.
pub data Reply : Type 0 where
  json : ℤ → Body → Reply
  data_from_reader : ℤ → ℤ → String → Bytes → Reply
  nothing : Reply

-- A file of a form, and what `ioutil.ReadAll` gives for it.
pub record FormFile : Type 0 where
  pub file_name : String
  pub read : Result Error Bytes

-- `file` is none where `FormFile` fails, and the two fields where the form has no such field.
pub record UploadForm : Type 0 where
  pub file : Option FormFile
  pub owner_id : Option String
  pub description : Option String

-- `c.DefaultPostForm`
abbrev pub default_post_form : Option String → String → String
default_post_form none fallback = fallback
default_post_form (some x) fallback = x

-- The upload data that both upload routes send.
abbrev pub form_upload_data : String → String → String → Bytes → UploadData
form_upload_data owner_id file_name description bytes = record {
  owner_id = owner_id;
  file_name = file_name;
  file_type = "";
  file_size = pos (length bytes);
  description = description;
  file_bytes = bytes;
  generate_preview = true;
  preview_bytes = [];
}

-- What a wait at the channel gives: a response and the rest of the channel, a panic at a response
-- without message data, or neither, and then the route waits on.
pub data Waited (Resp : Type 0) : Type 0 where
  received : Resp → List Resp → Waited Resp
  nil_data : List Resp → Waited Resp
  waiting : Waited Resp

module _ {Resp : Type 0} ⦃r : Envelope Resp⦄ where
  -- Responses to other requests are taken from the channel and dropped.
  unfoldable pub wait : String → List Resp → Waited Resp
  wait msg_id [] = waiting
  wait msg_id (resp ∷ rest) =
      let later = wait msg_id rest in
      elim (r.get resp) [
        | none ↦ nil_data rest
        | some d ↦ if d.id == msg_id then received resp rest else later
      ]

-- The replies that are made of a response.
unfoldable pub reply_to_ipfs : UploadResponse → Outcome Reply
reply_to_ipfs resp = elim resp.response_data [
  | none ↦ panicked
  | some d ↦
      if not (eqb_ℤ d.code status_ok)
      then returned (Reply.json d.code (Body.text d.err))
      else elim resp.content_data [
        | none ↦ panicked
        | some cd ↦ returned (Reply.json d.code (Body.text cd.preview_url))
      ]
]

unfoldable pub reply_to_upload : UploadResponse → Outcome Reply
reply_to_upload resp = elim resp.response_data [
  | none ↦ panicked
  | some d ↦
      if not (eqb_ℤ d.code status_ok)
      then returned (Reply.json d.code (Body.text d.err))
      else returned (Reply.json d.code (Body.content resp.content_data))
]

unfoldable pub reply_to_json : JsonResponse → Outcome Reply
reply_to_json resp = elim resp.response_data [
  | none ↦ panicked
  | some d ↦
      if not (eqb_ℤ d.code status_ok)
      then returned (Reply.json d.code (Body.text d.err))
      else returned (Reply.json d.code (Body.json_response resp))
]

module _ (env : Services) where
  open env use {World, mimemagic_match}

  unfoldable pub reply_to_download : DownloadResponse → Outcome Reply
  reply_to_download resp = elim resp.response_data [
    | none ↦ panicked
    | some d ↦
        if not (eqb_ℤ d.code status_ok)
        then returned (Reply.json d.code (Body.text d.err))
        else elim resp.content_data [
          | none ↦ panicked
          | some cd ↦ elim resp.content_delivery_data [
            | none ↦ panicked
            | some delivery ↦ returned (
                Reply.data_from_reader status_ok cd.file_size
                  (mimemagic_match delivery.file_bytes cd.file_name).media_type delivery.file_bytes)
          ]
        ]
  ]

  -- The ID of the request to wait for, or the reply that ends the route.
  abbrev pub Begun : Type 0 → Type 0 → Type 0
  Begun Req Resp = Go World (Result Reply String × Exchange Req Resp)

  -- The reply to a request that could not be sent.
  abbrev pub begun : {Req Resp : Type 0} → Result Error String × Exchange Req Resp → Begun Req Resp
  begun (err e, ex) = pure (err (Reply.json status_internal_server_error (Body.error e)), ex)
  begun (ok msg_id, ex) = pure (ok msg_id, ex)

  module _ (server : String) where
    -- The rest of both upload routes: the header of a form without a file is nil, and is read.
    unfoldable pub begin_form :
        UploadForm
        → String
        → String
        → Exchange UploadRequest UploadResponse
        → Begun UploadRequest UploadResponse
    begin_form form owner_id description ex = do
      file ← deref form.file
      elim file.read [
        | err e ↦ pure (err (Reply.json status_internal_server_error (Body.error e)), ex)
        | ok bytes ↦ do
          sent ←
              upload_to env server
                (some (form_upload_data owner_id file.file_name description bytes)) ex
          begun sent
      ]

    -- POST /api/ipfs
    unfoldable pub begin_ipfs :
        UploadForm → Exchange UploadRequest UploadResponse → Begun UploadRequest UploadResponse
    begin_ipfs form = begin_form form "testowner01" "test01"

    -- POST /api/upload
    unfoldable pub begin_upload :
        UploadForm → Exchange UploadRequest UploadResponse → Begun UploadRequest UploadResponse
    begin_upload form =
        begin_form form (default_post_form form.owner_id "testowner01")
          (default_post_form form.description "test description 01")

    -- GET /api/download/:requesterid/:bucketkey
    unfoldable pub begin_download :
        String
        → String
        → Exchange DownloadRequest DownloadResponse
        → Begun DownloadRequest DownloadResponse
    begin_download requester_id bucket_key ex =
        if is_empty requester_id || is_empty bucket_key
        then pure (
          err (
              Reply.json status_internal_server_error
                (Body.error (errorf (in_pkg "httpproxy.Run.func5" 163) none "invalid input"))),
          ex,
        )
        else do
          t ← get_time_stamp_millisecond env
          sent ←
              download_from env server
                (some (record {
                  requester_id = requester_id;
                  bucket_key = bucket_key;
                  preview_url = "";
                  created_at = t;
                }))
                ex
          begun sent

    -- POST /api/json: the data that is bound from the body, and the file of its form.
    unfoldable pub begin_json :
        Result Error JsonData
        → Option FormFile
        → Exchange JsonRequest JsonResponse
        → Begun JsonRequest JsonResponse
    begin_json (err e) file ex = pure (
      err (
          Reply.json status_bad_request (
            Body.error_message (
              error_text
                (errorf (in_pkg "httpproxy.Run.func6" 217) (some e) "c.ShouldBindJSON failed")))),
      ex,
    )
    begin_json (ok d) file ex =
        if d.type == "upload2" then (do header ← deref file; pure (err Reply.nothing, ex)) else do
          sent ← send_json_api_to env server (some d) ex
          elim sent.0 [
            | err e ↦ pure (
              err (
                  Reply.json status_internal_server_error (
                    Body.error (
                      errorf (in_pkg "httpproxy.Run.func6" 235) (some e)
                        "node.SendJsonAPITo failed"))),
              sent.1,
            )
            | ok msg_id ↦ pure (ok msg_id, sent.1)
          ]
