-- ===== src/Json/ReadAnswer.antt =====
-- What a response to a JSON request that only reads says: the records that a query finds, or the
-- bytes of a download.
use hackfs_mdc.Base.{◌≡◌, ◌⊎◌, String, false, none, some, List, ◌∷◌, length, is_empty}
use hackfs_mdc.Base.Int.{pos, ◌≤ℤ◌}
use hackfs_mdc.Go.{ok, returned}
use hackfs_mdc.Messages.{Bytes, MessageData, JsonResponse, JsonData, JsonQuery, ContentData}
use hackfs_mdc.Services.{Services, Found}
use hackfs_mdc.Textile.{Clients, query_with_json_api_query}
use hackfs_mdc.Textile.Promises.{View, Extends, with_bucket_key}
use hackfs_mdc.Serve.{status_ok, status_internal_server_error}
use hackfs_mdc.Serve.Replies.{IsReply}

module _ (env : Services) (clients : Clients env) (view : View env) where
  open env use {World}
  open view use {content, records}

  -- What the output of a request stands for, from the world `u` to the world `w'`: the records that
  -- the query finds, or the bytes that a record points to, at least as many as it declares; it is
  -- the first record of the bucket's key, where one is given.
  pub data Output (jd : JsonData) (u w' : World) (out : Bytes) : Type 0 where
    found :
        (jq : JsonQuery) (ds : List ContentData) (v x : World)
        → jd.type ≡ "query"
        → env.json_unmarshal_query jd.json_input ≡ (jq, none)
        → Extends env view u v
        → query_with_json_api_query env clients jq v ≡ (returned (Found.content_datas ds, none), x)
        → env.json_marshal_content_datas ds ≡ ok out
        → Output jd u w' out
    fetched :
        (cd : ContentData) (bytes : Bytes)
        → jd.type ≡ "download"
        → content w' cd.bucket_key cd.file_name ≡ some bytes
        → cd.file_size ≤ℤ pos (length bytes)
        → (let dd = (env.json_unmarshal_download jd.json_input).0 in
            is_empty dd.bucket_key ≡ false
            → (rest : List ContentData) × (with_bucket_key dd.bucket_key (records u) ≡ cd ∷ rest))
        → env.json_marshal_bytes bytes ≡ ok out
        → Output jd u w' out

  pub record Outputs (jd : JsonData) (u : World) (resp : JsonResponse) (w' : World) : Type 0 where
    pub out : Bytes
    pub answer : JsonData
    pub answered : resp.json_data ≡ some answer
    pub requester : answer.requester_id ≡ jd.requester_id
    pub printed : answer.json_output ≡ env.string_of_bytes out
    pub stands_for : Output jd u w' out

  -- The response to a request that reads. Whatever it is, Textile is as it was.
  pub record ReadAnswer (md : MessageData) (jd : JsonData) (u : World) (resp : JsonResponse)
      (w' : World) : Type 0 where
    pub reply_to : IsReply env md.id resp.message_data
    pub unchanged : Extends env view u w'
    pub outcome :
        ((resp.response_data ≡ some (record { code = status_ok; err = "" })) × Outputs jd u resp w')
        ⊎ ((text : String) × (resp.response_data
              ≡ some (record { code = status_internal_server_error; err = text })))
