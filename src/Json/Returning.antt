-- ===== src/Json/Returning.antt =====
-- The handler of JSON requests returns.
use hackfs_mdc.Base.{
  ◌≡◌, refl, inl, inr, String, false, Option, none, some, Bool-cases, length, ◌==◌,
}
use hackfs_mdc.Base.Int.{ℤ, pos, ltb_ℤ}
use hackfs_mdc.Go.{Outcome, Result, ok, err, returned}
use hackfs_mdc.Go.Laws.{Result-cases}
use hackfs_mdc.Go.Yielding.{Yields, Any, bind-Yields, deref-Yields}
use hackfs_mdc.Common.{Caller, Error}
use hackfs_mdc.Messages.{
  Bytes, MessageData, JsonRequest, JsonResponse, JsonData, JsonQuery, ContentData, DownloadData,
  UploadData,
}
use hackfs_mdc.Messages.Envelope.{json_request_envelope, json_response_envelope}
use hackfs_mdc.Services.{Services, Found}
use hackfs_mdc.Node.Working.{Working, HasData, time-Yields, new_message_data-Yields}
use hackfs_mdc.Textile.{Clients}
use hackfs_mdc.Textile.Returning.{pull-Yields, query-Yields}
use hackfs_mdc.Content.Returning.{get_record-Yields, store_content-Yields}
use hackfs_mdc.Serve.Returning.{serve_request-Yields}
use hackfs_mdc.Json.{
  json_response_protocol_name, json_upload_places, in_query, get_json_response_with_error,
  get_json_response_with_json_output, fail, reply, reply_found, inspect_json_request,
  run_json_query, process_json_request_query, deliver_json, find_json,
  process_json_request_download, store_json_upload, process_json_request_upload, dispatch,
  process_json_request, on_json_request,
}

-- A JSON request has its message data and its JSON data.
pub record IsComplete (req : JsonRequest) : Type 0 where
  pub md : MessageData
  pub d : JsonData
  pub has_message : req.message_data ≡ some md
  pub has_json : req.json_data ≡ some d

module _ (env : Services) (k : Working env) (req : JsonRequest) (c : IsComplete req) where
  abbrev Answers : (env.World → Outcome JsonResponse × env.World) → Type 0
  Answers = Yields (HasData env)

  error_response-Yields :
      (code : ℤ) (e : Error) → Answers (get_json_response_with_error env req code e)
  unfolding get_json_response_with_error
  error_response-Yields code e w =
      let (md, _, h) = new_message_data-Yields env k c.md.id false w in
      rw (c.has_message, get_json_response_with_error)
        (rw (h, get_json_response_with_error) (_, (md, refl), refl))

  fail-Yields :
      (caller : Option Caller) (e : Option Error) (msg : String)
      → Answers (fail env req caller e msg)
  unfolding fail
  fail-Yields caller e msg = error_response-Yields _ _

  output-Yields : (b : Bytes) → Answers (get_json_response_with_json_output env req b)
  unfolding get_json_response_with_json_output
  output-Yields b =
      bind-Yields Any (HasData env) _ _ (deref-Yields Any req.message_data c.md c.has_message tt)
        (λ md _.
          bind-Yields Any (HasData env) _ _ (new_message_data-Yields env k md.id false) (λ own _.
            bind-Yields Any (HasData env) _ _ (deref-Yields Any req.json_data c.d c.has_json tt)
              (λ d _.
                bind-Yields Any (HasData env) _ _ (time-Yields env)
                  (λ t _ w. (_, (own, refl), refl)))))

  reply-Yields :
      (caller : Option Caller) (r : Result Error Bytes) → Answers (reply env req caller r)
  unfolding reply
  reply-Yields caller (err e) = fail-Yields _ _ _
  reply-Yields caller (ok b) = output-Yields b

  reply_found-Yields : (found : Found) → Answers (reply_found env req found)
  unfolding reply_found
  reply_found-Yields Found.nil = fail-Yields _ _ _
  reply_found-Yields Found.other = fail-Yields _ _ _
  reply_found-Yields (Found.content_datas ds) = reply-Yields _ _

  module _ (clients : Clients env) where
    run_json_query-Yields : (jq : JsonQuery) → Answers (run_json_query env clients req jq)
    unfolding run_json_query
    run_json_query-Yields jq =
        bind-Yields Any (HasData env) _ _ (query-Yields env clients jq) (λ res _. checked res)
      where
        checked :
            (res : Found × Option Error)
            → Answers (elim res.1 [
              | some e ↦
                  fail env req (in_query 73) (some e) "textilehelper.QueryWithJsonApiQuery failed"
              | none ↦ reply_found env req res.0
            ])
        checked (found, some e) = fail-Yields _ _ _
        checked (found, none) = reply_found-Yields found

    query_operation-Yields : Answers (process_json_request_query env clients req)
    unfolding process_json_request_query
    query_operation-Yields =
        bind-Yields Any (HasData env) _ _ (deref-Yields Any req.json_data c.d c.has_json tt)
          (λ d _. unmarshalled (env.json_unmarshal_query d.json_input))
      where
        unmarshalled :
            (jq : JsonQuery × Option Error)
            → Answers (elim jq.1 [
              | some e ↦ fail env req (in_query 69) (some e) "json.Unmarshal failed"
              | none ↦ run_json_query env clients req jq.0
            ])
        unmarshalled (jq, some e) = fail-Yields _ _ _
        unmarshalled (jq, none) = run_json_query-Yields jq

    deliver_json-Yields : (cd : ContentData) → Answers (deliver_json env clients req cd)
    unfolding deliver_json
    deliver_json-Yields cd w =
        let (pulled, _, h) = pull-Yields env clients cd.bucket_key cd.file_name w in
        elim (Result-cases pulled) [
          | inl (x, e) ↦ rw (h, deliver_json) (rw (e, deliver_json) (fail-Yields _ _ _ _))
          | inr (b, e) ↦ elim (Bool-cases (ltb_ℤ (pos (length b)) cd.file_size)) [
            | inl short ↦
                rw (h, deliver_json) (rw (e, deliver_json) (rw short (fail-Yields _ _ _ _)))
            | inr long ↦ rw (h, deliver_json) (rw (e, deliver_json) (rw long (reply-Yields _ _ _)))
          ]
        ]

    find_json-Yields : (d : DownloadData) → Answers (find_json env clients req d)
    unfolding find_json
    find_json-Yields d w =
        let (found, _, h) = get_record-Yields env clients d w in
        elim (Result-cases found) [
          | inl (x, e) ↦ rw (h, find_json) (rw (e, find_json) (fail-Yields _ _ _ _))
          | inr (cd, e) ↦ rw (h, find_json) (rw (e, find_json) (deliver_json-Yields cd _))
        ]

    download_operation-Yields : Answers (process_json_request_download env clients req)
    unfolding process_json_request_download
    download_operation-Yields =
        bind-Yields Any (HasData env) _ _ (deref-Yields Any req.json_data c.d c.has_json tt)
          (λ d _. find_json-Yields _)

    store_json_upload-Yields :
        (received_at : ℤ) (d : UploadData)
        → Answers (store_json_upload env clients req received_at d)
    unfolding store_json_upload
    store_json_upload-Yields received_at d w =
        elim (Bool-cases (ltb_ℤ (pos (length d.file_bytes)) d.file_size)) [
          | inl short ↦ rw (short, store_json_upload) (fail-Yields _ _ _ w)
          | inr long ↦
              let (stored, _, h) =
                store_content-Yields env k clients json_upload_places received_at d w in
              elim (Result-cases stored) [
                | inl (x, e) ↦
                    rw (long, store_json_upload)
                      (rw (h, store_json_upload)
                        (rw (e, store_json_upload) (error_response-Yields _ _ _)))
                | inr (cd, e) ↦
                    rw (long, store_json_upload)
                      (rw (h, store_json_upload) (rw (e, store_json_upload) (reply-Yields _ _ _)))
              ]
        ]

    upload_operation-Yields : Answers (process_json_request_upload env clients req)
    unfolding process_json_request_upload
    upload_operation-Yields =
        bind-Yields Any (HasData env) _ _ (deref-Yields Any req.json_data c.d c.has_json tt)
          (λ d _. store_json_upload-Yields _ _)

    dispatch-Yields : (type : String) → Answers (dispatch env clients req type)
    unfolding dispatch
    dispatch-Yields type w = elim (Bool-cases (type == "query")) [
      | inl a ↦ rw (a, dispatch) (query_operation-Yields w)
      | inr a ↦ elim (Bool-cases (type == "download")) [
        | inl b ↦ rw (a, b, dispatch) (download_operation-Yields w)
        | inr b ↦ elim (Bool-cases (type == "upload")) [
          | inl u ↦ rw (a, b, u, dispatch) (upload_operation-Yields w)
          | inr u ↦ rw (a, b, u, dispatch) (fail-Yields _ _ _ w)
        ]
      ]
    ]

module _ (env : Services) (k : Working env) (clients : Clients env) where
  process_json_request-Yields :
      (req : JsonRequest)
      → IsComplete req
      → Yields (HasData env) (process_json_request env clients req)
  unfolding process_json_request
  process_json_request-Yields req c =
      bind-Yields Any (HasData env) _ _ (deref-Yields Any req.json_data c.d c.has_json tt) (λ d _.
        bind-Yields Any (HasData env) _ _ (time-Yields env) (λ t _.
          dispatch-Yields env k (record req { json_data = some (record d { received_at = t }) })
            (record {
              md = c.md;
              d = record d { received_at = t };
              has_message = c.has_message;
              has_json = refl;
            })
            clients d.type))

  pub on_json_request-returns :
      (s : env.Stream) (w : env.World)
      → ((bytes : Bytes)
          → (env.read_all s w).0 ≡ ok bytes
          → IsComplete (env.unmarshal_json_request bytes).0)
      → (on_json_request env clients s w).0 ≡ returned tt
  unfolding on_json_request inspect_json_request
  on_json_request-returns s w complete =
      serve_request-Yields env (inspect_json_request env) (process_json_request env clients)
        env.unmarshal_json_request json_response_protocol_name s w
        (λ bytes h.
          let c = complete bytes h in
          (
            (c.md, c.has_message),
            (λ v. rw (c.has_json, inspect_json_request) (tt, tt, refl)),
            process_json_request-Yields (env.unmarshal_json_request bytes).0 c,
          ))
