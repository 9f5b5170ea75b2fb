-- ===== src/Json/Reads.antt =====
-- The responses to the JSON requests that only read: queries and downloads, on every branch.
use hackfs_mdc.Base.{
  ◌≡◌, refl, inl, inr, String, false, Option, none, some, List, ◌∷◌, arith, Bool-cases,
  Option-cases, length, is_empty, ◌==◌, ==_iff,
}
use hackfs_mdc.Base.Int.{pos, ltb_ℤ, ltb_ℤ→le}
use hackfs_mdc.Go.{Outcome, Result, ok, err, returned}
use hackfs_mdc.Go.Laws.{Outcome-cases}
use hackfs_mdc.Common.{Caller, Error, get_millisecond}
use hackfs_mdc.Messages.{
  Bytes, MessageData, JsonRequest, JsonResponse, JsonData, JsonQuery, ContentData, DownloadData,
}
use hackfs_mdc.Services.{Services, Found}
use hackfs_mdc.Node.{get_time_stamp_millisecond}
use hackfs_mdc.Textile.{Clients, pull_bytes_from_bucket, query_with_json_api_query}
use hackfs_mdc.Textile.Buckets.{pull-Extends, pull-reads}
use hackfs_mdc.Textile.Queries.{query-Extends}
use hackfs_mdc.Textile.Promises.{View, Extends, Extends-trans, Promises, with_bucket_key}
use hackfs_mdc.Content.{get_content_data_record_with_download_data}
use hackfs_mdc.Content.Lookup.{get_record-Extends, get_record-by_key}
use hackfs_mdc.Serve.{status_internal_server_error}
use hackfs_mdc.Serve.Replies.{Returns, own_reply}
use hackfs_mdc.Json.ReadAnswer.{Output, found, fetched, ReadAnswer}
use hackfs_mdc.Json.Replies.{error_lem, output_data, output_lem}
use hackfs_mdc.Json.{
  fail, reply, reply_found, run_json_query, process_json_request_query, deliver_json, find_json,
  process_json_request_download, dispatch, process_json_request,
}

module _ (env : Services) (pk : Bytes) (keyed : env.host_pub_key_bytes ≡ ok pk)
    (clients : Clients env) (view : View env) (law : Promises env view) where
  open env use {World, unix_nano}
  open view use {content, records}

  module _ (req : JsonRequest) (md : MessageData) (jd : JsonData) (u : World)
      (hm : req.message_data ≡ some md) (hj : req.json_data ≡ some jd) where
    abbrev Reads : Outcome JsonResponse × World → Type 0
    Reads r = Returns (ReadAnswer env clients view md jd u) (Extends env view u) r.0 r.1

    fail_read :
        (caller : Option Caller) (e : Option Error) (msg : String) (w : World)
        → Extends env view u w
        → Reads (fail env req caller e msg w)
    unfolding fail
    fail_read caller e msg w x =
        rw (error_lem env pk keyed req md status_internal_server_error _ w hm) (record {
          reply_to = own_reply env pk keyed (unix_nano w).0 md.id;
          unchanged = Extends-trans env view u w _ x (law.clock_extends w);
          outcome = inr (_, refl);
        })

    reply_read :
        (caller : Option Caller) (r : Result Error Bytes) (w : World)
        → Extends env view u w
        → ((out : Bytes) (w' : World)
            → r ≡ ok out
            → Extends env view w w'
            → Output env clients view jd u w' out)
        → Reads (reply env req caller r w)
    unfolding reply
    reply_read caller (err e) w x stands = fail_read caller (some e) "json.Marshal failed" w x
    reply_read caller (ok out) w x stands =
        let v = (unix_nano w).1 in
        let y = Extends-trans env view w v _ (law.clock_extends w) (law.clock_extends v) in
        rw (output_lem env pk keyed req md jd out w hm hj) (record {
          reply_to = own_reply env pk keyed (unix_nano w).0 md.id;
          unchanged = Extends-trans env view u w _ x y;
          outcome = inl (
            refl,
            record {
              out = out;
              answer = output_data env jd out w;
              answered = refl;
              requester = refl;
              printed = refl;
              stands_for = stands out _ refl y;
            },
          );
        })

    module _ (is_query : jd.type ≡ "query") where
      found_read :
          (jq : JsonQuery) (v x w : World) (f : Found)
          → env.json_unmarshal_query jd.json_input ≡ (jq, none)
          → Extends env view u v
          → query_with_json_api_query env clients jq v ≡ (returned (f, none), x)
          → Extends env view u w
          → Reads (reply_found env req f w)
      unfolding reply_found
      found_read jq v x w Found.nil hq hv asked y = fail_read _ _ _ w y
      found_read jq v x w Found.other hq hv asked y = fail_read _ _ _ w y
      found_read jq v x w (Found.content_datas ds) hq hv asked y =
          reply_read _ (env.json_marshal_content_datas ds) w y
            (λ out w' h z. found jq ds v x is_query hq hv asked h)

      query_read :
          (w : World) → Extends env view u w → Reads (process_json_request_query env clients req w)
      unfolding process_json_request_query run_json_query
      query_read w x = elim (Option-cases (env.json_unmarshal_query jd.json_input).1) [
        | inr (e, h) ↦
            rw (hj, process_json_request_query)
              (rw (h, process_json_request_query) (fail_read _ _ _ w x))
        | inl h ↦
            let jq = (env.json_unmarshal_query jd.json_input).0 in
            let w1 = (query_with_json_api_query env clients jq w).1 in
            let y = Extends-trans env view u w w1 x (query-Extends env clients view law jq w) in
            rw (hj, process_json_request_query)
              (rw (h, process_json_request_query)
                (elim (Outcome-cases (query_with_json_api_query env clients jq w).0) [
                  | inl e ↦ rw (e, run_json_query) y
                  | inr ((f, some er), e) ↦ rw (e, run_json_query) (fail_read _ _ _ w1 y)
                  | inr ((f, none), e) ↦
                      rw (e, run_json_query)
                        (found_read jq w w1 w1 f (λ i. (jq, h i)) x (λ i. (e i, w1)) y)
                ]))
      ]

    module _ (is_download : jd.type ≡ "download") where
      abbrev First : DownloadData → ContentData → Type 0
      First dd cd =
          is_empty dd.bucket_key ≡ false
          → (rest : List ContentData) × (with_bucket_key dd.bucket_key (records u) ≡ cd ∷ rest)

      deliver_read :
          (cd : ContentData) (w : World)
          → Extends env view u w
          → First (env.json_unmarshal_download jd.json_input).0 cd
          → Reads (deliver_json env clients req cd w)
      unfolding deliver_json
      deliver_read cd w x first =
          let pulling = pull_bytes_from_bucket env clients cd.bucket_key cd.file_name w in
          let pulled = pull-Extends env clients view law cd.bucket_key cd.file_name w in
          let y = Extends-trans env view u w pulling.1 x pulled in
          elim (Outcome-cases pulling.0) [
            | inl e ↦ rw (e, deliver_json) y
            | inr (err er, e) ↦ rw (e, deliver_json) (fail_read _ _ _ pulling.1 y)
            | inr (ok bytes, e) ↦ elim (Bool-cases (ltb_ℤ (pos (length bytes)) cd.file_size)) [
              | inl short ↦ rw (e, deliver_json) (rw short (fail_read _ _ _ pulling.1 y))
              | inr long ↦
                  let there =
                    pull-reads env clients view law cd.bucket_key cd.file_name bytes w pulling.1
                      (λ i. (e i, pulling.1)) in
                  rw (e, deliver_json)
                    (rw long (
                      reply_read _ (env.json_marshal_bytes bytes) pulling.1 y (λ out w' h z.
                        fetched cd bytes is_download
                          (z.keeps _ _ bytes (pulled.keeps _ _ bytes there))
                          (ltb_ℤ→le (pos (length bytes)) cd.file_size long) first h)))
            ]
          ]

      download_read :
          (w : World)
          → Extends env view u w
          → Reads (process_json_request_download env clients req w)
      unfolding process_json_request_download find_json
      download_read w x =
          let dd = (env.json_unmarshal_download jd.json_input).0 in
          let finding = get_content_data_record_with_download_data env clients dd w in
          let y =
            Extends-trans env view u w finding.1 x (get_record-Extends env clients view law dd w) in
          rw (hj, process_json_request_download)
            (elim (Outcome-cases finding.0) [
              | inl e ↦ rw (e, find_json) y
              | inr (err er, e) ↦ rw (e, find_json) (fail_read _ _ _ finding.1 y)
              | inr (ok cd, e) ↦
                  rw (e, find_json)
                    (deliver_read cd finding.1 y (λ h. rw x.same_records at (
                      get_record-by_key env clients view law dd cd w finding.1 h
                        (λ i. (e i, finding.1)))))
            ])

    dispatch_read :
        (type : String) (w : World)
        → jd.type ≡ type
        → (type == "upload") ≡ false
        → Extends env view u w
        → Reads (dispatch env clients req type w)
    unfolding dispatch
    dispatch_read type w same other x = elim (Bool-cases (type == "query")) [
      | inl a ↦
          let is : jd.type ≡ "query" = ground (arith, ==_iff type "query") in
          rw (a, dispatch) (query_read is w x)
      | inr a ↦ elim (Bool-cases (type == "download")) [
        | inl b ↦
            let is : jd.type ≡ "download" = ground (arith, ==_iff type "download") in
            rw (a, b, dispatch) (download_read is w x)
        | inr b ↦ rw (a, b, other, dispatch) (fail_read _ _ _ w x)
      ]
    ]

  -- A JSON request that is no upload, with its message data and its JSON data, either gets a
  -- response over the host's message data under the request's ID, which is status 500, or status
  -- 200 whose output stands for the records that its query finds, or for bytes that a content
  -- record points to, at least as many as it declares, which is the first record of the bucket
  -- key if one is given; or a service panics. Textile keeps its bytes and records in each case.
  pub process_json_request_read_lem :
      (req : JsonRequest) (md : MessageData) (jd : JsonData) (w : World)
      → req.message_data ≡ some md
      → req.json_data ≡ some jd
      → (jd.type == "upload") ≡ false
      → let t = get_millisecond (unix_nano w).0 in
        let r = process_json_request env clients req w in
        Returns
          (ReadAnswer env clients view md (record jd { received_at = t }) w)
          (Extends env view w)
          r.0
          r.1
  unfolding process_json_request get_time_stamp_millisecond
  process_json_request_read_lem req md jd w hm hj other =
      let jd' = record jd { received_at = get_millisecond (unix_nano w).0 } in
      rw (hj, process_json_request)
        (dispatch_read (record req { json_data = some jd' }) md jd' w hm refl jd.type
          (unix_nano w).1 refl other (law.clock_extends w))
