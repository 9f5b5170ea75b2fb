-- ===== src/Json/Effects.antt =====
-- What the JSON protocol's replies and look-ups leave as it was.
use hackfs_mdc.Base.{String, false, Option, none, some, inl, inr, Option-cases, Bool-cases, length}
use hackfs_mdc.Base.Int.{ℤ, pos, ltb_ℤ}
use hackfs_mdc.Go.{Result, ok, err}
use hackfs_mdc.Go.Laws.{Outcome-cases}
use hackfs_mdc.Common.{Caller, Error}
use hackfs_mdc.Messages.{Bytes, JsonRequest, JsonQuery, ContentData, DownloadData}
use hackfs_mdc.Messages.Envelope.{json_request_envelope, json_response_envelope}
use hackfs_mdc.Services.{Services, Found}
use hackfs_mdc.Node.{new_message_data, get_time_stamp_millisecond}
use hackfs_mdc.Textile.{Clients, pull_bytes_from_bucket, query_with_json_api_query}
use hackfs_mdc.Textile.Buckets.{pull-Extends}
use hackfs_mdc.Textile.Queries.{query-Extends}
use hackfs_mdc.Textile.Promises.{View, Extends, Extends-refl, Extends-trans, Promises}
use hackfs_mdc.Content.{get_content_data_record_with_download_data}
use hackfs_mdc.Content.Lookup.{get_record-Extends}
use hackfs_mdc.Serve.{status_internal_server_error}
use hackfs_mdc.Serve.Effects.{new_message_data-Extends}
use hackfs_mdc.Json.{
  get_json_response_with_error, get_json_response_with_json_output, fail, reply, reply_found,
  run_json_query, find_json, deliver_json,
}

module _ (env : Services) (clients : Clients env) (view : View env) (law : Promises env view) where
  open env use {World}

  pub error-Extends :
      (req : JsonRequest) (code : ℤ) (e : Error) (w : World)
      → Extends env view w (get_json_response_with_error env req code e w).1
  unfolding get_json_response_with_error
  error-Extends req code e w = elim (Option-cases req.message_data) [
    | inl h ↦ rw (h, get_json_response_with_error) (Extends-refl env view w)
    | inr (md, h) ↦
        let x = new_message_data-Extends env view law md.id false w in
        elim (Outcome-cases (new_message_data env md.id false w).0) [
          | inl f ↦ rw (h, get_json_response_with_error) (rw (f, get_json_response_with_error) x)
          | inr (d, f) ↦
              rw (h, get_json_response_with_error) (rw (f, get_json_response_with_error) x)
        ]
  ]

  pub output-Extends :
      (req : JsonRequest) (b : Bytes) (w : World)
      → Extends env view w (get_json_response_with_json_output env req b w).1
  unfolding get_json_response_with_json_output get_time_stamp_millisecond
  output-Extends req b w = elim (Option-cases req.message_data) [
    | inl h ↦ rw (h, get_json_response_with_json_output) (Extends-refl env view w)
    | inr (md, h) ↦
        let made = new_message_data env md.id false w in
        let x = new_message_data-Extends env view law md.id false w in
        elim (Outcome-cases made.0) [
          | inl f ↦
              rw (h, get_json_response_with_json_output)
                (rw (f, get_json_response_with_json_output) x)
          | inr (own, f) ↦ elim (Option-cases req.json_data) [
            | inl g ↦
                rw (h, get_json_response_with_json_output)
                  (rw (f, get_json_response_with_json_output)
                    (rw (g, get_json_response_with_json_output) x))
            | inr (d, g) ↦
                rw (h, get_json_response_with_json_output)
                  (rw (f, get_json_response_with_json_output)
                    (rw (g, get_json_response_with_json_output)
                      (Extends-trans env view w made.1 _ x (law.clock_extends made.1))))
          ]
        ]
  ]

  pub fail-Extends :
      (req : JsonRequest) (caller : Option Caller) (e : Option Error) (msg : String) (w : World)
      → Extends env view w (fail env req caller e msg w).1
  unfolding fail
  fail-Extends req caller e msg w = error-Extends req status_internal_server_error _ w

  pub reply-Extends :
      (req : JsonRequest) (caller : Option Caller) (r : Result Error Bytes) (w : World)
      → Extends env view w (reply env req caller r w).1
  unfolding reply
  reply-Extends req caller (err e) w = fail-Extends req caller (some e) "json.Marshal failed" w
  reply-Extends req caller (ok b) w = output-Extends req b w

  reply_found-Extends :
      (req : JsonRequest) (f : Found) (w : World) → Extends env view w (reply_found env req f w).1
  unfolding reply_found
  reply_found-Extends req Found.nil w = fail-Extends req _ none _ w
  reply_found-Extends req Found.other w = fail-Extends req _ none _ w
  reply_found-Extends req (Found.content_datas ds) w =
      reply-Extends req _ (env.json_marshal_content_datas ds) w

  pub run_query-Extends :
      (req : JsonRequest) (jq : JsonQuery) (w : World)
      → Extends env view w (run_json_query env clients req jq w).1
  unfolding run_json_query
  run_query-Extends req jq w =
      let asked = query_with_json_api_query env clients jq w in
      let x = query-Extends env clients view law jq w in
      elim (Outcome-cases asked.0) [
        | inl e ↦ rw (e, run_json_query) x
        | inr (res, e) ↦ elim (Option-cases res.1) [
          | inr (er, f) ↦
              rw (e, run_json_query)
                (rw (f, run_json_query)
                  (Extends-trans env view w asked.1 _ x (fail-Extends req _ _ _ asked.1)))
          | inl f ↦
              rw (e, run_json_query)
                (rw (f, run_json_query)
                  (Extends-trans env view w asked.1 _ x (reply_found-Extends req res.0 asked.1)))
        ]
      ]

  deliver_json-Extends :
      (req : JsonRequest) (cd : ContentData) (w : World)
      → Extends env view w (deliver_json env clients req cd w).1
  unfolding deliver_json
  deliver_json-Extends req cd w =
      let pulling = pull_bytes_from_bucket env clients cd.bucket_key cd.file_name w in
      let x = pull-Extends env clients view law cd.bucket_key cd.file_name w in
      elim (Outcome-cases pulling.0) [
        | inl e ↦ rw (e, deliver_json) x
        | inr (err er, e) ↦
            rw (e, deliver_json)
              (Extends-trans env view w pulling.1 _ x (fail-Extends req _ _ _ pulling.1))
        | inr (ok b, e) ↦ elim (Bool-cases (ltb_ℤ (pos (length b)) cd.file_size)) [
          | inl short ↦
              rw (e, deliver_json)
                (rw short
                  (Extends-trans env view w pulling.1 _ x (fail-Extends req _ _ _ pulling.1)))
          | inr long ↦
              rw (e, deliver_json)
                (rw long (
                  Extends-trans env view w pulling.1 _ x
                    (reply-Extends req _ (env.json_marshal_bytes b) pulling.1)))
        ]
      ]

  pub find_json-Extends :
      (req : JsonRequest) (d : DownloadData) (w : World)
      → Extends env view w (find_json env clients req d w).1
  unfolding find_json
  find_json-Extends req d w =
      let finding = get_content_data_record_with_download_data env clients d w in
      let x = get_record-Extends env clients view law d w in
      elim (Outcome-cases finding.0) [
        | inl e ↦ rw (e, find_json) x
        | inr (err er, e) ↦
            rw (e, find_json)
              (Extends-trans env view w finding.1 _ x (fail-Extends req _ _ _ finding.1))
        | inr (ok cd, e) ↦
            rw (e, find_json)
              (Extends-trans env view w finding.1 _ x (deliver_json-Extends req cd finding.1))
      ]
