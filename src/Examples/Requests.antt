-- ===== src/Examples/Requests.antt =====
-- The requester's theorems at concrete requests, responses and channels.
use hackfs_mdc.Base.{
  ◌≡◌, refl, ◌+◌, String, true, false, none, some, [], ◌∷◌, arith, if◌then◌else◌, ==_iff,
}
use hackfs_mdc.Base.Int.{pos}
use hackfs_mdc.Go.{ok, panicked}
use hackfs_mdc.Messages.{MessageData, UploadRequest, UploadResponse}
use hackfs_mdc.Messages.Envelope.{upload_request_envelope, upload_response_envelope}
use hackfs_mdc.Node.{get_ulid}
use hackfs_mdc.Serve.Replies.{Returns}
use hackfs_mdc.Upload.{upload_request_protocol_name}
use hackfs_mdc.Client.{Exchange, new_exchange, settle, register, has_request, send_request}
use hackfs_mdc.Client.Delivery.{settle-settle}
use hackfs_mdc.Client.Race.{answers, count, arrive, count-register}
use hackfs_mdc.Client.Sending.{SendAnswer, send_request_lem}
use hackfs_mdc.HttpProxy.{FormFile, UploadForm, received, waiting, wait}
use hackfs_mdc.HttpProxy.Waiting.{Waits, wait-Waits, wait-wait}
use hackfs_mdc.Examples.Cloud.{cloud, host_keys}
use hackfs_mdc.Examples.Runs.{message_data, upload_data, request, start, upload_answer, reply_data}
use hackfs_mdc.Examples.Serving.{signed_answer}

-- An exchange that waits for the response to "m1".
abbrev pub waiting_for_m1 : Exchange UploadRequest UploadResponse
waiting_for_m1 = record { requests = ("m1", request) ∷ []; channel = [] }

settle-settle_example :
    settle (settle waiting_for_m1 "m1" signed_answer) "m1" upload_answer
    ≡ settle waiting_for_m1 "m1" signed_answer
settle-settle_example = settle-settle waiting_for_m1 "m1" signed_answer upload_answer

abbrev make : MessageData → UploadRequest
make md = record { message_data = some md; upload_data = some upload_data }

send_request_lem_example :
    let r =
      send_request
        (cloud request)
        none
        "peer"
        upload_request_protocol_name
        make
        waiting_for_m1
        start in
    Returns
      (SendAnswer
        (cloud request)
        (7 ∷ [])
        refl
        (host_keys request)
        none
        "peer"
        upload_request_protocol_name
        make
        (λ md. refl)
        waiting_for_m1
        start)
      (λ w'. (get_ulid (cloud request) start).0 ≡ panicked)
      r.0
      r.1
send_request_lem_example =
    send_request_lem (cloud request) (7 ∷ []) refl (host_keys request) none "peer"
      upload_request_protocol_name make (λ md. refl) waiting_for_m1 start

-- The ID of the request that a response answers.
abbrev pub response_id : UploadResponse → String
response_id resp = elim resp.message_data [ none ↦ "" | some d ↦ d.id ]

abbrev pub other_data : MessageData
other_data = record (reply_data (pos 1)) { id = "m2" }

abbrev pub other_answer : UploadResponse
other_answer = record upload_answer { message_data = some other_data }

count-register_example :
    let sent = register (arrive response_id (upload_answer ∷ []) new_exchange) "m1" request in
    let end = arrive response_id (other_answer ∷ []) sent in
    (count response_id "m1" end.channel
      ≡ 0 + (if answers response_id "m1" (other_answer ∷ []) then 1 else 0))
    × (has_request "m1" end.requests
        ≡ (if answers response_id "m1" (other_answer ∷ []) then false else true))
unfolding count has_request
count-register_example =
    count-register response_id "m1" request (upload_answer ∷ []) (other_answer ∷ []) new_exchange
      refl

wait-Waits_example :
    Waits "m1" (other_answer ∷ upload_answer ∷ []) (wait "m1" (other_answer ∷ upload_answer ∷ []))
wait-Waits_example = wait-Waits "m1" (other_answer ∷ upload_answer ∷ [])

wait-wait_example :
    let channel = other_answer ∷ upload_answer ∷ [] in
    (wait "m1" channel ≡ received upload_answer [])
    × (wait {Resp = UploadResponse} "m2" [] ≡ waiting)
    × (wait "m2" channel ≡ received other_answer (upload_answer ∷ []))
    × (wait "m1" (upload_answer ∷ []) ≡ received upload_answer [])
wait-wait_example =
    wait-wait other_answer upload_answer other_data (reply_data (pos 1)) refl refl
      (λ h. ground (arith, ==_iff "m2" "m1"))

abbrev cat : FormFile
cat = record { file_name = "cat.png"; read = ok (3 ∷ 4 ∷ []) }

abbrev form : UploadForm
form = record { file = some cat; owner_id = some "alice"; description = none }
