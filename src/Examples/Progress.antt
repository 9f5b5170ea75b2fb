-- ===== src/Examples/Progress.antt =====
-- Bounds, choices and waits at concrete inputs.
use hackfs_mdc.Base.{◌≡◌, refl, List, [], ◌∷◌, arith}
use hackfs_mdc.Base.Int.{pos}
use hackfs_mdc.Go.Laws.{Ends}
use hackfs_mdc.Messages.{UploadResponse}
use hackfs_mdc.Messages.Envelope.{upload_response_envelope}
use hackfs_mdc.Preview.{get_preview_from}
use hackfs_mdc.Preview.Choice.{choice, make, get_preview_from-choice}
use hackfs_mdc.Content.{store_content}
use hackfs_mdc.Content.Clock.{Clock}
use hackfs_mdc.Content.Times.{Timed, store_content-Timed}
use hackfs_mdc.Upload.{upload_places}
use hackfs_mdc.Client.{new_exchange, register, has_request}
use hackfs_mdc.Client.Race.{answers, arrive}
use hackfs_mdc.HttpProxy.{received, wait}
use hackfs_mdc.HttpProxy.Arrival.{wait-arrive}
use hackfs_mdc.Examples.Cloud.{cloud, clients}
use hackfs_mdc.Examples.Runs.{request, upload_data, start, upload_answer, reply_data}
use hackfs_mdc.Examples.Requests.{response_id, other_data, other_answer}

get_preview_from-choice_example :
    get_preview_from (cloud request) (clients request) upload_data start
    ≡ make (cloud request) (clients request) (choice (cloud request) upload_data) upload_data start
get_preview_from-choice_example =
    get_preview_from-choice (cloud request) (clients request) upload_data start

-- The clock of the cloud, which every read of it moves on.
abbrev clock : Clock (cloud request)
clock = record {
  now = λ w. w.clock;
  told = λ w. refl;
  reading = λ w. omega arith;
  ulid = λ t w. omega arith;
  create = λ c t n d w. omega arith;
  init = λ c n p w. omega arith;
  push = λ c k p b w. omega arith;
  links = λ c k w. omega arith;
  temp_dir = λ p w. omega arith;
  remove_all = λ p w. omega arith;
  write_file = λ p b w. omega arith;
  transcoder_init = λ w. omega arith;
  set_input_path = λ p w. omega arith;
  create_output_pipe = λ p w. omega arith;
  run_transcoder = λ w. omega arith;
  read_pipe = λ p w. omega arith;
  reader_assigns_last = λ w. omega arith;
}

store_content-Timed_example :
    let r =
      store_content (cloud request) (clients request) upload_places (pos 1000) upload_data start in
    Ends
      (Timed (cloud request) clock (clients request) (pos 1000) start.clock)
      (λ w. Unit {0})
      r.0
      r.1
store_content-Timed_example =
    store_content-Timed (cloud request) clock (clients request) upload_places (pos 1000) upload_data
      start

wait-arrive_example :
    let sent = register (arrive response_id (upload_answer ∷ []) new_exchange) "m1" request in
    let end = arrive response_id (other_answer ∷ upload_answer ∷ []) sent in
    (x : UploadResponse) × (rest : List UploadResponse) × (wait "m1" end.channel ≡ received x rest)
    × (response_id x ≡ "m1")
unfolding has_request answers
wait-arrive_example =
    wait-arrive response_id "m1" request (upload_answer ∷ []) (other_answer ∷ upload_answer ∷ [])
      new_exchange refl ((reply_data (pos 1), refl, refl), tt)
      ((other_data, refl, refl), ((reply_data (pos 1), refl, refl), tt)) tt refl
