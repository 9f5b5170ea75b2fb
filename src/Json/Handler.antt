-- ===== src/Json/Handler.antt =====
-- onJsonRequest of backend/pkg/libp2pnode/jsonapi.go, on every branch.
use hackfs_mdc.Base.{
  ◌≡◌, refl, Bool, true, false, none, some, inl, inr, Option-cases, if◌then◌else◌,
}
use hackfs_mdc.Go.{returned, panicked}
use hackfs_mdc.Messages.{JsonRequest}
use hackfs_mdc.Messages.Envelope.{json_request_envelope, json_response_envelope}
use hackfs_mdc.Services.{Services}
use hackfs_mdc.Textile.{Clients}
use hackfs_mdc.Serve.Handling.{Handling, serve_request-Handling}
use hackfs_mdc.Json.{
  json_response_protocol_name, process_json_request, on_json_request, inspect_json_request,
}

abbrev pub has_json_data : JsonRequest → Bool
has_json_data req = elim req.json_data [ none ↦ false | some d ↦ true ]

module _ (env : Services) where
  inspect_lem :
      (req : JsonRequest) (w : env.World)
      → inspect_json_request env req w ≡ (if has_json_data req then returned tt else panicked, w)
  unfolding inspect_json_request
  inspect_lem req w = elim (Option-cases req.json_data) [
    | inl h ↦ rw (h, inspect_json_request) refl
    | inr (d, h) ↦ rw (h, inspect_json_request) refl
  ]

  pub on_json_request-Handling :
      (clients : Clients env) (s : env.Stream) (w : env.World)
      → Handling env
          (process_json_request env clients)
          env.unmarshal_json_request
          json_response_protocol_name
          has_json_data
          s
          w
          (on_json_request env clients s w)
  unfolding on_json_request
  on_json_request-Handling clients s w =
      serve_request-Handling env (process_json_request env clients) env.unmarshal_json_request
        json_response_protocol_name has_json_data (inspect_json_request env) inspect_lem s w
