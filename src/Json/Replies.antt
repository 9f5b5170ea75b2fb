-- ===== src/Json/Replies.antt =====
-- The responses of the JSON protocol: `getJsonResponseWithError` and `getJsonResponseWithJsonOutput`.
use hackfs_mdc.Base.{◌≡◌, false, some, arith}
use hackfs_mdc.Base.Int.{ℤ}
use hackfs_mdc.Go.{ok, returned}
use hackfs_mdc.Common.{Error, error_text, get_millisecond}
use hackfs_mdc.Messages.{Bytes, MessageData, JsonRequest, JsonResponse, JsonData, zero_json_data}
use hackfs_mdc.Services.{Services}
use hackfs_mdc.Node.{get_time_stamp_millisecond}
use hackfs_mdc.Node.Signing.{own_data, new_message_data_lem}
use hackfs_mdc.Serve.{status_ok}
use hackfs_mdc.Json.{get_json_response_with_error, get_json_response_with_json_output}

module _ (env : Services) where
  open env use {World, unix_nano}

  abbrev pub output_data : JsonData → Bytes → World → JsonData
  output_data jd out w = record {
    id = "";
    requester_id = jd.requester_id;
    type = jd.type;
    json_input = "";
    json_output = env.string_of_bytes out;
    received_at = jd.received_at;
    updated_at = get_millisecond (unix_nano (unix_nano w).1).0;
  }

module _ (env : Services) (pk : Bytes) where
  open env use {World, unix_nano}

  abbrev pub error_response : MessageData → ℤ → Error → World → JsonResponse
  error_response md code e w = record {
    message_data = some (own_data env pk (unix_nano w).0 md.id false);
    response_data = some (record { code = code; err = error_text e });
    json_data = some zero_json_data;
  }

  abbrev pub output_response : MessageData → JsonData → Bytes → World → JsonResponse
  output_response md jd out w = record {
    message_data = some (own_data env pk (unix_nano w).0 md.id false);
    response_data = some (record { code = status_ok; err = "" });
    json_data = some (output_data env jd out w);
  }

module _ (env : Services) (pk : Bytes) (keyed : env.host_pub_key_bytes ≡ ok pk) where
  open env use {World, unix_nano}

  pub error_lem :
      (req : JsonRequest) (md : MessageData) (code : ℤ) (e : Error) (w : World)
      → req.message_data ≡ some md
      → get_json_response_with_error env req code e w
        ≡ (returned (error_response env pk md code e w), (unix_nano w).1)
  unfolding get_json_response_with_error
  error_lem req md code e w h = ground (arith, new_message_data_lem env pk md.id false w keyed)

  pub output_lem :
      (req : JsonRequest) (md : MessageData) (jd : JsonData) (out : Bytes) (w : World)
      → req.message_data ≡ some md
      → req.json_data ≡ some jd
      → get_json_response_with_json_output env req out w
        ≡ (returned (output_response env pk md jd out w), (unix_nano (unix_nano w).1).1)
  unfolding get_json_response_with_json_output get_time_stamp_millisecond
  output_lem req md jd out w h g = ground (arith, new_message_data_lem env pk md.id false w keyed)
