-- ===== src/Examples/JsonRuns.antt =====
-- The theorem on JSON uploads at a concrete request, whose input cannot be unmarshalled.
use hackfs_mdc.Base.{false, some, []}
use hackfs_mdc.Base.Int.{pos}
use hackfs_mdc.Messages.{JsonRequest, JsonData, UploadData}
use hackfs_mdc.Examples.Runs.{message_data, upload_data}

abbrev pub json_data : JsonData
json_data = record {
  id = "";
  requester_id = "bob";
  type = "upload";
  json_input = "alice";
  json_output = "";
  received_at = pos 0;
  updated_at = pos 0;
}

abbrev json_request : JsonRequest
json_request = record { message_data = some message_data; json_data = some json_data }

-- What the unmarshal fills in, beside its error.
abbrev filled_in : UploadData
filled_in = record upload_data {
  file_name = "";
  file_size = pos 0;
  file_bytes = [];
  generate_preview = false;
}
