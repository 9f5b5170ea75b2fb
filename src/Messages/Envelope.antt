-- ===== src/Messages/Envelope.antt =====
-- What the six messages share: the message data that every one of them points to, and the dynamic
-- type under which they go to protobuf.
use hackfs_mdc.Base.{◌≡◌, refl, sym, Option, some}
use hackfs_mdc.Messages.{MessageData, Message, UploadRequest, UploadResponse}
use hackfs_mdc.Messages.{DownloadRequest, DownloadResponse, JsonRequest, JsonResponse}

-- `put m d` is `m` after a write through its pointer to the message data.
pub record Envelope (M : Type 0) : Type 0 where
  pub get : M → Option MessageData
  pub put : M → MessageData → M
  pub message : M → Message
  pub get-put : (m : M) (d : MessageData) → get (put m d) ≡ some d
  pub put-get : (m : M) (d : MessageData) → get m ≡ some d → put m d ≡ m
  pub put-put : (m : M) (d e : MessageData) → put (put m d) e ≡ put m e

instance abbrev pub upload_request_envelope : Envelope UploadRequest
upload_request_envelope = record {
  get = λ m. m.message_data;
  put = λ m d. record m { message_data = some d };
  message = Message.upload_request;
  get-put = λ m d. refl;
  put-get = λ m d e i. record m { message_data = sym e i };
  put-put = λ m d e. refl;
}

instance abbrev pub upload_response_envelope : Envelope UploadResponse
upload_response_envelope = record {
  get = λ m. m.message_data;
  put = λ m d. record m { message_data = some d };
  message = Message.upload_response;
  get-put = λ m d. refl;
  put-get = λ m d e i. record m { message_data = sym e i };
  put-put = λ m d e. refl;
}

instance abbrev pub download_request_envelope : Envelope DownloadRequest
download_request_envelope = record {
  get = λ m. m.message_data;
  put = λ m d. record m { message_data = some d };
  message = Message.download_request;
  get-put = λ m d. refl;
  put-get = λ m d e i. record m { message_data = sym e i };
  put-put = λ m d e. refl;
}

instance abbrev pub download_response_envelope : Envelope DownloadResponse
download_response_envelope = record {
  get = λ m. m.message_data;
  put = λ m d. record m { message_data = some d };
  message = Message.download_response;
  get-put = λ m d. refl;
  put-get = λ m d e i. record m { message_data = sym e i };
  put-put = λ m d e. refl;
}

instance abbrev pub json_request_envelope : Envelope JsonRequest
json_request_envelope = record {
  get = λ m. m.message_data;
  put = λ m d. record m { message_data = some d };
  message = Message.json_request;
  get-put = λ m d. refl;
  put-get = λ m d e i. record m { message_data = sym e i };
  put-put = λ m d e. refl;
}

instance abbrev pub json_response_envelope : Envelope JsonResponse
json_response_envelope = record {
  get = λ m. m.message_data;
  put = λ m d. record m { message_data = some d };
  message = Message.json_response;
  get-put = λ m d. refl;
  put-get = λ m d e i. record m { message_data = sym e i };
  put-put = λ m d e. refl;
}
