-- ===== src/Download/Responses.antt =====
-- The response to a download request, on every branch.
use hackfs_mdc.Base.{
  ◌≡◌, refl, ◌⊎◌, inl, inr, String, false, some, List, ◌∷◌, arith, Bool-cases, length, is_empty,
}
use hackfs_mdc.Base.Int.{ℤ, pos, ltb_ℤ, ◌≤ℤ◌, ltb_ℤ→le}
use hackfs_mdc.Go.{ok, err}
use hackfs_mdc.Go.Laws.{Outcome-cases}
use hackfs_mdc.Common.{Error, error_text, get_millisecond}
use hackfs_mdc.Messages.{
  Bytes, MessageData, DownloadRequest, DownloadResponse, DownloadData, ContentData,
  ContentDeliveryData,
}
use hackfs_mdc.Services.{Services}
use hackfs_mdc.Node.{get_time_stamp_millisecond, get_ulid}
use hackfs_mdc.Node.Signing.{new_message_data_lem}
use hackfs_mdc.Textile.{Clients, pull_bytes_from_bucket}
use hackfs_mdc.Textile.Buckets.{pull-Extends, pull-reads}
use hackfs_mdc.Textile.Promises.{View, Extends, Extends-trans, Promises, with_bucket_key}
use hackfs_mdc.Content.{get_content_data_record_with_download_data}
use hackfs_mdc.Content.Lookup.{get_record-Extends, get_record-by_key}
use hackfs_mdc.Serve.{status_ok, status_internal_server_error}
use hackfs_mdc.Serve.Replies.{IsReply, Returns, own_reply}
use hackfs_mdc.Download.{
  get_download_response_with_error, download_response, deliver, look_up, process_download_request,
}

module _ (env : Services) (pk : Bytes) (keyed : env.host_pub_key_bytes ≡ ok pk)
    (clients : Clients env) (view : View env) (law : Promises env view) where
  open env use {World, unix_nano}
  open view use {content, records}

  pub record Delivers (dd : DownloadData) (received_at : ℤ) (cd : ContentData)
      (resp : DownloadResponse) (w' : World) : Type 0 where
    pub delivery : ContentDeliveryData
    pub delivered : resp.content_delivery_data ≡ some delivery
    pub described : resp.content_data ≡ some cd
    pub requester : delivery.requester_id ≡ dd.requester_id
    pub received : delivery.received_at ≡ received_at
    pub bytes_there : content w' cd.bucket_key cd.file_name ≡ some delivery.file_bytes
    pub long_enough : cd.file_size ≤ℤ pos (length delivery.file_bytes)

  -- The response to a download. Whatever it is, Textile is as it was. With status 200 it carries the
  -- first record with the bucket's key, where one is given, and the bytes that the record points
  -- to, at least as many as it declares.
  pub record DownloadAnswer (md : MessageData) (dd : DownloadData) (received_at : ℤ) (w : World)
      (resp : DownloadResponse) (w' : World) : Type 0 where
    pub reply : IsReply env md.id resp.message_data
    pub unchanged : Extends env view w w'
    pub outcome :
        ((resp.response_data ≡ some (record { code = status_ok; err = "" }))
          × ((cd : ContentData) × Delivers dd received_at cd resp w'
              × (is_empty dd.bucket_key ≡ false
                  → (rest : List ContentData) × (with_bucket_key dd.bucket_key (records w)
                      ≡ cd ∷ rest))))
        ⊎ ((text : String) × (resp.response_data
              ≡ some (record { code = status_internal_server_error; err = text })))

  error_lem :
      (req : DownloadRequest) (md : MessageData) (dd : DownloadData) (t : ℤ) (e : Error)
      → (u w : World) → req.message_data ≡ some md
      → Extends env view u w
      → let r = get_download_response_with_error env req status_internal_server_error e w in
        Returns (DownloadAnswer md dd t u) (Extends env view u) r.0 r.1
  unfolding get_download_response_with_error
  error_lem req md dd t e u w hm x =
      rw (hm, get_download_response_with_error)
        (rw (new_message_data_lem env pk md.id false w keyed) (record {
          reply = own_reply env pk keyed (unix_nano w).0 md.id;
          unchanged = Extends-trans env view u w _ x (law.clock_extends w);
          outcome = inr (error_text e, refl);
        }))

  success_lem :
      (req : DownloadRequest) (md : MessageData) (dd : DownloadData) (t : ℤ) (cd : ContentData)
      → (bytes : Bytes) (u w : World) → req.message_data ≡ some md
      → Extends env view u w
      → content w cd.bucket_key cd.file_name ≡ some bytes
      → cd.file_size ≤ℤ pos (length bytes)
      → (is_empty dd.bucket_key ≡ false
          → (rest : List ContentData) × (with_bucket_key dd.bucket_key (records u) ≡ cd ∷ rest))
      → let r = download_response env req dd t cd bytes w in
        Returns (DownloadAnswer md dd t u) (Extends env view u) r.0 r.1
  unfolding download_response get_time_stamp_millisecond get_ulid
  success_lem req md dd t cd bytes u w hm x there long first =
      let v = (unix_nano w).1 in
      let n = (unix_nano v).1 in
      let made = env.ulid_must_new (unix_nano v).0 n in
      let y =
        Extends-trans env view w v made.1 (law.clock_extends w)
          (Extends-trans env view v n made.1 (law.clock_extends v) (law.ulid_extends _ n)) in
      let z = Extends-trans env view w made.1 _ y (law.clock_extends made.1) in
      elim (Outcome-cases made.0) [
        | inl e ↦
            rw (hm, download_response)
              (rw (new_message_data_lem env pk md.id false w keyed)
                (rw e (Extends-trans env view u w _ x y)))
        | inr (ulid, e) ↦
            rw (hm, download_response)
              (rw (new_message_data_lem env pk md.id false w keyed) (
                rw e (record {
                  reply = own_reply env pk keyed (unix_nano w).0 md.id;
                  unchanged = Extends-trans env view u w _ x z;
                  outcome = inl (
                    refl,
                    (
                      cd,
                      record {
                        delivery = _;
                        delivered = refl;
                        described = refl;
                        requester = refl;
                        received = refl;
                        bytes_there = z.keeps _ _ bytes there;
                        long_enough = long;
                      },
                      first,
                    ),
                  );
                })))
      ]

  deliver_lem :
      (req : DownloadRequest) (md : MessageData) (dd : DownloadData) (t : ℤ) (cd : ContentData)
      → (u w : World) → req.message_data ≡ some md
      → Extends env view u w
      → (is_empty dd.bucket_key ≡ false
          → (rest : List ContentData) × (with_bucket_key dd.bucket_key (records u) ≡ cd ∷ rest))
      → let r = deliver env clients req dd t cd w in
        Returns (DownloadAnswer md dd t u) (Extends env view u) r.0 r.1
  unfolding deliver
  deliver_lem req md dd t cd u w hm x first =
      let pulling = pull_bytes_from_bucket env clients cd.bucket_key cd.file_name w in
      let pulled = pull-Extends env clients view law cd.bucket_key cd.file_name w in
      let y = Extends-trans env view u w pulling.1 x pulled in
      elim (Outcome-cases pulling.0) [
        | inl e ↦ rw (e, deliver) y
        | inr (err er, e) ↦ rw (e, deliver) (error_lem req md dd t _ u pulling.1 hm y)
        | inr (ok bytes, e) ↦ elim (Bool-cases (ltb_ℤ (pos (length bytes)) cd.file_size)) [
          | inl short ↦ rw (e, deliver) (rw short (error_lem req md dd t _ u pulling.1 hm y))
          | inr long ↦
              rw (e, deliver)
                (rw long (
                  success_lem req md dd t cd bytes u pulling.1 hm y
                    (pulled.keeps cd.bucket_key cd.file_name bytes (
                      pull-reads env clients view law cd.bucket_key cd.file_name bytes w pulling.1
                        (λ i. (e i, pulling.1))))
                    (ltb_ℤ→le (pos (length bytes)) cd.file_size long) first))
        ]
      ]

  look_up_lem :
      (req : DownloadRequest) (md : MessageData) (dd : DownloadData) (t : ℤ) (u w : World)
      → req.message_data ≡ some md
      → Extends env view u w
      → let r = look_up env clients req dd t w in
        Returns (DownloadAnswer md dd t u) (Extends env view u) r.0 r.1
  unfolding look_up
  look_up_lem req md dd t u w hm x =
      let finding = get_content_data_record_with_download_data env clients dd w in
      let y =
        Extends-trans env view u w finding.1 x (get_record-Extends env clients view law dd w) in
      elim (Outcome-cases finding.0) [
        | inl e ↦ rw (e, look_up) y
        | inr (err er, e) ↦ rw (e, look_up) (error_lem req md dd t _ u finding.1 hm y)
        | inr (ok cd, e) ↦
            rw (e, look_up)
              (deliver_lem req md dd t cd u finding.1 hm y (λ h. rw x.same_records at (
                get_record-by_key env clients view law dd cd w finding.1 h
                  (λ i. (e i, finding.1)))))
      ]

  -- A download request with its message data and its download data either gets a response over
  -- the host's message data under the request's ID, which is status 500, or status 200 with a
  -- content record, the first of its bucket key if one is given, and with the bytes that the
  -- record points to, at least as many as it declares; or a service panics. Textile keeps its
  -- bytes and records in each case.
  pub process_download_request_lem :
      (req : DownloadRequest) (md : MessageData) (dd : DownloadData) (w : World)
      → req.message_data ≡ some md
      → req.download_data ≡ some dd
      → let r = process_download_request env clients req w in
        Returns
          (DownloadAnswer md dd (get_millisecond (unix_nano w).0) w)
          (Extends env view w)
          r.0
          r.1
  unfolding process_download_request get_time_stamp_millisecond
  process_download_request_lem req md dd w hm hd =
      let v = (unix_nano w).1 in
      let t = get_millisecond (unix_nano w).0 in
      ground (arith, look_up_lem req md dd t w v hm (law.clock_extends w))
