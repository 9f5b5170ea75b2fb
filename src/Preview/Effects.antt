-- ===== src/Preview/Effects.antt =====
-- What the making of a preview leaves as it was.
use hackfs_mdc.Base.{String, Bool, Option, inl, inr, false, arith}
use hackfs_mdc.Base.Int.{ℤ}
use hackfs_mdc.Go.{ok, err, pure, ◌>>=◌}
use hackfs_mdc.Go.Laws.{Result-cases, Outcome-cases}
use hackfs_mdc.Common.{Error}
use hackfs_mdc.Messages.{Bytes, UploadData}
use hackfs_mdc.Services.{Services}
use hackfs_mdc.Textile.{Clients, create_bucket_and_push_data}
use hackfs_mdc.Node.{get_ulid}
use hackfs_mdc.Preview.{
  Preview, get_thumbnail_from_bytes, new_bucket_name, generate_preview_from,
  generate_fake_preview_from, generate_image_preview_from, generate_video_preview_from,
  preview_by_media, preview_by_type, preview_from_bytes, get_preview_from,
}
use hackfs_mdc.Preview.Video.{transcode, open_pipe, gif_in_dir, gif_from_dir, get_gif_from_bytes}

-- A property of worlds that every service which a preview calls keeps.
pub record Frame (env : Services) (clients : Clients env) (P : env.World → Type 0) : Type 0 where
  pub clock : (w : env.World) → P w → P (env.unix_nano w).1
  pub ulid : (t : ℤ) (w : env.World) → P w → P (env.ulid_must_new t w).1
  pub push :
      (name path : String) (b : Bytes) (private : Bool) (w : env.World)
      → P w
      → P (create_bucket_and_push_data env clients name path b private w).1
  pub temp_dir : (p : String) (w : env.World) → P w → P (env.temp_dir p w).1
  pub remove_all : (p : String) (w : env.World) → P w → P (env.remove_all p w)
  pub write_file : (p : String) (b : Bytes) (w : env.World) → P w → P (env.write_file p b w).1
  pub transcoder_init : (w : env.World) → P w → P (env.transcoder_init w).1
  pub set_input_path : (p : String) (w : env.World) → P w → P (env.set_input_path p w).1
  pub create_output_pipe : (p : String) (w : env.World) → P w → P (env.create_output_pipe p w).1
  pub run_transcoder : (w : env.World) → P w → P (env.run_transcoder w).1
  pub read_pipe : (p : env.Pipe) (w : env.World) → P w → P (env.read_pipe p w).1
  pub reader_assigns_last : (w : env.World) → P w → P (env.reader_assigns_last w).1

module _ (env : Services) (clients : Clients env) (P : env.World → Type 0)
    (frame : Frame env clients P) where
  open env use {World}

  transcode-keeps : (r : env.Pipe) (w : World) → P w → P (transcode env r w).1
  unfolding transcode
  transcode-keeps r w p =
      let p1 = frame.run_transcoder w p in
      let p2 = frame.read_pipe r _ p1 in
      let p3 = frame.reader_assigns_last _ p2 in ground (arith, p1, p2, p3)

  open_pipe-keeps : (w : World) → P w → P (open_pipe env w).1
  unfolding open_pipe
  open_pipe-keeps w p =
      let p1 = frame.create_output_pipe "gif" w p in
      elim (Result-cases (env.create_output_pipe "gif" w).0) [
        | inl (x, e) ↦ rw (e, open_pipe) p1
        | inr (r, e) ↦ rw (e, open_pipe) (transcode-keeps r _ p1)
      ]

  gif_in_dir-keeps :
      (dir : String) (b : Bytes) (name : String) (w : World)
      → P w
      → P (gif_in_dir env dir b name w).1
  unfolding gif_in_dir
  gif_in_dir-keeps dir b name w p =
      let tmp = env.join_path dir name in
      let p1 = frame.write_file tmp b w p in
      let p2 = frame.set_input_path tmp _ p1 in ground (arith, p1, p2, open_pipe-keeps _ p2)

  gif_from_dir-keeps :
      (b : Bytes) (name : String) (w : World) → P w → P (gif_from_dir env b name w).1
  unfolding gif_from_dir
  gif_from_dir-keeps b name w p =
      let p1 = frame.temp_dir "videopreview" w p in
      elim (Result-cases (env.temp_dir "videopreview" w).0) [
        | inl (x, e) ↦ rw (e, gif_from_dir) p1
        | inr (dir, e) ↦
            let p2 = gif_in_dir-keeps dir b name _ p1 in
            ground (arith, p2, frame.remove_all dir _ p2)
      ]

  get_gif_from_bytes-keeps :
      (b : Bytes) (name : String) (w : World) → P w → P (get_gif_from_bytes env b name w).1
  unfolding get_gif_from_bytes
  get_gif_from_bytes-keeps b name w p =
      let p1 = frame.transcoder_init w p in ground (arith, p1, gif_from_dir-keeps b name _ p1)

  pub new_bucket_name-keeps : (owner : String) (w : World) → P w → P (new_bucket_name env owner w).1
  unfolding new_bucket_name get_ulid
  new_bucket_name-keeps owner w p =
      let p1 = frame.clock w p in let p2 = frame.ulid (env.unix_nano w).0 _ p1 in ground (arith, p2)

  generate_preview_from-keeps :
      (name path : String) (b : Bytes) (w : World)
      → P w
      → P (generate_preview_from env clients name path b w).1
  unfolding generate_preview_from
  generate_preview_from-keeps name path b w p =
      let p1 = frame.push name path b false w p in ground (arith, p1)

  -- The shape that all four kinds of preview share.
  named-keeps :
      {B : Type 0} (owner path : String) (b : Bytes) (f : String × Option Error → B) (w : World)
      → P w
      → P
          ((do
            name ← new_bucket_name env owner
            made ← generate_preview_from env clients name path b
            pure (f made))
            w).1
  named-keeps owner path b f w p =
      let p1 = new_bucket_name-keeps owner w p in
      elim (Outcome-cases (new_bucket_name env owner w).0) [
        | inl e ↦ ground (arith, p1)
        | inr (name, e) ↦ ground (arith, generate_preview_from-keeps name path b _ p1)
      ]

  fake-keeps : (d : UploadData) (w : World) → P w → P (generate_fake_preview_from env clients d w).1
  unfolding generate_fake_preview_from
  fake-keeps d w p =
      named-keeps {B = Preview} d.owner_id d.file_name d.file_bytes
        (λ made. (made.0, d.file_type, made.1)) w p

  image-keeps :
      (d : UploadData) (w : World) → P w → P (generate_image_preview_from env clients d w).1
  unfolding generate_image_preview_from
  image-keeps d w p = elim (Result-cases (get_thumbnail_from_bytes env d.file_bytes)) [
    | inl (x, e) ↦ rw (e, generate_image_preview_from) p
    | inr (b, e) ↦
        rw (e, generate_image_preview_from)
          (named-keeps {B = Preview} d.owner_id "thumbnail.jpg" b
            (λ made. (made.0, "image", made.1)) w p)
  ]

  video-keeps :
      (d : UploadData) (w : World) → P w → P (generate_video_preview_from env clients d w).1
  unfolding generate_video_preview_from
  video-keeps d w p =
      let p1 = get_gif_from_bytes-keeps d.file_bytes d.file_name w p in
      elim (Outcome-cases (get_gif_from_bytes env d.file_bytes d.file_name w).0) [
        | inl e ↦ ground (arith, p1)
        | inr (ok b, e) ↦
            rw (e, generate_video_preview_from)
              (named-keeps {B = Preview} d.owner_id "preview.gif" b
                (λ made. (made.0, "video", made.1)) _ p1)
        | inr (err x, e) ↦ rw (e, generate_video_preview_from) p1
      ]

  media-keeps :
      (media : String) (d : UploadData) (w : World)
      → P w
      → P (preview_by_media env clients media d w).1
  unfolding preview_by_media
  media-keeps media d w p = ground (arith, fake-keeps d w p, image-keeps d w p, video-keeps d w p)

  type-keeps : (d : UploadData) (w : World) → P w → P (preview_by_type env clients d w).1
  unfolding preview_by_type
  type-keeps d w p = ground (
    arith,
    media-keeps (env.mimemagic_match d.file_bytes d.file_name).media d w p,
    image-keeps d w p,
    video-keeps d w p,
  )

  given-keeps : (d : UploadData) (w : World) → P w → P (preview_from_bytes env clients d w).1
  unfolding preview_from_bytes
  given-keeps d w p =
      named-keeps {B = Preview} d.owner_id d.file_name d.preview_bytes
        (λ made. (made.0, d.file_type, made.1)) w p

  -- On every branch, errors included.
  pub get_preview_from-keeps :
      (d : UploadData) (w : World) → P w → P (get_preview_from env clients d w).1
  unfolding get_preview_from
  get_preview_from-keeps d w p = ground (
    arith,
    given-keeps d w p,
    type-keeps d w p,
    media-keeps (env.mimemagic_match d.file_bytes d.file_name).media d w p,
  )
