-- ===== src/Preview/Returning.antt =====
-- The making of a preview returns, also where it fails.
use hackfs_mdc.Base.{refl, inl, inr, String, false, Option, none, Option-cases, Bool-cases}
use hackfs_mdc.Go.{pure, ◌>>=◌}
use hackfs_mdc.Go.Laws.{Result-cases}
use hackfs_mdc.Go.Yielding.{Yields, Any, bind-Yields}
use hackfs_mdc.Common.{Error}
use hackfs_mdc.Messages.{Bytes, UploadData}
use hackfs_mdc.Services.{Services}
use hackfs_mdc.Node.Working.{Working, ulid-Yields}
use hackfs_mdc.Node.{get_ulid}
use hackfs_mdc.Textile.{Clients}
use hackfs_mdc.Textile.Returning.{create_bucket_and_push_data-Yields}
use hackfs_mdc.Preview.{
  Preview, get_thumbnail_from_bytes, new_bucket_name, generate_preview_from,
  generate_fake_preview_from, generate_image_preview_from, generate_video_preview_from,
  preview_from_bytes, get_preview_from,
}
use hackfs_mdc.Preview.Choice.{
  Kind, unwanted, supplied, image, video, fake, choice, make, get_preview_from-choice,
}
use hackfs_mdc.Preview.Video.{transcode, open_pipe, gif_in_dir, gif_from_dir, get_gif_from_bytes}

module _ (env : Services) where
  open env use {World}

  transcode-Yields : (r : env.Pipe) → Yields Any (transcode env r)
  unfolding transcode
  transcode-Yields r w =
      let done = env.run_transcoder w in
      let read = env.read_pipe r done.1 in
      let last = env.reader_assigns_last read.1 in
      elim (Bool-cases last.0) [
        | inl b ↦ elim (Option-cases read.0.1) [
          | inl e ↦ rw (b, transcode) (rw (e, transcode) (_, tt, refl))
          | inr (x, e) ↦ rw (b, transcode) (rw (e, transcode) (_, tt, refl))
        ]
        | inr b ↦ elim (Option-cases done.0) [
          | inl e ↦ rw (b, transcode) (rw (e, transcode) (_, tt, refl))
          | inr (x, e) ↦ rw (b, transcode) (rw (e, transcode) (_, tt, refl))
        ]
      ]

  open_pipe-Yields : Yields Any (open_pipe env)
  unfolding open_pipe
  open_pipe-Yields w = elim (Result-cases (env.create_output_pipe "gif" w).0) [
    | inl (x, e) ↦ rw (e, open_pipe) (_, tt, refl)
    | inr (r, e) ↦ rw (e, open_pipe) (transcode-Yields r _)
  ]

  gif_in_dir-Yields :
      (dir : String) (b : Bytes) (name : String) → Yields Any (gif_in_dir env dir b name)
  unfolding gif_in_dir
  gif_in_dir-Yields dir b name w =
      let tmp = env.join_path dir name in
      let written = env.write_file tmp b w in
      elim (Option-cases written.0) [
        | inr (x, e) ↦ rw (e, gif_in_dir) (_, tt, refl)
        | inl e ↦ elim (Option-cases (env.set_input_path tmp written.1).0) [
          | inr (x, f) ↦ rw (e, gif_in_dir) (rw (f, gif_in_dir) (_, tt, refl))
          | inl f ↦ rw (e, gif_in_dir) (rw (f, gif_in_dir) (open_pipe-Yields _))
        ]
      ]

  gif_from_dir-Yields : (b : Bytes) (name : String) → Yields Any (gif_from_dir env b name)
  unfolding gif_from_dir
  gif_from_dir-Yields b name w = elim (Result-cases (env.temp_dir "videopreview" w).0) [
    | inl (x, e) ↦ rw (e, gif_from_dir) (_, tt, refl)
    | inr (dir, e) ↦
        let (result, _, h) = gif_in_dir-Yields dir b name (env.temp_dir "videopreview" w).1 in
        rw (e, gif_from_dir) (rw (h, gif_from_dir) (_, tt, refl))
  ]

  get_gif_from_bytes-Yields :
      (b : Bytes) (name : String) → Yields Any (get_gif_from_bytes env b name)
  unfolding get_gif_from_bytes
  get_gif_from_bytes-Yields b name w = elim (Option-cases (env.transcoder_init w).0) [
    | inr (x, e) ↦ rw (e, get_gif_from_bytes) (_, tt, refl)
    | inl e ↦ rw (e, get_gif_from_bytes) (gif_from_dir-Yields b name _)
  ]

  pub new_bucket_name-Yields :
      Working env → (owner : String) → Yields Any (new_bucket_name env owner)
  unfolding new_bucket_name
  new_bucket_name-Yields k owner =
      bind-Yields Any Any (get_ulid env) _ (ulid-Yields env k) (λ u _ w. (_, tt, refl))

module _ (env : Services) (k : Working env) (clients : Clients env) where
  generate_preview_from-Yields :
      (name path : String) (b : Bytes) → Yields Any (generate_preview_from env clients name path b)
  unfolding generate_preview_from
  generate_preview_from-Yields name path b w =
      let (pushed, _, h) = create_bucket_and_push_data-Yields env clients name path b false w in
      elim (Result-cases pushed) [
        | inl (x, e) ↦ rw (h, generate_preview_from) (rw (e, generate_preview_from) (_, tt, refl))
        | inr (x, e) ↦ rw (h, generate_preview_from) (rw (e, generate_preview_from) (_, tt, refl))
      ]

  -- The shape that all four kinds of preview share.
  named-Yields :
      {B : Type 0} (owner path : String) (b : Bytes) (f : String × Option Error → B)
      → Yields Any (do
        name ← new_bucket_name env owner
        made ← generate_preview_from env clients name path b
        pure (f made))
  named-Yields owner path b f =
      bind-Yields Any Any (new_bucket_name env owner) _ (new_bucket_name-Yields env k owner)
        (λ name _.
          bind-Yields Any Any (generate_preview_from env clients name path b) _
            (generate_preview_from-Yields name path b) (λ made _ w. (f made, tt, refl)))

  fake-Yields : (d : UploadData) → Yields Any (generate_fake_preview_from env clients d)
  unfolding generate_fake_preview_from
  fake-Yields d = named-Yields d.owner_id d.file_name d.file_bytes _

  given-Yields : (d : UploadData) → Yields Any (preview_from_bytes env clients d)
  unfolding preview_from_bytes
  given-Yields d = named-Yields d.owner_id d.file_name d.preview_bytes _

  image-Yields : (d : UploadData) → Yields Any (generate_image_preview_from env clients d)
  unfolding generate_image_preview_from
  image-Yields d w = elim (Result-cases (get_thumbnail_from_bytes env d.file_bytes)) [
    | inl (x, e) ↦ rw (e, generate_image_preview_from) (_, tt, refl)
    | inr (b, e) ↦
        rw (e, generate_image_preview_from)
          (named-Yields {B = Preview} d.owner_id "thumbnail.jpg" b
            (λ made. (made.0, "image", made.1)) w)
  ]

  video-Yields : (d : UploadData) → Yields Any (generate_video_preview_from env clients d)
  unfolding generate_video_preview_from
  video-Yields d w =
      let (gif, _, h) = get_gif_from_bytes-Yields env d.file_bytes d.file_name w in
      elim (Result-cases gif) [
        | inl (x, e) ↦
            rw (h, generate_video_preview_from) (rw (e, generate_video_preview_from) (_, tt, refl))
        | inr (b, e) ↦
            rw (h, generate_video_preview_from)
              (rw (e, generate_video_preview_from)
                (named-Yields {B = Preview} d.owner_id "preview.gif" b
                  (λ made. (made.0, "video", made.1)) _))
      ]

  make-Yields : (kind : Kind) (d : UploadData) → Yields Any (make env clients kind d)
  make-Yields unwanted d = λ w. (("", d.file_type, none), tt, refl)
  make-Yields supplied d = given-Yields d
  make-Yields image d = image-Yields d
  make-Yields video d = video-Yields d
  make-Yields fake d = fake-Yields d

  pub get_preview_from-Yields : (d : UploadData) → Yields Any (get_preview_from env clients d)
  get_preview_from-Yields d w =
      rw (get_preview_from-choice env clients d w) (make-Yields (choice env d) d w)
