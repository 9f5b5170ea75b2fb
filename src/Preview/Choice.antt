-- ===== src/Preview/Choice.antt =====
-- Which preview `GetPreviewFrom` of backend/pkg/libp2pnode/preview.go makes, as one table.
use hackfs_mdc.Base.{
  ◌≡◌, refl, String, true, none, ltb, length, is_empty, ◌==◌, arith, if◌then◌else◌,
}
use hackfs_mdc.Go.{Go, pure}
use hackfs_mdc.Messages.{UploadData}
use hackfs_mdc.Services.{Services}
use hackfs_mdc.Textile.{Clients}
use hackfs_mdc.Preview.{
  Preview, generate_fake_preview_from, generate_image_preview_from, generate_video_preview_from,
  preview_by_media, preview_by_type, preview_from_bytes, get_preview_from,
}

pub data Kind : Type 0 where
  unwanted supplied image video fake : Kind

-- The kind that a type or a media type names.
abbrev kind_of : String → Kind
kind_of t = if t == "image" then image else if t == "video" then video else fake

-- The first kind that is an image or a video.
abbrev first_kind : Kind → Kind → Kind
first_kind image k = image
first_kind video k = video
first_kind _ k = k

kind_of_empty : (t : String) → is_empty t ≡ true → kind_of t ≡ fake
kind_of_empty String.[] h = refl
kind_of_empty (String.◌∷◌ c s) h = absurd (ground arith)

module _ (env : Services) where
  open env use {World, mimemagic_match}

  -- A preview is made if it is wanted: of the bytes that come with the upload if there are any, and
  -- otherwise of the file, by the type that the upload declares if that is an image or a video,
  -- and by the type that is found in the bytes if it is not.
  abbrev pub choice : UploadData → Kind
  choice d =
      if d.generate_preview
      then (if ltb 0 (length d.preview_bytes)
          then supplied
          else first_kind (kind_of d.file_type)
              (kind_of (mimemagic_match d.file_bytes d.file_name).media))
      else unwanted

  module _ (clients : Clients env) where
    abbrev pub make : Kind → UploadData → Go World Preview
    make unwanted d = pure ("", d.file_type, none)
    make supplied d = preview_from_bytes env clients d
    make image d = generate_image_preview_from env clients d
    make video d = generate_video_preview_from env clients d
    make fake d = generate_fake_preview_from env clients d

    media_lem :
        (media : String) (d : UploadData) (w : World)
        → preview_by_media env clients media d w ≡ make (kind_of media) d w
    unfolding preview_by_media
    media_lem media d w = ground arith

    type_lem :
        (d : UploadData) (w : World)
        → preview_by_type env clients d w
          ≡ make
              (first_kind
                (kind_of d.file_type)
                (kind_of (mimemagic_match d.file_bytes d.file_name).media))
              d
              w
    unfolding preview_by_type
    type_lem d w = ground (arith, media_lem (mimemagic_match d.file_bytes d.file_name).media d w)

    -- Which preview is made is one table: none if none is wanted; one of the bytes that come with
    -- the upload if there are any; otherwise one of the file, by its declared type if that is an
    -- image or a video, else by the type found in its bytes, and the file itself if that is
    -- neither.
    pub get_preview_from-choice :
        (d : UploadData) (w : World) → get_preview_from env clients d w ≡ make (choice d) d w
    unfolding get_preview_from
    get_preview_from-choice d w = ground (
      arith,
      type_lem d w,
      media_lem (mimemagic_match d.file_bytes d.file_name).media d w,
      kind_of_empty d.file_type,
    )
