-- ===== src/Preview.antt =====
-- backend/pkg/libp2pnode/preview.go, with the thumbnails of backend/pkg/tools/imagepreview and the
-- animations of backend/pkg/tools/videopreview.
pub mod Effects
pub mod Video
pub mod Choice
pub mod Returning
use hackfs_mdc.Base.{
  ℕ, String, ◌<>◌, Bool, true, false, not, Option, none, some, List, [], ◌∷◌, ◌==◌, is_empty, ltb,
  length, if◌then◌else◌,
}
use hackfs_mdc.Go.{Go, Result, ok, err, returned, pure, call, ◌>>=◌}
use hackfs_mdc.Common.{Error, errorf, in_pkg}
use hackfs_mdc.Messages.{Bytes, UploadData}
use hackfs_mdc.Services.{Services}
use hackfs_mdc.Node.{get_ulid}
use hackfs_mdc.Textile.{Clients, create_bucket_and_push_data}
use Video.{get_gif_from_bytes}

-- THUMBNAIL_DEFAULT_WIDTH
abbrev pub thumbnail_default_width : ℕ
thumbnail_default_width = 256

-- A preview's URL, the file's type and the error: all three are given on every branch.
abbrev pub Preview : Type 0
Preview = String × String × Option Error

module _ (env : Services) where
  open env use {World, image_decode, image_resize, jpeg_encode, mimemagic_match}

  -- `data.OwnerId+"."+commontools.GetUlid().String()`
  unfoldable pub new_bucket_name : String → Go World String
  new_bucket_name owner_id = do ulid ← get_ulid env; pure (owner_id <> "." <> ulid)

  unfoldable pub encode_thumbnail : env.Image → Result Error Bytes
  encode_thumbnail img = elim (jpeg_encode (image_resize img thumbnail_default_width 0)) [
    | err e ↦ err (
        errorf (in_pkg "tools/imagepreview.GetThumbnailFromBytes" 25) (some e) "jpeg.Encode failed")
    | ok bytes ↦ ok bytes
  ]

  unfoldable pub get_thumbnail_from_bytes : Bytes → Result Error Bytes
  get_thumbnail_from_bytes input_bytes = elim (image_decode input_bytes) [
    | err e ↦ err (
        errorf (in_pkg "tools/imagepreview.GetThumbnailFromBytes" 18) (some e)
          "image.Decode failed")
    | ok img ↦ encode_thumbnail img
  ]

  module _ (clients : Clients env) where
    -- The URL, which is empty beside an error.
    unfoldable pub generate_preview_from :
        String → String → Bytes → Go World (String × Option Error)
    generate_preview_from bucket_name bucket_file_name file_bytes = do
      pushed ← create_bucket_and_push_data env clients bucket_name bucket_file_name file_bytes false
      elim pushed [
        | err e ↦ pure (
          "",
          some (
              errorf (in_pkg "libp2pnode.GeneratePreviewFrom" 16) (some e)
                "textilehelper.CreateBucketAndPushData failed"),
        )
        | ok keys ↦ pure (keys.2 <> "/" <> bucket_file_name, none)
      ]

    unfoldable pub generate_fake_preview_from : UploadData → Go World Preview
    generate_fake_preview_from d = do
      name ← new_bucket_name d.owner_id
      made ← generate_preview_from name d.file_name d.file_bytes
      pure (made.0, d.file_type, made.1)

    unfoldable pub generate_image_preview_from : UploadData → Go World Preview
    generate_image_preview_from d = elim (get_thumbnail_from_bytes d.file_bytes) [
      | err e ↦ pure (
        "",
        d.file_type,
        some (
            errorf (in_pkg "libp2pnode.GenerateImagePreviewFrom" 29) (some e)
              "imagepreview.GetThumbnailFromBytes failed"),
      )
      | ok thumbnail_bytes ↦ do
        name ← new_bucket_name d.owner_id
        made ← generate_preview_from name "thumbnail.jpg" thumbnail_bytes
        pure (made.0, "image", made.1)
    ]

    unfoldable pub generate_video_preview_from : UploadData → Go World Preview
    generate_video_preview_from d = do
      gif ← get_gif_from_bytes env d.file_bytes d.file_name
      elim gif [
        | err e ↦ pure (
          "",
          d.file_type,
          some (
              errorf (in_pkg "libp2pnode.GenerateVideoPreviewFrom" 38) (some e)
                "videopreview.GetGifFromBytes failed"),
        )
        | ok preview_bytes ↦ do
          name ← new_bucket_name d.owner_id
          made ← generate_preview_from name "preview.gif" preview_bytes
          pure (made.0, "video", made.1)
      ]

    -- The switch on the media type that is found in the bytes.
    unfoldable pub preview_by_media : String → UploadData → Go World Preview
    preview_by_media media d =
        if media == "image"
        then generate_image_preview_from d
        else if media == "video"
        then generate_video_preview_from d
        else generate_fake_preview_from d

    -- The switch on the declared type, which falls through to the switch on the media type.
    unfoldable pub preview_by_type : UploadData → Go World Preview
    preview_by_type d =
        if d.file_type == "image"
        then generate_image_preview_from d
        else if d.file_type == "video"
        then generate_video_preview_from d
        else preview_by_media (mimemagic_match d.file_bytes d.file_name).media d

    unfoldable pub preview_from_bytes : UploadData → Go World Preview
    preview_from_bytes d = do
      name ← new_bucket_name d.owner_id
      made ← generate_preview_from name d.file_name d.preview_bytes
      pure (made.0, d.file_type, made.1)

    unfoldable pub get_preview_from : UploadData → Go World Preview
    get_preview_from d =
        if not d.generate_preview
        then pure ("", d.file_type, none)
        else if ltb 0 (length d.preview_bytes)
        then preview_from_bytes d
        else if not (is_empty d.file_type)
        then preview_by_type d
        else preview_by_media (mimemagic_match d.file_bytes d.file_name).media d
