-- ===== src/HttpProxy/Downloads.antt =====
-- What the download route replies, across the node that answers and the one that waits.
use hackfs_mdc.Base.{◌≡◌, some, length}
use hackfs_mdc.Base.Int.{pos, ◌≤ℤ◌}
use hackfs_mdc.Go.{Outcome, ok, returned}
use hackfs_mdc.Messages.{Bytes, ContentData}
use hackfs_mdc.Messages.Envelope.{download_response_envelope}
use hackfs_mdc.Services.{Services}
use hackfs_mdc.Textile.{Clients}
use hackfs_mdc.Textile.Promises.{View, Promises}
use hackfs_mdc.Serve.{status_ok}
use hackfs_mdc.HttpProxy.{Reply}

module _ (env : Services) (pk : Bytes) (keyed : env.host_pub_key_bytes ≡ ok pk)
    (clients : Clients env) (view : View env) (law : Promises env view) (home : Services) where
  open env use {World, unix_nano}
  open view use {content}

  -- A reply with the bytes of a file that Textile has, under the length that its record declares,
  -- which is no more than theirs.
  pub record FileReply (reply : Outcome Reply) (w' : World) : Type 0 where
    pub cd : ContentData
    pub bytes : Bytes
    pub there : content w' cd.bucket_key cd.file_name ≡ some bytes
    pub declared : cd.file_size ≤ℤ pos (length bytes)
    pub replied :
        reply
        ≡ returned (
            Reply.data_from_reader status_ok cd.file_size
              (home.mimemagic_match bytes cd.file_name).media_type
              bytes)
