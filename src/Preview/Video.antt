-- ===== src/Preview/Video.antt =====
-- backend/pkg/tools/videopreview/videopreview.go
use hackfs_mdc.Base.{ℕ, String, none, some, if◌then◌else◌}
use hackfs_mdc.Go.{Go, Result, ok, err, pure, call, effect, ◌>>=◌, ◌>>◌}
use hackfs_mdc.Common.{Error, errorf, in_pkg}
use hackfs_mdc.Messages.{Bytes}
use hackfs_mdc.Services.{Services}

module _ (env : Services) where
  open env use {
    World, Pipe, join_path, temp_dir, remove_all, write_file, transcoder_init, set_input_path,
    create_output_pipe, run_transcoder, read_pipe, reader_assigns_last,
  }

  -- `commontools.Errorf(err, "… failed")` at a line of `GetGifFromBytes`
  unfoldable pub gif_error : ℕ → Error → String → Error
  gif_error line e msg = errorf (in_pkg "tools/videopreview.GetGifFromBytes" line) (some e) msg

  -- From the start of the goroutine on. It and the main path assign one `err`: what the main path
  -- tests is the transcoder's error, unless the reader assigned its own after that.
  unfoldable pub transcode : Pipe → Go World (Result Error Bytes)
  transcode r = do
    done ← call run_transcoder
    read ← call (read_pipe r)
    last ← call reader_assigns_last
    elim (if last then read.1 else done) [
      | some e ↦ pure (err (gif_error 94 e "trans.Run failed"))
      | none ↦ pure (ok read.0)
    ]

  unfoldable pub open_pipe : Go World (Result Error Bytes)
  open_pipe = do
    pipe ← call (create_output_pipe "gif")
    elim pipe [
      | err e ↦ pure (err (gif_error 46 e "trans.CreateOutputPipe failed"))
      | ok r ↦ transcode r
    ]

  -- The work inside the temporary directory.
  unfoldable pub gif_in_dir : String → Bytes → String → Go World (Result Error Bytes)
  gif_in_dir dir input_bytes file_name = do
    let tmp_file_name = join_path dir file_name
    written ← call (write_file tmp_file_name input_bytes)
    elim written [
      | some e ↦ pure (err (gif_error 30 e "ioutil.WriteFile failed"))
      | none ↦ do
        input ← call (set_input_path tmp_file_name)
        elim input [
          | some e ↦ pure (err (gif_error 35 e "trans.SetInputPath failed"))
          | none ↦ open_pipe
        ]
    ]

  -- The deferred clean-up runs after the result is known, whatever it is.
  unfoldable pub gif_from_dir : Bytes → String → Go World (Result Error Bytes)
  gif_from_dir input_bytes file_name = do
    made ← call (temp_dir "videopreview")
    elim made [
      | err e ↦ pure (err (gif_error 24 e "ioutil.TempDir failed"))
      | ok dir ↦ do
        result ← gif_in_dir dir input_bytes file_name
        effect (remove_all dir)
        pure result
    ]

  unfoldable pub get_gif_from_bytes : Bytes → String → Go World (Result Error Bytes)
  get_gif_from_bytes input_bytes file_name = do
    init ← call transcoder_init
    elim init [
      | some e ↦ pure (err (gif_error 19 e "trans.InitializeEmptyTranscoder failed"))
      | none ↦ gif_from_dir input_bytes file_name
    ]
