-- ===== src/Examples/Hosting.antt =====
-- Runs of a node over the services of `Examples.Cloud`.
use hackfs_mdc.Base.{◌≡◌, refl, String, some, List, [], ◌∷◌}
use hackfs_mdc.Go.{Result, ok, err}
use hackfs_mdc.Common.{Error}
use hackfs_mdc.Messages.{Bytes}
use hackfs_mdc.Textile.Promises.{with_bucket_key}
use hackfs_mdc.Upload.{upload_request_protocol_name}
use hackfs_mdc.Upload.Returning.{IsComplete as IsUpload}
use hackfs_mdc.Host.{new_node, run}
use hackfs_mdc.Host.Returning.{IsComplete}
use hackfs_mdc.Host.Archive.{Entry, ◌⟶*◌}
use hackfs_mdc.Host.Refinement.{Represents, run-refines}
use hackfs_mdc.Host.Lookups.{run-finds}
use hackfs_mdc.Examples.Cloud.{Cloud, Line, cloud, clients, view, promises, file_at}
use hackfs_mdc.Examples.Runs.{request, start, after_upload, content}
use hackfs_mdc.Examples.Serving.{line}

abbrev streams : List (String × Line)
streams =
    (upload_request_protocol_name, line)
    ∷ ("/unknown/1.0", line)
    ∷ (upload_request_protocol_name, line)
    ∷ []

abbrev ended : Cloud
ended = (run (cloud request) (clients request) streams new_node start).1

run-refines_example :
    (b : List Entry) × ([] ⟶* b) × Represents (cloud request) (view request) ended b
run-refines_example =
    run-refines (cloud request) (clients request) (view request) (promises request) streams new_node
      start [] (record { listed = refl; held = tt })

abbrev cat : Entry
cat = record { content = record content { id = "record" }; bytes = 3 ∷ 4 ∷ [] }

abbrev continued : Cloud
continued = (run (cloud request) (clients request) streams new_node after_upload).1

run-finds_example :
    (with_bucket_key "alice.u0" continued.records ≡ record content { id = "record" } ∷ [])
    × (file_at continued.files "alice.u0" "cat.png" ≡ some (3 ∷ 4 ∷ []))
run-finds_example =
    run-finds (cloud request) (clients request) (view request) (promises request) streams new_node
      after_upload [] [] cat (record { listed = refl; held = (refl, tt) }) (refl, tt)

abbrev bytes_of : Result Error Bytes → Bytes
bytes_of (ok b) = b
bytes_of (err e) = []
