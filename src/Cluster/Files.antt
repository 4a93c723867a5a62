-- ===== src/Cluster/Files.antt =====
-- internal/controller/stroomcluster_controller.go: the static files that `Reconcile` reads.
use stroom_k8s_operator.Base.{String, List, [], ◌∷◌, string_eq}
use stroom_k8s_operator.Base.Dict.{Dict, insert}
use stroom_k8s_operator.Base.State.{Result, ok, err}

-- The files under static_content, an embedded file system: their names, and each one's text.
pub record StaticFiles : Type 0 where
  pub read_dir : Result (List String)
  pub read_file : String → Result String

-- The loop that reads them.
unfoldable pub read_files :
    (String → Result String) → List String → Dict String String → Result (Dict String String)
unfolding insert
read_files read [] all_file_data = ok all_file_data
read_files read (name ∷ names) all_file_data = elim (read name) [
  | ok contents ↦ read_files read names (insert name contents all_file_data)
  | err e ↦ err e
]

unfoldable pub all_static_files : StaticFiles → Result (Dict String String)
unfolding read_files
all_static_files files = elim files.read_dir [
  | ok names ↦ read_files files.read_file names []
  | err e ↦ err e
]
