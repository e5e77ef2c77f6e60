-- ===== src/FileServer/Handler.antt =====
-- `OnRequestHeaders` and `resolveDirectoryIndex` of file-server/plugin.go. The file system is a parameter:
-- what stat says of a path, and the contents that opening and reading it would yield. A handler yields what
-- it sends. strconv.FormatUint is a parameter.
use mathlib.Core.Option
use built_on_envoy.Prelude.{
  ℕ, ◌-◌, Bytes, bytes_eq, text, ◌==◌, not, ◌&&◌, List, [], ◌∷◌, ◌++◌, Option, none, some,
  if◌then◌else◌, take, drop,
}
use built_on_envoy.Prelude.Escape.{path_unescape}
use built_on_envoy.FileServer.Config.{PathMapping, FileServerConfig, find_longest_matching_mapping}
use built_on_envoy.FileServer.Paths.{join_path}
use built_on_envoy.FileServer.Mapping.{apply_path_mapping, content_type_for_path}
use built_on_envoy.FileServer.Range.{Plan, whole, part, not_satisfiable, plan}

-- What os.Stat says; `regular` stands for every file that is no directory, and has its size.
pub data Stat : Type 0 where
  not_exist : Stat
  no_permission : Stat
  other_error : Stat
  directory : Stat
  regular : ℕ → Stat

pub record FileSystem : Type 0 where
  pub stat : Bytes → Stat
  pub contents : Bytes → Option Bytes

-- The request passes, or is answered: with an error, or with a file.
pub data Outcome : Type 0 where
  pass : Outcome
  refuse : ℕ → List (Bytes × Bytes) → Bytes → Bytes → Outcome
  serve : List (Bytes × Bytes) → Bytes → Outcome

abbrev pub plain : ℕ → Bytes → Bytes → Outcome
plain status body details =
    refuse status ((text "content-type", text "text/plain") ∷ []) body details

abbrev pub range_not_satisfiable : Outcome
range_not_satisfiable =
    refuse 416
      ((text "content-type", text "text/plain") ∷ (text "accept-ranges", text "bytes") ∷ [])
      (text "Range Not Satisfiable") (text "file_server_range_not_satisfiable")

abbrev pub read_error : Outcome
read_error = plain 500 (text "Internal Server Error") (text "file_server_read_error")

-- A file that is found, with its size, or the error that answers the request.
pub data Located : Type 0 where
  found : Bytes → ℕ → Located
  failed : ℕ → Bytes → Bytes → Located

-- readFileRange
unfoldable pub read_file_range : FileSystem → Bytes → ℕ → ℕ → Option Bytes
read_file_range fs path offset len = Option.map (λ s. take len (drop offset s)) (fs.contents path)

-- err == nil && !info.IsDir(): this file, or the next
unfoldable pub or_next : Stat → Bytes → Located → Located
or_next (regular size) file rest = found file size
or_next not_exist file rest = rest
or_next no_permission file rest = rest
or_next other_error file rest = rest
or_next directory file rest = rest

-- The first of the index files that is there and no directory.
unfoldable pub resolve_directory_index : FileSystem → Bytes → List Bytes → Located
resolve_directory_index fs dir [] =
    failed 403 (text "Forbidden") (text "file_server_no_valid_directory_index")
resolve_directory_index fs dir (f ∷ files) =
    let rest = resolve_directory_index fs dir files in
    or_next (fs.stat (join_path dir f)) (join_path dir f) rest

unfoldable pub locate_by : FileSystem → FileServerConfig → Bytes → Stat → Located
locate_by fs c path not_exist = failed 404 (text "Not Found") (text "file_server_not_found")
locate_by fs c path no_permission =
    failed 403 (text "Forbidden") (text "file_server_permission_denied")
locate_by fs c path other_error =
    failed 500 (text "Internal Server Error") (text "file_server_stat_error")
locate_by fs c path directory = resolve_directory_index fs path c.directory_index_files
locate_by fs c path (regular size) = found path size

unfoldable pub locate : FileSystem → FileServerConfig → Bytes → Located
locate fs c path = locate_by fs c path (fs.stat path)

module _ (format_uint : ℕ → Bytes) where
  -- accept-ranges, and the content type, if there is one
  unfoldable pub common_headers : FileServerConfig → Bytes → List (Bytes × Bytes)
  common_headers c path =
      (text "accept-ranges", text "bytes")
      ∷ (if content_type_for_path c path == []
          then []
          else (text "content-type", content_type_for_path c path) ∷ [])

  unfoldable pub content_range : ℕ → ℕ → ℕ → Bytes
  content_range start end size =
      text "bytes "
      ++ (format_uint start ++ (b'-' ∷ (format_uint (end - 1) ++ (b'/' ∷ format_uint size))))

  -- The body is not read for a HEAD request.
  unfoldable pub with_body : Bytes → Option Bytes → List (Bytes × Bytes) → Outcome
  with_body method body headers =
      if method == text "HEAD"
      then serve headers []
      else elim body [ none ↦ read_error | some s ↦ serve headers s ]

  unfoldable pub serve_plan : FileSystem → FileServerConfig → Bytes → Bytes → ℕ → Plan → Outcome
  serve_plan fs c method path size not_satisfiable = range_not_satisfiable
  serve_plan fs c method path size (part start end) =
      with_body method (read_file_range fs path start (end - start)) (
        (text ":status", text "206")
        ∷ (common_headers c path
            ++ ((text "content-length", format_uint (end - start))
                ∷ (text "content-range", content_range start end size)
                ∷ [])))
  serve_plan fs c method path size whole = with_body method (fs.contents path) (
      (text ":status", text "200")
      ∷ (common_headers c path ++ ((text "content-length", format_uint size) ∷ [])))

  unfoldable pub serve_located : FileSystem → FileServerConfig → Bytes → Bytes → Located → Outcome
  serve_located fs c method range (failed status body details) = plain status body details
  serve_located fs c method range (found path size) =
      serve_plan fs c method path size (plan size range)

  -- A path that a mapping is for.
  unfoldable pub serve_mapped :
      FileSystem → FileServerConfig → Bytes → Bytes → Bytes → PathMapping → Outcome
  serve_mapped fs c path method range m =
      if not (method == text "GET") && not (method == text "HEAD")
      then plain 405 (text "Method Not Allowed") (text "file_server_rejected_method")
      else elim (apply_path_mapping path m) [
        | none ↦ plain 400 (text "Bad Request") (text "file_server_rejected_non_normalized_path")
        | some file ↦ serve_located fs c method range (locate fs c file)
      ]

  unfoldable pub serve_decoded : FileSystem → FileServerConfig → Bytes → Bytes → Bytes → Outcome
  serve_decoded fs c path method range = elim (find_longest_matching_mapping c path) [
    | none ↦ pass
    | some m ↦ serve_mapped fs c path method range m
  ]

  unfoldable pub serve_path : FileSystem → FileServerConfig → Bytes → Bytes → Bytes → Outcome
  serve_path fs c path method range = if path == [] then pass else elim (path_unescape path) [
    | none ↦ pass
    | some decoded ↦ serve_decoded fs c decoded method range
  ]

  -- OnRequestHeaders; `headers` yields the first value of a header, empty where it is not there.
  unfoldable pub on_request_headers : FileSystem → FileServerConfig → (Bytes → Bytes) → Outcome
  on_request_headers fs c headers =
      serve_path fs c (headers (text ":path")) (headers (text ":method")) (headers (text "range"))
