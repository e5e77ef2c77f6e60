-- ===== src/FileServer/Config.antt =====
-- The configuration of file-server/plugin.go, its validation and the choice of a mapping. The map of content
-- types is a list, in the order in which Go happens to walk it.
use built_on_envoy.Prelude.{
  Option, none, some, Bool, true, false, Bytes, bytes_eq, ◌==◌, ◌&&◌, List, [], ◌∷◌, if◌then◌else◌,
  ltb, length, has_prefix, contains_byte,
}

pub record PathMapping : Type 0 where
  pub request_path_prefix : Bytes
  pub file_path_prefix : Bytes

pub record FileServerConfig : Type 0 where
  pub path_mappings : List PathMapping
  pub content_types : List (Bytes × Bytes)
  pub default_content_type : Bytes
  pub directory_index_files : List Bytes

pub data ConfigError : Type 0 where
  no_mapping : ConfigError
  empty_request_prefix : ConfigError
  empty_file_prefix : ConfigError
  duplicate_prefix : Bytes → ConfigError
  suffix_with_period : Bytes → ConfigError
  index_with_slash : Bytes → ConfigError

-- seen[prefix]
unfoldable pub is_seen : Bytes → List Bytes → Bool
is_seen p [] = false
is_seen p (q ∷ seen) = if q == p then true else is_seen p seen

unfoldable pub check_mappings : List PathMapping → List Bytes → Option ConfigError
check_mappings [] seen = none
check_mappings (m ∷ ms) seen =
    let rest = check_mappings ms (m.request_path_prefix ∷ seen) in
    if m.request_path_prefix == []
    then some empty_request_prefix
    else if m.file_path_prefix == []
    then some empty_file_prefix
    else if is_seen m.request_path_prefix seen
    then some (duplicate_prefix m.request_path_prefix)
    else rest

unfoldable pub check_suffixes : List (Bytes × Bytes) → Option ConfigError
check_suffixes [] = none
check_suffixes ((suffix, ct) ∷ types) =
    let rest = check_suffixes types in
    if contains_byte b'.' suffix then some (suffix_with_period suffix) else rest

unfoldable pub check_index_files : List Bytes → Option ConfigError
check_index_files [] = none
check_index_files (f ∷ fs) =
    let rest = check_index_files fs in
    if contains_byte b'/' f then some (index_with_slash f) else rest

-- The first of two errors.
abbrev pub first_error : Option ConfigError → Option ConfigError → Option ConfigError
first_error (some e) f = some e
first_error none f = f

unfoldable pub is_empty_list {ℓ} : {A : Type ℓ} → List A → Bool
is_empty_list [] = true
is_empty_list (x ∷ xs) = false

-- fileServerConfig.validate: the error, if there is one
unfoldable pub validate : FileServerConfig → Option ConfigError
validate c =
    if is_empty_list c.path_mappings
    then some no_mapping
    else first_error (check_mappings c.path_mappings [])
        (first_error (check_suffixes c.content_types) (check_index_files c.directory_index_files))

-- best == nil || len(m.RequestPathPrefix) > len(best.RequestPathPrefix)
unfoldable pub is_longer : PathMapping → Option PathMapping → Bool
is_longer m none = true
is_longer m (some best) = ltb (length best.request_path_prefix) (length m.request_path_prefix)

unfoldable pub scan_mappings : Bytes → Option PathMapping → List PathMapping → Option PathMapping
scan_mappings path best [] = best
scan_mappings path best (m ∷ ms) =
    scan_mappings path
      (if has_prefix path m.request_path_prefix && is_longer m best then some m else best) ms

unfoldable pub find_longest_matching_mapping : FileServerConfig → Bytes → Option PathMapping
find_longest_matching_mapping c path = scan_mappings path none c.path_mappings
