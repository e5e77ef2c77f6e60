-- ===== src/FileServer/Tests.antt =====
-- The theorems on file-server at a concrete configuration and file system.

use mathlib.Core.List.{Permᴰ}
use built_on_envoy.Prelude.{
  ℕ, ◌+◌, false, Bytes, bytes_eq, bytes_beq, nat_eq, text, ◌==◌, none, some, List, [], ◌∷◌, ◌++◌,
  ◌≡◌, ◌⊎◌, refl, if◌then◌else◌, arith, All, has_prefix, cut_prefix, trim_prefix, contains_byte,
  ends_with, before, after, push_first, split, join, take, drop,
}
use built_on_envoy.Prelude.Assoc.{lookup}
use built_on_envoy.Prelude.Escape.{path_unescape, unescape}
use built_on_envoy.FileServer.Config.{
  PathMapping, FileServerConfig, validate, is_empty_list, check_mappings, is_seen, check_suffixes,
  check_index_files, find_longest_matching_mapping, scan_mappings, is_longer,
}
use built_on_envoy.FileServer.Paths.{
  join_path, clean, render, clean_stack, push_parts, push_part, pop_part, is_rooted,
}
use built_on_envoy.FileServer.Mapping.{
  apply_path_mapping, remaining_path, drop_slash, join_remaining, has_bad_part, is_bad_part,
  content_type_for_path, path_extension, extension_of, last_part,
}
use built_on_envoy.FileServer.Range.{
  plan, plan_bounds, parse_range_header, parse_spec, parse_bounds, range_end, parse_uint,
  parse_digits, part, plan-part,
}
use built_on_envoy.FileServer.Handler.{
  directory, regular, not_exist, FileSystem, serve, read_error, resolve_directory_index, or_next,
  locate, locate_by, with_body, common_headers, serve_plan, serve_located, serve_mapped,
  serve_decoded, serve_path, on_request_headers, read_file_range, content_range,
}
use built_on_envoy.FileServer.Choice.{IsLongest, find_mapping-IsLongest, find_longest-eq_of_perm}
use built_on_envoy.FileServer.Served.{IsServed, on_request_headers-IsServed}
use built_on_envoy.FileServer.Head.{without_body, serve_path-head}

abbrev site : PathMapping
site = record { request_path_prefix = text "/"; file_path_prefix = text "/srv" }

abbrev docs : PathMapping
docs = record { request_path_prefix = text "/docs/"; file_path_prefix = text "/usr/doc" }

abbrev config_of : List PathMapping → FileServerConfig
config_of ms = record {
  path_mappings = ms;
  content_types = (text "txt", text "text/plain") ∷ [];
  default_content_type = [];
  directory_index_files = text "i.txt" ∷ [];
}

abbrev config : FileServerConfig
config = config_of (site ∷ docs ∷ [])

abbrev files : FileSystem
files = record {
  stat = λ path.
      if path == text "/usr/doc/a"
      then directory
      else if path == text "/usr/doc/a/i.txt"
      then regular 3
      else not_exist;
  contents = λ path. if path == text "/usr/doc/a/i.txt" then some (text "abc") else none;
}

abbrev request : Bytes → Bytes
request h =
    if h == text ":path"
    then text "/docs/a?x"
    else if h == text ":method"
    then text "GET"
    else if h == text "range"
    then text "bytes=1-1"
    else []

-- A digit for each number.
abbrev digit : ℕ → Bytes
digit n = (n + 48) ∷ []

abbrev answer : List (Bytes × Bytes)
answer =
    (text ":status", text "206")
    ∷ (text "accept-ranges", text "bytes")
    ∷ (text "content-type", text "text/plain")
    ∷ (text "content-length", text "1")
    ∷ (text "content-range", text "bytes 1-1/3")
    ∷ []

accepted : validate config ≡ none
unfolding validate is_empty_list check_mappings is_seen check_suffixes check_index_files bytes_beq
    contains_byte
accepted = refl

served : on_request_headers digit files config request ≡ serve answer (text "b")
unfolding on_request_headers serve_path serve_decoded serve_mapped serve_located serve_plan
    with_body locate locate_by resolve_directory_index or_next common_headers content_range
    read_file_range find_longest_matching_mapping scan_mappings is_longer apply_path_mapping
    remaining_path drop_slash join_remaining has_bad_part is_bad_part content_type_for_path
    path_extension extension_of last_part plan plan_bounds parse_range_header parse_spec
    parse_bounds range_end parse_uint parse_digits join_path clean render clean_stack push_parts
    push_part pop_part is_rooted unescape bytes_beq has_prefix cut_prefix trim_prefix contains_byte
    ends_with before after push_first split join take drop lookup
served = refl

on_request_headers-IsServed_example :
    (path : Bytes) × (path_unescape (text "/docs/a?x") ≡ some path)
    × IsServed files config path (text "b")
unfolding bytes_beq
on_request_headers-IsServed_example =
    on_request_headers-IsServed digit files config request answer (text "b") accepted served

serve_path-head_example :
    (serve_path digit files config (text "/docs/a") (text "GET") [] ≡ read_error)
    ⊎ (serve_path digit files config (text "/docs/a") (text "HEAD") []
        ≡ without_body (serve_path digit files config (text "/docs/a") (text "GET") []))
serve_path-head_example = serve_path-head digit files config (text "/docs/a") []

find_mapping-IsLongest_example :
    ((find_longest_matching_mapping config (text "/docs/a") ≡ none)
      × All (λ m. has_prefix (text "/docs/a") m.request_path_prefix ≡ false) config.path_mappings)
    ⊎ ((m : PathMapping) × (find_longest_matching_mapping config (text "/docs/a") ≡ some m)
        × IsLongest config.path_mappings (text "/docs/a") m)
find_mapping-IsLongest_example = find_mapping-IsLongest config (text "/docs/a")

find_longest-eq_of_perm_example :
    find_longest_matching_mapping config (text "/docs/a")
    ≡ find_longest_matching_mapping (config_of (docs ∷ site ∷ [])) (text "/docs/a")
find_longest-eq_of_perm_example =
    find_longest-eq_of_perm config (config_of (docs ∷ site ∷ [])) (text "/docs/a") accepted
      (Permᴰ.swap refl refl)

one : parse_uint (text "1") ≡ some 1
unfolding parse_uint parse_digits
one = refl

plan-part_example : plan 3 (text "bytes=" ++ (text "1" ++ (b'-' ∷ text "1"))) ≡ part 1 2
plan-part_example =
    plan-part 3 1 1 (text "1") (text "1") (omega arith) one one (omega arith) (omega arith)
