-- ===== src/FileServer/Served.antt =====
-- What the filter of file-server serves: only files of the mapped directories, and their contents.

use mathlib.Core.List.{Memᴰ}
use mathlib.Core.Option
use built_on_envoy.Prelude.{
  ℕ, ◌-◌, Bytes, bytes_eq, text, ◌==◌, not, ◌&&◌, List, [], ◌∷◌, ◌++◌, Option, none, some, ◌≡◌, ◌≢◌,
  ◌⊎◌, inl, inr, refl, sym, ap, ◌∙◌, subst, arith, take, drop, All-mem, All, false, contains_byte,
  ne_of_test, nat_eq, Bool-cases, Option-cases,
}
use built_on_envoy.Prelude.Escape.{path_unescape}
use built_on_envoy.FileServer.Config.{PathMapping, FileServerConfig, validate, check_index_files}
use built_on_envoy.FileServer.Paths.{join_path, Beneath}
use built_on_envoy.FileServer.Mapping.{apply_path_mapping, apply_path_mapping-Beneath}
use built_on_envoy.FileServer.Range.{Plan, whole, part, not_satisfiable, plan}
use built_on_envoy.FileServer.Handler.{
  Stat, regular, not_exist, no_permission, other_error, directory, or_next, locate_by, FileSystem,
  serve, Located, found, failed, read_file_range, resolve_directory_index, locate, with_body,
  common_headers, content_range, serve_plan, serve_located, serve_mapped, serve_decoded, serve_path,
  on_request_headers,
}
use built_on_envoy.FileServer.Choice.{
  IsLongest, HasDirectory, find_mapping-IsLongest, validate-AreDistinct,
}

-- The name of a file, not a path.
abbrev pub HasNoSlash : Bytes → Type 0
HasNoSlash = All (λ (b : ℕ). b ≢ b'/')

-- A file in the directory of the mapping, or an index file of such a directory.
abbrev pub IsInside : FileServerConfig → PathMapping → Bytes → Type 0
IsInside c m file =
    Beneath m.file_path_prefix file
    ⊎ ((dir : Bytes) × (index : Bytes) × Beneath m.file_path_prefix dir
        × Memᴰ index c.directory_index_files
        × HasNoSlash index
        × (file ≡ join_path dir index))

-- Nothing, all of what the file contains, or a part of it.
abbrev pub IsBody : FileSystem → Bytes → Bytes → Type 0
IsBody fs file body =
    (body ≡ [])
    ⊎ (fs.contents file ≡ some body)
    ⊎ ((s : Bytes) × (a : ℕ) × (n : ℕ) × (fs.contents file ≡ some s) × (body ≡ take n (drop a s)))

-- The body is that of a file, no directory, of the mapping that is the longest for the path.
pub record IsServed (fs : FileSystem) (c : FileServerConfig) (path body : Bytes) : Type 0 where
  pub mapping : PathMapping
  pub file : Bytes
  pub size : ℕ
  pub chosen : IsLongest c.path_mappings path mapping
  pub inside : IsInside c mapping file
  pub is_regular : fs.stat file ≡ regular size
  pub is_body : IsBody fs file body

or_next-found :
    (s : Stat) (here file : Bytes) (size : ℕ) (rest : Located)
    → or_next s here rest ≡ found file size
    → ((s ≡ regular size) × (here ≡ file)) ⊎ (rest ≡ found file size)
unfolding or_next
or_next-found (regular n) here file size rest h = inl (cc, cc)
or_next-found not_exist here file size rest h = inr h
or_next-found no_permission here file size rest h = inr h
or_next-found other_error here file size rest h = inr h
or_next-found directory here file size rest h = inr h

resolve_found :
    (fs : FileSystem) (dir file : Bytes) (size : ℕ) (files : List Bytes)
    → resolve_directory_index fs dir files ≡ found file size
    → (index : Bytes) × Memᴰ index files
      × (file ≡ join_path dir index)
      × (fs.stat file ≡ regular size)
unfolding resolve_directory_index
resolve_found fs dir file size [] h = cc
resolve_found fs dir file size (f ∷ files) h =
    elim (or_next-found (fs.stat (join_path dir f)) (join_path dir f) file size
      (resolve_directory_index fs dir files) h) [
        | inl (e, same) ↦ (f, Memᴰ.head refl, sym same, ap fs.stat (sym same) ∙ e)
        | inr later ↦
            let (index, there, same, e) = resolve_found fs dir file size files later in
            (index, Memᴰ.tail there, same, e)
      ]

contains_byte-HasNoSlash : (s : Bytes) → contains_byte b'/' s ≡ false → HasNoSlash s
unfolding contains_byte
contains_byte-HasNoSlash [] h = tt
contains_byte-HasNoSlash (c ∷ s) h =
    (ne_of_test c b'/' (ground arith), contains_byte-HasNoSlash s (ground arith))

check_index_files-All : (files : List Bytes) → check_index_files files ≡ none → All HasNoSlash files
unfolding check_index_files
check_index_files-All [] h = tt
check_index_files-All (f ∷ files) h = elim (Bool-cases (contains_byte b'/' f)) [
  | inl e ↦ absurd (ground arith)
  | inr e ↦ (contains_byte-HasNoSlash f e, check_index_files-All files (ground arith))
]

validate-IndexFiles :
    (c : FileServerConfig) → validate c ≡ none → All HasNoSlash c.directory_index_files
unfolding validate
validate-IndexFiles c h = check_index_files-All c.directory_index_files (ground arith)

locate_by-found :
    (fs : FileSystem) (c : FileServerConfig) (m : PathMapping) (path file : Bytes) (size : ℕ)
    (s : Stat)
    → All HasNoSlash c.directory_index_files
    → Beneath m.file_path_prefix path
    → fs.stat path ≡ s
    → locate_by fs c path s ≡ found file size
    → IsInside c m file × (fs.stat file ≡ regular size)
unfolding locate_by
locate_by-found fs c m path file size not_exist names b e h = cc
locate_by-found fs c m path file size no_permission names b e h = cc
locate_by-found fs c m path file size other_error names b e h = cc
locate_by-found fs c m path file size directory names b e h =
    let (index, there, same, r) = resolve_found fs path file size c.directory_index_files h in
    (inr (path, index, b, there, All-mem HasNoSlash c.directory_index_files names there, same), r)
locate_by-found fs c m path file size (regular n) names b e h =
    let same : path ≡ file = cc in (inl (subst (Beneath m.file_path_prefix) same b), cc)

module _ (format_uint : ℕ → Bytes) where
  with_body-serve :
      (fs : FileSystem) (file method : Bytes) (found_body : Option Bytes)
      (headers given : List (Bytes × Bytes)) (body : Bytes)
      → ((s : Bytes) → found_body ≡ some s → IsBody fs file s)
      → with_body format_uint method found_body headers ≡ serve given body
      → IsBody fs file body
  unfolding with_body
  with_body-serve fs file method found_body headers given body all h =
      elim (Bool-cases (method == text "HEAD")) [
        | inl e ↦ inl (ground arith)
        | inr e ↦ elim (Option-cases found_body) [
          | inl f ↦ absurd (ground arith)
          | inr (s, f) ↦ let same : s ≡ body = ground arith in all body (f ∙ ap some same)
        ]
      ]

  serve_plan-serve :
      (fs : FileSystem) (c : FileServerConfig) (method file : Bytes) (size : ℕ) (p : Plan)
      (given : List (Bytes × Bytes)) (body : Bytes)
      → serve_plan format_uint fs c method file size p ≡ serve given body
      → IsBody fs file body
  unfolding serve_plan read_file_range
  serve_plan-serve fs c method file size not_satisfiable given body h = cc
  serve_plan-serve fs c method file size whole given body h =
      with_body-serve fs file method (fs.contents file)
        ((text ":status", text "200")
          ∷ (common_headers format_uint c file ++ ((text "content-length", format_uint size) ∷ [])))
        given body (λ s e. inr (inl e)) h
  serve_plan-serve fs c method file size (part start end) given body h =
      with_body-serve fs file method (read_file_range fs file start (end - start))
        ((text ":status", text "206")
          ∷ (common_headers format_uint c file
              ++ ((text "content-length", format_uint (end - start))
                  ∷ (text "content-range", content_range format_uint start end size)
                  ∷ [])))
        given body (λ s e. part_body s e) h
    where
      part_body :
          (s : Bytes)
          → Option.map (λ b. take (end - start) (drop start b)) (fs.contents file) ≡ some s
          → IsBody fs file s
      part_body s e = elim (Option-cases (fs.contents file)) [
        | inl f ↦ absurd (ground arith)
        | inr (b, f) ↦
            let same : take (end - start) (drop start b) ≡ s = ground arith in
            inr (inr (b, start, end - start, f, sym same))
      ]

  -- What is served to a path that a mapping is for.
  serve_mapped-serve :
      (fs : FileSystem) (c : FileServerConfig) (path method range : Bytes) (m : PathMapping)
      (given : List (Bytes × Bytes)) (body : Bytes)
      → m.file_path_prefix ≢ []
      → All HasNoSlash c.directory_index_files
      → serve_mapped format_uint fs c path method range m ≡ serve given body
      → (file : Bytes) × (size : ℕ) × IsInside c m file
        × (fs.stat file ≡ regular size)
        × IsBody fs file body
  unfolding serve_mapped serve_located locate
  serve_mapped-serve fs c path method range m given body n names h =
      elim (Bool-cases (not (method == text "GET") && not (method == text "HEAD"))) [
        | inl e ↦ absurd (ground arith)
        | inr e ↦ elim (Option-cases (apply_path_mapping path m)) [
          | inl f ↦ absurd (ground arith)
          | inr (file, f) ↦
              let served : serve_located format_uint fs c method range (locate fs c file)
                  ≡ serve given body =
                ground arith in
              located file (locate fs c file) (apply_path_mapping-Beneath path file m n f) refl
                served
        ]
      ]
    where
      located :
          (file : Bytes) (l : Located)
          → Beneath m.file_path_prefix file
          → locate_by fs c file (fs.stat file) ≡ l
          → serve_located format_uint fs c method range l ≡ serve given body
          → (f : Bytes) × (size : ℕ) × IsInside c m f
            × (fs.stat f ≡ regular size)
            × IsBody fs f body
      located file (failed status text details) b e k = cc
      located file (found f size) b e k =
          let (inside, r) = locate_by-found fs c m file f size (fs.stat file) names b refl e in
          (f, size, inside, r, serve_plan-serve fs c method f size (plan size range) given body k)

  -- With a valid configuration, a file that is served is the mapping's directory or beneath it, or an index
  -- file, whose name has no slash, in such a directory, where the mapping is the longest of those for the decoded path; it is there and
  -- no directory, and the body is empty, or what the file contains, or a part of it.
  pub on_request_headers-IsServed :
      (fs : FileSystem) (c : FileServerConfig) (headers : Bytes → Bytes)
      (given : List (Bytes × Bytes)) (body : Bytes)
      → validate c ≡ none
      → on_request_headers format_uint fs c headers ≡ serve given body
      → (path : Bytes) × (path_unescape (headers (text ":path")) ≡ some path)
        × IsServed fs c path body
  unfolding on_request_headers serve_path serve_decoded
  on_request_headers-IsServed fs c headers given body v h =
      elim (Option-cases (path_unescape (headers (text ":path")))) [
        | inl e ↦ absurd (ground arith)
        | inr (path, e) ↦ elim (find_mapping-IsLongest c path) [
          | inl (f, all) ↦ absurd (ground arith)
          | inr (m, f, w) ↦
              let named : m.file_path_prefix ≢ [] =
                All-mem HasDirectory c.path_mappings (validate-AreDistinct c v).1 w.there in
              let served : serve_mapped format_uint fs c path (headers (text ":method"))
                    (headers (text "range")) m
                  ≡ serve given body =
                ground arith in
              let (file, size, inside, r, b) =
                serve_mapped-serve fs c path (headers (text ":method")) (headers (text "range")) m
                  given body named (validate-IndexFiles c v) served in
              (
                path,
                e,
                record {
                  mapping = m;
                  file = file;
                  size = size;
                  chosen = w;
                  inside = inside;
                  is_regular = r;
                  is_body = b;
                },
              )
        ]
      ]
