-- ===== src/FileServer/Head.antt =====
-- How file-server answers HEAD, compared with GET.
use built_on_envoy.Prelude.{
  ℕ, ◌-◌, Bytes, bytes_eq, bytes_beq, text, List, [], ◌∷◌, ◌++◌, Option, none, some, ◌≡◌, ◌⊎◌, inl,
  inr, refl, Option-cases,
}
use built_on_envoy.Prelude.Escape.{path_unescape}
use built_on_envoy.FileServer.Config.{PathMapping, FileServerConfig, find_longest_matching_mapping}
use built_on_envoy.FileServer.Mapping.{apply_path_mapping}
use built_on_envoy.FileServer.Range.{Plan, whole, part, not_satisfiable, plan}
use built_on_envoy.FileServer.Handler.{
  FileSystem, Outcome, pass, refuse, serve, read_error, Located, found, failed, read_file_range,
  locate, with_body, common_headers, content_range, serve_plan, serve_located, serve_mapped,
  serve_decoded, serve_path,
}

-- The same headers, and no body.
abbrev pub without_body : Outcome → Outcome
without_body pass = pass
without_body (refuse status headers body details) = refuse status headers body details
without_body (serve headers body) = serve headers []

-- GET fails to read the file, or HEAD is answered like it, without the body.
abbrev Agree : Outcome → Outcome → Type 0
Agree get head = (get ≡ read_error) ⊎ (head ≡ without_body get)

module _ (format_uint : ℕ → Bytes) where
  with_body-Agree :
      (body : Option Bytes) (headers : List (Bytes × Bytes))
      → Agree
          (with_body format_uint (text "GET") body headers)
          (with_body format_uint (text "HEAD") body headers)
  unfolding with_body bytes_beq
  with_body-Agree none headers = inl refl
  with_body-Agree (some s) headers = inr refl

  serve_located-Agree :
      (fs : FileSystem) (c : FileServerConfig) (range : Bytes) (l : Located)
      → Agree
          (serve_located format_uint fs c (text "GET") range l)
          (serve_located format_uint fs c (text "HEAD") range l)
  unfolding serve_located serve_plan
  serve_located-Agree fs c range (failed status body details) = inr refl
  serve_located-Agree fs c range (found file size) = planned (plan size range)
    where
      planned :
          (p : Plan)
          → Agree
              (serve_plan format_uint fs c (text "GET") file size p)
              (serve_plan format_uint fs c (text "HEAD") file size p)
      planned not_satisfiable = inr refl
      planned whole = with_body-Agree (fs.contents file) (
          (text ":status", text "200")
          ∷ (common_headers format_uint c file ++ ((text "content-length", format_uint size) ∷ [])))
      planned (part start end) = with_body-Agree (read_file_range fs file start (end - start)) (
          (text ":status", text "206")
          ∷ (common_headers format_uint c file
              ++ ((text "content-length", format_uint (end - start))
                  ∷ (text "content-range", content_range format_uint start end size)
                  ∷ [])))

  serve_mapped-Agree :
      (fs : FileSystem) (c : FileServerConfig) (path range : Bytes) (m : PathMapping)
      → Agree
          (serve_mapped format_uint fs c path (text "GET") range m)
          (serve_mapped format_uint fs c path (text "HEAD") range m)
  unfolding serve_mapped bytes_beq
  serve_mapped-Agree fs c path range m = elim (Option-cases (apply_path_mapping path m)) [
    | inl e ↦ rw (e, serve_mapped) (inr refl)
    | inr (file, e) ↦ rw (e, serve_mapped) (serve_located-Agree fs c range (locate fs c file))
  ]

  -- HEAD is answered with the headers or the error that answer GET for the same path and range, and without
  -- a body, unless GET fails because the file cannot be read.
  pub serve_path-head :
      (fs : FileSystem) (c : FileServerConfig) (path range : Bytes)
      → (serve_path format_uint fs c path (text "GET") range ≡ read_error)
        ⊎ (serve_path format_uint fs c path (text "HEAD") range
            ≡ without_body (serve_path format_uint fs c path (text "GET") range))
  unfolding serve_path serve_decoded bytes_beq
  serve_path-head fs c [] range = inr refl
  serve_path-head fs c (x ∷ p) range = elim (Option-cases (path_unescape (x ∷ p))) [
    | inl e ↦ rw (e, serve_path) (inr refl)
    | inr (path, e) ↦ elim (Option-cases (find_longest_matching_mapping c path)) [
      | inl f ↦ rw (e, serve_path, f, serve_decoded) (inr refl)
      | inr (m, f) ↦ rw (e, serve_path, f, serve_decoded) (serve_mapped-Agree fs c path range m)
    ]
  ]
