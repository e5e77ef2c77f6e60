-- ===== src/FileServer/Mapping.antt =====
-- `applyPathMapping` and `contentTypeForPath` of file-server/plugin.go.
use built_on_envoy.Prelude.{
  Bytes, bytes_eq, eq_iff, nat_eq, text, Bool, false, ◌&&◌, ◌||◌, ◌==◌, List, [], ◌∷◌, ◌≡◌, ◌≢◌,
  arith, if◌then◌else◌, All, Option, none, some, split, before, trim_prefix, ends_with, Bool-cases,
  inl, inr, subst, drop, Option-cases,
}
use built_on_envoy.Prelude.Assoc.{lookup}
use built_on_envoy.FileServer.Config.{PathMapping, FileServerConfig}
use built_on_envoy.FileServer.Paths.{
  join_path, Beneath, IsNormal, join_path-Beneath, join_path-nil-Beneath,
}

unfoldable pub is_bad_part : Bytes → Bool
is_bad_part part = (part == text "..") || ((part == text ".") || (part == []))

unfoldable pub has_bad_part : List Bytes → Bool
has_bad_part [] = false
has_bad_part (p ∷ ps) = is_bad_part p || has_bad_part ps

-- What stands before a query, and after the prefix.
unfoldable pub remaining_path : Bytes → PathMapping → Bytes
remaining_path path m = trim_prefix (before b'?' path) m.request_path_prefix

-- The slash at the join point; a second one, there or in the prefix, is refused.
unfoldable pub drop_slash : Bytes → PathMapping → Option Bytes
drop_slash [] m = some []
drop_slash (c ∷ []) m =
    if c == b'/'
    then (if ends_with b'/' m.request_path_prefix then none else some [])
    else some (c ∷ [])
drop_slash (c ∷ d ∷ s) m =
    if c == b'/'
    then (if ends_with b'/' m.request_path_prefix || (d == b'/') then none else some (d ∷ s))
    else some (c ∷ d ∷ s)

unfoldable pub join_remaining : PathMapping → Bytes → Option Bytes
join_remaining m [] = some (join_path m.file_path_prefix [])
join_remaining m (c ∷ s) =
    if has_bad_part (split b'/' (c ∷ s)) then none else some (join_path m.file_path_prefix (c ∷ s))

-- applyPathMapping
unfoldable pub apply_path_mapping : Bytes → PathMapping → Option Bytes
apply_path_mapping path m = elim (drop_slash (remaining_path path m) m) [
  | none ↦ none
  | some remaining ↦ join_remaining m remaining
]

-- The extension of a file name, from its last period on.
unfoldable pub extension_of : Bytes → Bytes
extension_of [] = []
extension_of (c ∷ s) =
    let rest = extension_of s in if rest == [] then (if c == b'.' then c ∷ s else []) else rest

unfoldable pub last_part : List Bytes → Bytes
last_part [] = []
last_part (p ∷ []) = p
last_part (p ∷ q ∷ ps) = last_part (q ∷ ps)

-- filepath.Ext
unfoldable pub path_extension : Bytes → Bytes
path_extension s = extension_of (last_part (split b'/' s))

unfoldable pub trim_last_slashes : Bytes → Bytes
trim_last_slashes [] = []
trim_last_slashes (c ∷ s) =
    let rest = trim_last_slashes s in if (rest == []) && (c == b'/') then [] else c ∷ rest

-- filepath.Base
unfoldable pub base_name : Bytes → Bytes
base_name [] = text "."
base_name (c ∷ s) =
    let name = last_part (split b'/' (trim_last_slashes (c ∷ s))) in
    if name == [] then text "/" else name

abbrev pub or_default : Bytes → Option Bytes → Bytes
or_default default none = default
or_default default (some ct) = ct

unfoldable pub content_type_for_path : FileServerConfig → Bytes → Bytes
content_type_for_path c path =
    let ext = path_extension path in
    or_default c.default_content_type
      (lookup (if ext == [] then base_name path else drop 1 ext) c.content_types)

has_bad_part-IsNormal : (ps : List Bytes) → has_bad_part ps ≡ false → All IsNormal ps
unfolding has_bad_part is_bad_part
has_bad_part-IsNormal [] h = tt
has_bad_part-IsNormal (p ∷ ps) h = (
  (
    λ e. ground (arith, eq_iff p []),
    λ e. ground (arith, eq_iff p (text ".")),
    λ e. ground (arith, eq_iff p (text "..")),
  ),
  has_bad_part-IsNormal ps (ground arith),
)

join_remaining-Beneath :
    (m : PathMapping) (s f : Bytes)
    → m.file_path_prefix ≢ []
    → join_remaining m s ≡ some f
    → Beneath m.file_path_prefix f
unfolding join_remaining
join_remaining-Beneath m [] f n h =
    subst (Beneath m.file_path_prefix) (ground arith) (join_path-nil-Beneath m.file_path_prefix n)
join_remaining-Beneath m (c ∷ s) f n h = elim (Bool-cases (has_bad_part (split b'/' (c ∷ s)))) [
  | inl e ↦ absurd (ground arith)
  | inr e ↦
      let same : join_path m.file_path_prefix (c ∷ s) ≡ f = ground arith in
      subst (Beneath m.file_path_prefix) same (
        join_path-Beneath m.file_path_prefix (c ∷ s) n
          (has_bad_part-IsNormal (split b'/' (c ∷ s)) e))
]

-- Whatever the request's path, a file that it is mapped to is the mapping's directory or a path of normal
-- parts beneath it.
pub apply_path_mapping-Beneath :
    (path f : Bytes) (m : PathMapping)
    → m.file_path_prefix ≢ []
    → apply_path_mapping path m ≡ some f
    → Beneath m.file_path_prefix f
unfolding apply_path_mapping
apply_path_mapping-Beneath path f m n h =
    elim (Option-cases (drop_slash (remaining_path path m) m)) [
      | inl e ↦ cc
      | inr (s, e) ↦ join_remaining-Beneath m s f n (rw (e, apply_path_mapping) at h)
    ]
