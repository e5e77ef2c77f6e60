-- ===== src/Openfga/Source.antt =====
-- `valueSource` of openfga/config.go: a value of a check is fixed, or a header, a segment of the path or a query
-- parameter of the request. `headers` yields the first value of a header, empty where it is not there.
use built_on_envoy.Prelude.{
  ℕ, ◌+◌, Bytes, bytes_eq, nat_eq, text, ◌==◌, Bool, true, false, not, ◌&&◌, List, [], ◌++◌, Option,
  none, some, if◌then◌else◌, before, after, trim_prefix, split, length, get_elem?, leb,
}
use built_on_envoy.Prelude.Int.{ℤ, pos, negsuc, ◌+ℤ◌, ltb_ℤ}
use built_on_envoy.Prelude.Assoc.{lookup}
use built_on_envoy.Prelude.Query.{or_empty, parse_query}

pub record ValueSource : Type 0 where
  pub value : Bytes
  pub header : Bytes
  pub path_segment : Option ℤ
  pub query_param : Bytes
  pub prefix : Bytes
  pub resolved : Bytes

unfoldable pub is_none {ℓ} : {A : Type ℓ} → Option A → Bool
is_none none = true
is_none (some x) = false

-- isEmpty
unfoldable pub is_empty_source : ValueSource → Bool
is_empty_source v =
    (v.value == []) && ((v.header == []) && (is_none v.path_segment && (v.query_param == [])))

-- precompute
unfoldable pub precompute : ValueSource → ValueSource
precompute v = if v.value == [] then v else record {
  value = v.value;
  header = v.header;
  path_segment = v.path_segment;
  query_param = v.query_param;
  prefix = v.prefix;
  resolved = v.prefix ++ v.value;
}

-- segments[idx], or nothing out of range
unfoldable pub segment_at : List Bytes → ℤ → Bytes
segment_at segments (pos i) = or_empty (get_elem? segments i)
segment_at segments (negsuc i) = []

unfoldable pub path_segments : Bytes → List Bytes
path_segments full_path = split b'/' (trim_prefix (before b'?' full_path) (text "/"))

-- extractPathSegment
unfoldable pub extract_path_segment : Bytes → ℤ → Bytes
extract_path_segment full_path idx =
    let segments = path_segments full_path in
    segment_at segments (if ltb_ℤ idx (pos 0) then pos (length segments) +ℤ idx else idx)

-- extractQueryParam
unfoldable pub extract_query_param : Bytes → Bytes → Bytes
extract_query_param full_path name = elim (after b'?' full_path) [
  | none ↦ []
  | some query_part ↦ elim (parse_query query_part) [
    | none ↦ []
    | some pairs ↦ or_empty (lookup name pairs)
  ]
]

abbrev path_or_query : (Bytes → Bytes) → ValueSource → Option ℤ → Bytes
path_or_query headers v (some idx) = extract_path_segment (headers (text ":path")) idx
path_or_query headers v none =
    if v.query_param == [] then [] else extract_query_param (headers (text ":path")) v.query_param

-- The value without its prefix.
unfoldable pub raw_value : (Bytes → Bytes) → ValueSource → Bytes
raw_value headers v =
    if not (v.value == [])
    then v.value
    else if not (v.header == [])
    then headers v.header
    else path_or_query headers v v.path_segment

-- resolve
unfoldable pub resolve : (Bytes → Bytes) → ValueSource → Bytes
resolve headers v =
    let raw = raw_value headers v in
    if not (v.resolved == []) then v.resolved else if raw == [] then [] else v.prefix ++ raw

abbrev pub one_if : Bool → ℕ
one_if b = if b then 1 else 0

unfoldable pub count_set : ValueSource → ℕ
count_set v =
    one_if (not (v.value == []))
    + (one_if (not (v.header == []))
        + (one_if (not (is_none v.path_segment)) + one_if (not (v.query_param == []))))

pub data SourceError : Type 0 where
  none_set : SourceError
  many_set : SourceError

-- validateValueSource
unfoldable pub validate_value_source : ValueSource → Option SourceError
validate_value_source v =
    if count_set v == 0 then some none_set else if leb 2 (count_set v) then some many_set else none
