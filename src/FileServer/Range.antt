-- ===== src/FileServer/Range.antt =====
-- `parseRangeHeader` of file-server/plugin.go, and the part of a file that a request asks for.
use built_on_envoy.Prelude.{
  ℕ, ◌+◌, ◌-◌, ◌*◌, ◌%◌, ◌^◌, ◌<◌, ◌≤◌, Bytes, bytes_eq, nat_eq, text, ◌==◌, false, not, ◌&&◌, ◌||◌,
  [], ◌∷◌, ◌++◌, ◌≡◌, ap, ◌∙◌, refl, arith, if◌then◌else◌, ltb, leb, Option, none, some, cut_prefix,
  cut_prefix_complete, before, after, contains_byte, contains_byte-append, cut_at,
}

abbrev pub max_uint : ℕ
max_uint = 2 ^ 64

-- The decimal digits of `s`, onto `n`; a value that does not fit into 64 bits is refused.
unfoldable pub parse_digits : ℕ → Bytes → Option ℕ
parse_digits n [] = if ltb n max_uint then some n else none
parse_digits n (c ∷ s) =
    let rest = parse_digits (n * 10 + (c - b'0')) s in
    if leb b'0' c && leb c b'9' then rest else none

-- strconv.ParseUint(s, 10, 64)
unfoldable pub parse_uint : Bytes → Option ℕ
parse_uint [] = none
parse_uint (c ∷ s) = parse_digits 0 (c ∷ s)

-- The end of a range, exclusive; 0 stands for an end that is not there, or is no number.
unfoldable pub range_end : Bytes → ℕ
range_end [] = 0
range_end (c ∷ s) = elim (parse_uint (c ∷ s)) [ none ↦ 0 | some end ↦ (end + 1) % max_uint ]

unfoldable pub parse_bounds : Bytes → Bytes → ℕ × ℕ
parse_bounds first second = elim (parse_uint first) [
  | none ↦ (0, 0)
  | some start ↦ (start, range_end second)
]

unfoldable pub parse_spec : Bytes → ℕ × ℕ
parse_spec spec = if contains_byte b',' spec then (0, 0) else elim (after b'-' spec) [
  | none ↦ (0, 0)
  | some second ↦ parse_bounds (before b'-' spec) second
]

-- parseRangeHeader
unfoldable pub parse_range_header : Bytes → ℕ × ℕ
parse_range_header header = elim (cut_prefix header (text "bytes=")) [
  | none ↦ (0, 0)
  | some spec ↦ parse_spec spec
]

-- What the handler makes of the bounds and the size of the file: the whole of it, a part with its end
-- exclusive, or neither.
pub data Plan : Type 0 where
  whole : Plan
  part : ℕ → ℕ → Plan
  not_satisfiable : Plan

unfoldable pub plan_bounds : ℕ → ℕ → ℕ → Plan
plan_bounds size start end =
    if ltb size start || ((not (end == 0) && ltb size end) || (not (end == 0) && ltb end start))
    then not_satisfiable
    else if not (start == 0) || not (end == 0)
    then (let stop = if end == 0 then size else end in
        if leb stop start then not_satisfiable else part start stop)
    else whole

unfoldable pub plan : ℕ → Bytes → Plan
plan size header = plan_bounds size (parse_range_header header).0 (parse_range_header header).1

-- A part lies within the file and is not empty.
abbrev pub IsWithin : ℕ → Plan → Type 0
IsWithin size whole = Unit
IsWithin size not_satisfiable = Unit
IsWithin size (part start end) = (start < end) × (end ≤ size)

pub plan-IsWithin : (size : ℕ) (header : Bytes) → IsWithin size (plan size header)
unfolding plan plan_bounds
plan-IsWithin size header = plan_within (parse_range_header header).0 (parse_range_header header).1
  where
    plan_within : (start end : ℕ) → IsWithin size (plan_bounds size start end)
    plan_within start end = ground arith

parse_bounds-some :
    (x y : Bytes) (a b : ℕ)
    → parse_uint x ≡ some a
    → parse_uint y ≡ some b
    → b < max_uint - 1
    → parse_bounds x y ≡ (a, b + 1)
unfolding parse_bounds range_end parse_uint
parse_bounds-some x [] a b h k l = absurd (ground arith)
parse_bounds-some x (c ∷ y) a b h k l =
    rw (h, parse_bounds, range_end, k) (ap (λ e. (a, e)) (omega arith))

-- What is a number has digits only.
parse_digits_plain :
    (n a k : ℕ) (s : Bytes) → k < b'0' → parse_digits n s ≡ some a → contains_byte k s ≡ false
unfolding parse_digits contains_byte
parse_digits_plain n a k [] l h = refl
parse_digits_plain n a k (c ∷ s) l h =
    ground (arith, parse_digits_plain (n * 10 + (c - b'0')) a k s l)

parse_uint_plain :
    (a k : ℕ) (s : Bytes) → k < b'0' → parse_uint s ≡ some a → contains_byte k s ≡ false
unfolding parse_uint
parse_uint_plain a k [] l h = cc
parse_uint_plain a k (c ∷ s) l h = parse_digits_plain 0 a k (c ∷ s) l h

parse_spec-cut :
    (x y : Bytes) (a b : ℕ)
    → parse_uint x ≡ some a
    → parse_uint y ≡ some b
    → parse_spec (x ++ (b'-' ∷ y)) ≡ parse_bounds x y
unfolding parse_spec contains_byte
parse_spec-cut x y a b h k =
    let (front, rest) = cut_at b'-' x y (parse_uint_plain a b'-' x (omega arith) h) in
    let no_comma : contains_byte b',' (x ++ (b'-' ∷ y)) ≡ false =
      contains_byte-append b',' x (b'-' ∷ y) (parse_uint_plain a b',' x (omega arith) h)
        (parse_uint_plain b b',' y (omega arith) k) in
    rw (no_comma, parse_spec, rest, front) refl

-- A header `bytes=x-y` with two numbers in order, the second below the size of the file, asks for the bytes
-- from the first to the second.
pub plan-part :
    (size a b : ℕ) (x y : Bytes)
    → size < max_uint
    → parse_uint x ≡ some a
    → parse_uint y ≡ some b
    → a ≤ b
    → b < size
    → plan size (text "bytes=" ++ (x ++ (b'-' ∷ y))) ≡ part a (b + 1)
unfolding plan parse_range_header plan_bounds
plan-part size a b x y fits h k order within =
    let bounds : parse_range_header (text "bytes=" ++ (x ++ (b'-' ∷ y))) ≡ (a, b + 1) =
      rw (cut_prefix_complete (text "bytes=") (x ++ (b'-' ∷ y)), parse_range_header)
        (parse_spec-cut x y a b h k ∙ parse_bounds-some x y a b h k (omega arith)) in
    rw (plan, bounds) (ground arith)
