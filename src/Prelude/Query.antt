-- ===== src/Prelude/Query.antt =====
-- Query strings and form bodies, as `Values.Encode` and `ParseQuery` of Go's net/url have them, for values
-- with one entry for a key. A byte is a number below 256.
use built_on_envoy.Prelude.Tests.{nat_eq, eq_iff, ◌==◌, Bool-cases, if◌then◌else◌}
use built_on_envoy.Prelude.Strings.{Bytes, bytes_eq, bytes_beq}
use built_on_envoy.Prelude.Lists.{All}
use built_on_envoy.Prelude.Text.{
  before, after, contains_byte, contains_byte-append, cut_at, split, join, push_first, split-append,
}
use built_on_envoy.Prelude.Sort.{sort_slice, by_key}
use built_on_envoy.Prelude.Escape.{
  query_escape, query_unescape, query_unescape-query_escape, is_unreserved, upper_hex,
}
use mathlib.Core.Logic.{◌≢◌, inl, inr}
use mathlib.Core.Path.{◌≡◌, refl, sym, ap, ◌∙◌}
use mathlib.Core.Bool.{true, false}
use mathlib.Core.Option.{Option, none, some}
use mathlib.Core.List.{List, [], ◌∷◌, ◌++◌, map, append_assoc}
use native.Mathlib.Omega.{arith}
use Prim.Native.Nat.{ℕ, ◌<◌, ◌/◌, ◌%◌}

abbrev pub Pairs : Type 0
Pairs = List (Bytes × Bytes)

unfoldable pub encode_pair : Bytes × Bytes → Bytes
encode_pair (k, v) = query_escape k ++ (b'=' ∷ query_escape v)

unfoldable pub encode_pairs : Pairs → Bytes
encode_pairs ps = join b'&' (map encode_pair ps)

-- Values.Encode: in the order of the keys
unfoldable pub encode_values : Pairs → Bytes
encode_values ps = encode_pairs (sort_slice (by_key (λ (p : Bytes × Bytes). p.0)) ps)

-- A pair in front of others, if it and they decode.
abbrev pub cons_pair : Option Bytes → Option Bytes → Option Pairs → Option Pairs
cons_pair none v ps = none
cons_pair (some k) none ps = none
cons_pair (some k) (some v) none = none
cons_pair (some k) (some v) (some ps) = some ((k, v) ∷ ps)

abbrev pub or_empty : Option Bytes → Bytes
or_empty none = []
or_empty (some s) = s

unfoldable pub parse_pieces : List Bytes → Option Pairs
parse_pieces [] = some []
parse_pieces (p ∷ ps) =
    let rest = parse_pieces ps in
    if contains_byte b';' p
    then none
    else if p == []
    then rest
    else cons_pair (query_unescape (before b'=' p)) (query_unescape (or_empty (after b'=' p))) rest

-- ParseQuery: the pairs in order, or none if a piece of the query is in error.
unfoldable pub parse_query : Bytes → Option Pairs
parse_query s = parse_pieces (split b'&' s)

abbrev pub AreBytes : Bytes → Type 0
AreBytes = All (λ c. c < 256)

abbrev pub ArePairs : Pairs → Type 0
ArePairs = All (λ (p : Bytes × Bytes). AreBytes p.0 × AreBytes p.1)

hex_unreserved : (n : ℕ) → n < 16 → is_unreserved (upper_hex n) ≡ true
unfolding is_unreserved upper_hex
hex_unreserved n h = ground arith

-- A reserved byte is none of a text that begins with an unreserved one, if it is not in the rest.
unreserved_step :
    (k c : ℕ) (s : Bytes)
    → is_unreserved k ≡ false
    → is_unreserved c ≡ true
    → contains_byte k s ≡ false
    → contains_byte k (c ∷ s) ≡ false
unfolding contains_byte
unreserved_step k c s r u h = elim (Bool-cases (c == k)) [
  | inl e ↦ absurd (cc (r, u, ap is_unreserved ((eq_iff c k).0 e)))
  | inr e ↦ ground arith
]

other_step :
    (k c : ℕ) (s : Bytes) → k ≢ c → contains_byte k s ≡ false → contains_byte k (c ∷ s) ≡ false
unfolding contains_byte
other_step k c s n h = elim (Bool-cases (c == k)) [
  | inl e ↦ absurd (n (sym ((eq_iff c k).0 e)))
  | inr e ↦ ground arith
]

-- A byte that is reserved and no sign of the encoding does not occur in what is encoded.
query_escape_plain :
    (k : ℕ) (s : Bytes)
    → is_unreserved k ≡ false
    → k ≢ b'+'
    → k ≢ b'%'
    → AreBytes s
    → contains_byte k (query_escape s) ≡ false
unfolding query_escape contains_byte
query_escape_plain k [] r p q h = refl
query_escape_plain k (c ∷ s) r p q h =
    let ih = query_escape_plain k s r p q h.1 in
    let high =
      unreserved_step k (upper_hex (c / 16)) (upper_hex (c % 16) ∷ query_escape s) r
        (hex_unreserved (c / 16) (omega (arith, h.0)))
        (unreserved_step k (upper_hex (c % 16)) (query_escape s) r
          (hex_unreserved (c % 16) (omega arith)) ih) in
    elim (Bool-cases (is_unreserved c)) [
      | inl e ↦ rw (e, query_escape) (unreserved_step k c (query_escape s) r e ih)
      | inr e ↦ elim (Bool-cases (c == b' ')) [
        | inl f ↦ rw (e, query_escape, f) (other_step k b'+' (query_escape s) p ih)
        | inr f ↦
            rw (e, query_escape, f)
              (other_step k b'%' (upper_hex (c / 16) ∷ upper_hex (c % 16) ∷ query_escape s) q high)
      ]
    ]

encode_pair_plain :
    (k : ℕ) (p : Bytes × Bytes)
    → is_unreserved k ≡ false
    → k ≢ b'+'
    → k ≢ b'%'
    → k ≢ b'='
    → AreBytes p.0 × AreBytes p.1
    → contains_byte k (encode_pair p) ≡ false
unfolding encode_pair
encode_pair_plain k (key, value) r p q e h =
    contains_byte-append k (query_escape key) (b'=' ∷ query_escape value)
      (query_escape_plain k key r p q h.0)
      (other_step k b'=' (query_escape value) e (query_escape_plain k value r p q h.1))

encode_pair-ne-nil : (p : Bytes × Bytes) → (encode_pair p == []) ≡ false
unfolding encode_pair
encode_pair-ne-nil (key, value) = filled (query_escape key)
  where
    filled : (s : Bytes) → ((s ++ (b'=' ∷ query_escape value)) == []) ≡ false
    filled [] = ground (arith, eq_iff (b'=' ∷ query_escape value) [])
    filled (c ∷ s) = ground (arith, eq_iff (c ∷ (s ++ (b'=' ∷ query_escape value))) [])

-- The bytes that the format itself uses are reserved.
is_unreserved_equals : is_unreserved b'=' ≡ false
unfolding is_unreserved
is_unreserved_equals = refl

is_unreserved_semicolon : is_unreserved b';' ≡ false
unfolding is_unreserved
is_unreserved_semicolon = refl

is_unreserved_ampersand : is_unreserved b'&' ≡ false
unfolding is_unreserved
is_unreserved_ampersand = refl

-- The two sides of an encoded pair decode to the pair.
encode_pair_sides :
    (k v : Bytes)
    → AreBytes k
    → AreBytes v
    → (query_unescape (before b'=' (encode_pair (k, v))) ≡ some k)
      × (query_unescape (or_empty (after b'=' (encode_pair (k, v)))) ≡ some v)
unfolding encode_pair
encode_pair_sides k v h l =
    let (front, rest) =
      cut_at b'=' (query_escape k) (query_escape v)
        (query_escape_plain b'=' k is_unreserved_equals (λ f. omega arith) (λ f. omega arith) h) in
    (
      ap query_unescape front ∙ query_unescape-query_escape k h,
      ap (λ o. query_unescape (or_empty o)) rest ∙ query_unescape-query_escape v l,
    )

-- What one encoded pair is parsed to.
parse_pieces-cons :
    (p : Bytes × Bytes) (pieces : List Bytes) (ps : Pairs)
    → AreBytes p.0 × AreBytes p.1
    → parse_pieces pieces ≡ some ps
    → parse_pieces (encode_pair p ∷ pieces) ≡ some (p ∷ ps)
unfolding parse_pieces
parse_pieces-cons (k, v) pieces ps h e =
    let semicolon =
      encode_pair_plain b';' (k, v) is_unreserved_semicolon (λ f. omega arith) (λ f. omega arith)
        (λ f. omega arith) h in
    let (key, value) = encode_pair_sides k v h.0 h.1 in
    rw (semicolon, parse_pieces, encode_pair-ne-nil (k, v), key, value, e) refl

parse_pieces-map : (ps : Pairs) → ArePairs ps → parse_pieces (map encode_pair ps) ≡ some ps
unfolding parse_pieces
parse_pieces-map [] h = refl
parse_pieces-map (p ∷ ps) h =
    parse_pieces-cons p (map encode_pair ps) ps h.0 (parse_pieces-map ps h.1)

split_plain : (k : ℕ) (s : Bytes) → contains_byte k s ≡ false → split k s ≡ s ∷ []
unfolding contains_byte split push_first
split_plain k [] h = refl
split_plain k (c ∷ s) h =
    let plain : contains_byte k s ≡ false = ground arith in
    let other : (c == k) ≡ false = ground arith in rw (other, split, split_plain k s plain) refl

split-encode_pair :
    (p : Bytes × Bytes)
    → AreBytes p.0 × AreBytes p.1
    → split b'&' (encode_pair p) ≡ encode_pair p ∷ []
split-encode_pair p h = split_plain b'&' (encode_pair p) (
    encode_pair_plain b'&' p is_unreserved_ampersand (λ f. omega arith) (λ f. omega arith)
      (λ f. omega arith) h)

split-join :
    (p : Bytes × Bytes) (ps : Pairs)
    → ArePairs (p ∷ ps)
    → split b'&' (encode_pairs (p ∷ ps)) ≡ map encode_pair (p ∷ ps)
unfolding encode_pairs join
split-join p [] h = split-encode_pair p h.0
split-join p (q ∷ ps) h =
    split-append b'&' (encode_pair p) (encode_pairs (q ∷ ps))
    ∙ (ap (λ s. s ++ split b'&' (encode_pairs (q ∷ ps))) (split-encode_pair p h.0)
        ∙ ap (λ s. encode_pair p ∷ s) (split-join q ps h.1))

-- Parsing undoes encoding.
pub parse_query-encode_pairs : (ps : Pairs) → ArePairs ps → parse_query (encode_pairs ps) ≡ some ps
unfolding parse_query encode_pairs join split parse_pieces contains_byte bytes_beq
parse_query-encode_pairs [] h = refl
parse_query-encode_pairs (p ∷ ps) h =
    ap parse_pieces (split-join p ps h) ∙ parse_pieces-map (p ∷ ps) h

-- One more pair, behind what is encoded.
pub encode_pairs-append :
    (p : Bytes × Bytes) (ps : Pairs) (q : Bytes × Bytes)
    → encode_pairs ((p ∷ ps) ++ (q ∷ [])) ≡ encode_pairs (p ∷ ps) ++ (b'&' ∷ encode_pair q)
unfolding encode_pairs join
encode_pairs-append p [] q = refl
encode_pairs-append p (r ∷ ps) q =
    ap (λ s. encode_pair p ++ (b'&' ∷ s)) (encode_pairs-append r ps q)
    ∙ sym (append_assoc (encode_pair p) (b'&' ∷ encode_pairs (r ∷ ps)) (b'&' ∷ encode_pair q))
