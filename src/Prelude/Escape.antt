-- ===== src/Prelude/Escape.antt =====
-- Percent-encoding, as Go's net/url does it: `url.QueryEscape`, `url.QueryUnescape` and `url.PathUnescape`.
use built_on_envoy.Prelude.{
  ℕ, ◌+◌, ◌-◌, ◌*◌, ◌/◌, ◌%◌, ◌<◌, Bytes, Bool, true, false, ◌&&◌, ◌||◌, nat_eq, ◌==◌, leb, ltb,
  Option, none, some, [], ◌∷◌, ◌≡◌, refl, arith, if◌then◌else◌, All, Bool-cases, inl, inr,
}

-- A hexadecimal digit of either case, to its value; and a value below 16 to its digit.
unfoldable pub unhex : ℕ → Option ℕ
unhex c =
    if leb b'0' c && leb c b'9'
    then some (c - b'0')
    else if leb b'a' c && leb c b'f'
    then some (c - b'a' + 10)
    else if leb b'A' c && leb c b'F'
    then some (c - b'A' + 10)
    else none

unfoldable pub upper_hex : ℕ → ℕ
upper_hex n = if ltb n 10 then n + b'0' else n + 55

-- The two digits of a byte, if they are digits.
unfoldable pub unhex_pair : ℕ → ℕ → Option ℕ
unhex_pair h l = elim (unhex h) [
  | none ↦ none
  | some a ↦ elim (unhex l) [ none ↦ none | some b ↦ some (a * 16 + b) ]
]

-- A byte in front of a text, if both are there.
abbrev pub cons? : Option ℕ → Option Bytes → Option Bytes
cons? none s = none
cons? (some c) none = none
cons? (some c) (some s) = some (c ∷ s)

-- unescape; `plus` says whether `+` stands for a space
unfoldable pub unescape : Bool → Bytes → Option Bytes
unescape plus [] = some []
unescape plus (c ∷ []) =
    if c == b'%' then none else some ((if plus && (c == b'+') then b' ' else c) ∷ [])
unescape plus (c ∷ d ∷ []) =
    let rest = unescape plus (d ∷ []) in
    if c == b'%' then none else cons? (some (if plus && (c == b'+') then b' ' else c)) rest
unescape plus (c ∷ h ∷ l ∷ s) =
    let decoded = unescape plus s in
    let rest = unescape plus (h ∷ l ∷ s) in
    if c == b'%'
    then cons? (unhex_pair h l) decoded
    else cons? (some (if plus && (c == b'+') then b' ' else c)) rest

abbrev pub path_unescape : Bytes → Option Bytes
path_unescape = unescape false

abbrev pub query_unescape : Bytes → Option Bytes
query_unescape = unescape true

-- The bytes that QueryEscape keeps.
unfoldable pub is_unreserved : ℕ → Bool
is_unreserved c =
    (leb b'a' c && leb c b'z')
    || ((leb b'A' c && leb c b'Z')
        || ((leb b'0' c && leb c b'9')
            || ((c == b'-') || ((c == b'_') || ((c == b'.') || (c == b'~'))))))

unfoldable pub query_escape : Bytes → Bytes
query_escape [] = []
query_escape (c ∷ s) =
    let rest = query_escape s in
    if is_unreserved c
    then c ∷ rest
    else if c == b' '
    then b'+' ∷ rest
    else b'%' ∷ upper_hex (c / 16) ∷ upper_hex (c % 16) ∷ rest

-- The byte that a kept or encoded one stands for.
unescape_byte :
    (plus : Bool) (c : ℕ) (s t : Bytes)
    → (c == b'%') ≡ false
    → unescape plus s ≡ some t
    → unescape plus (c ∷ s) ≡ some ((if plus && (c == b'+') then b' ' else c) ∷ t)
unfolding unescape
unescape_byte plus c [] t h k = ground arith
unescape_byte plus c (d ∷ []) t h k = rw (h, unescape, k) refl
unescape_byte plus c (d ∷ e ∷ s) t h k = rw (h, unescape, k) refl

unhex-upper_hex : (n : ℕ) → n < 16 → unhex (upper_hex n) ≡ some n
unfolding unhex upper_hex
unhex-upper_hex n h = ground arith

unhex_pair-upper_hex :
    (c : ℕ) → c < 256 → unhex_pair (upper_hex (c / 16)) (upper_hex (c % 16)) ≡ some c
unfolding unhex_pair
unhex_pair-upper_hex c h =
    rw (unhex-upper_hex (c / 16) (omega arith), unhex_pair, unhex-upper_hex (c % 16) (omega arith))
      (ground arith)

unreserved_plain :
    (c : ℕ)
    → is_unreserved c ≡ true
    → ((c == b'%') ≡ false) × ((if true && (c == b'+') then b' ' else c) ≡ c)
unfolding is_unreserved
unreserved_plain c h = (ground arith, ground arith)

unescape_encoded :
    (h l c : ℕ) (s t : Bytes)
    → unhex_pair h l ≡ some c
    → unescape true s ≡ some t
    → unescape true (b'%' ∷ h ∷ l ∷ s) ≡ some (c ∷ t)
unfolding unescape
unescape_encoded h l c s t e k = rw (e, k) refl

-- Decoding undoes encoding.
pub query_unescape-query_escape :
    (s : Bytes) → All (λ c. c < 256) s → query_unescape (query_escape s) ≡ some s
unfolding query_escape unescape
query_unescape-query_escape [] h = refl
query_unescape-query_escape (c ∷ s) h =
    let ih = query_unescape-query_escape s h.1 in
    elim (Bool-cases (is_unreserved c)) [
      | inl e ↦
          let (plain, same) = unreserved_plain c e in
          rw (e, query_escape) (rw same at (unescape_byte true c (query_escape s) s plain ih))
      | inr e ↦ elim (Bool-cases (c == b' ')) [
        | inl f ↦
            let space : b' ' ≡ c = ground arith in
            rw (e, query_escape, f)
              (rw space at (unescape_byte true b'+' (query_escape s) s refl ih))
        | inr f ↦
            rw (e, query_escape, f)
              (unescape_encoded (upper_hex (c / 16)) (upper_hex (c % 16)) c (query_escape s) s
                (unhex_pair-upper_hex c h.0) ih)
      ]
    ]
