-- ===== src/Prelude/Base64.antt =====
-- `base64.StdEncoding.EncodeToString` of Go's encoding/base64.
use built_on_envoy.Prelude.Tests.{if◌then◌else◌, ltb, nat_eq, ◌==◌}
use built_on_envoy.Prelude.Strings.{Bytes}
use mathlib.Core.List.{[], ◌∷◌}
use Prim.Native.Nat.{ℕ, ◌+◌, ◌-◌, ◌*◌, ◌/◌, ◌%◌}

unfoldable pub base64_digit : ℕ → ℕ
base64_digit n =
    if ltb n 26
    then n + b'A'
    else if ltb n 52
    then n - 26 + b'a'
    else if ltb n 62
    then n - 52 + b'0'
    else if n == 62
    then b'+'
    else b'/'

-- Three bytes are four digits; the end is padded.
unfoldable pub base64_encode : Bytes → Bytes
unfolding base64_digit
base64_encode [] = []
base64_encode (a ∷ []) = base64_digit (a / 4) ∷ base64_digit (a % 4 * 16) ∷ b'=' ∷ b'=' ∷ []
base64_encode (a ∷ b ∷ []) =
    base64_digit (a / 4)
    ∷ base64_digit (a % 4 * 16 + b / 16)
    ∷ base64_digit (b % 16 * 4)
    ∷ b'='
    ∷ []
base64_encode (a ∷ b ∷ c ∷ s) =
    base64_digit (a / 4)
    ∷ base64_digit (a % 4 * 16 + b / 16)
    ∷ base64_digit (b % 16 * 4 + c / 64)
    ∷ base64_digit (c % 64)
    ∷ base64_encode s
