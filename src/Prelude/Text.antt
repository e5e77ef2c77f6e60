-- ===== src/Prelude/Text.antt =====
-- The functions of Go's `strings` that the components share, on bytes: prefixes, cuts and splits.
use mathlib.Core.Logic.{◌≢◌, inl, inr}
use mathlib.Core.Path.{◌≡◌, refl, ap, ◌∙◌}
use mathlib.Core.Bool.{Bool, true, false, ◌&&◌, ◌||◌}
use mathlib.Core.Option.{Option, none, some}
use mathlib.Core.List.{List, [], ◌∷◌, ◌++◌}
use native.Mathlib.Omega.{arith}
use Prim.Native.Nat.{ℕ}
use built_on_envoy.Prelude.Tests.{nat_eq, eq_iff, ◌==◌, Bool-cases, if◌then◌else◌}
use built_on_envoy.Prelude.Strings.{Bytes}

-- strings.HasPrefix(s, prefix)
unfoldable pub has_prefix : Bytes → Bytes → Bool
has_prefix s [] = true
has_prefix [] (c ∷ prefix) = false
has_prefix (d ∷ s) (c ∷ prefix) = d == c && has_prefix s prefix

pub has_prefix_sound :
    (s prefix : Bytes) → has_prefix s prefix ≡ true → (rest : Bytes) × (s ≡ prefix ++ rest)
unfolding has_prefix
has_prefix_sound s [] h = (s, refl)
has_prefix_sound [] (c ∷ prefix) h = cc
has_prefix_sound (d ∷ s) (c ∷ prefix) h =
    let (rest, e) = has_prefix_sound s prefix (ground arith) in (rest, ground (arith, eq_iff d c))

pub has_prefix_complete : (prefix rest : Bytes) → has_prefix (prefix ++ rest) prefix ≡ true
unfolding has_prefix
has_prefix_complete [] [] = refl
has_prefix_complete [] (c ∷ rest) = refl
has_prefix_complete (c ∷ prefix) rest = ground (arith, has_prefix_complete prefix rest)

-- strings.CutPrefix(s, prefix)
unfoldable pub cut_prefix : Bytes → Bytes → Option Bytes
cut_prefix s [] = some s
cut_prefix [] (c ∷ prefix) = none
cut_prefix (d ∷ s) (c ∷ prefix) = if d == c then cut_prefix s prefix else none

pub cut_prefix_sound :
    (s prefix rest : Bytes) → cut_prefix s prefix ≡ some rest → s ≡ prefix ++ rest
unfolding cut_prefix
cut_prefix_sound s [] rest h = cc
cut_prefix_sound [] (c ∷ prefix) rest h = cc
cut_prefix_sound (d ∷ s) (c ∷ prefix) rest h =
    ground (arith, eq_iff d c, cut_prefix_sound s prefix rest)

pub cut_prefix_complete : (prefix rest : Bytes) → cut_prefix (prefix ++ rest) prefix ≡ some rest
unfolding cut_prefix
cut_prefix_complete [] [] = refl
cut_prefix_complete [] (c ∷ rest) = refl
cut_prefix_complete (c ∷ prefix) rest = ground (arith, cut_prefix_complete prefix rest)

-- strings.TrimPrefix(s, prefix)
unfoldable pub trim_prefix : Bytes → Bytes → Bytes
trim_prefix s prefix = elim (cut_prefix s prefix) [ none ↦ s | some rest ↦ rest ]

-- Whether `c` is among the bytes of `s`, and whether it is the last.
unfoldable pub contains_byte : ℕ → Bytes → Bool
contains_byte c [] = false
contains_byte c (d ∷ s) = d == c || contains_byte c s

unfoldable pub ends_with : ℕ → Bytes → Bool
ends_with c [] = false
ends_with c (d ∷ []) = d == c
ends_with c (d ∷ e ∷ s) = ends_with c (e ∷ s)

-- What stands before the first `c`, or all; and what stands after it, if it is there (strings.Cut).
unfoldable pub before : ℕ → Bytes → Bytes
before c [] = []
before c (d ∷ s) = if d == c then [] else d ∷ before c s

unfoldable pub after : ℕ → Bytes → Option Bytes
after c [] = none
after c (d ∷ s) = if d == c then some s else after c s

-- A byte in front of the first of some parts.
unfoldable pub push_first : ℕ → List Bytes → List Bytes
push_first d [] = (d ∷ []) ∷ []
push_first d (p ∷ ps) = (d ∷ p) ∷ ps

-- strings.Split(s, "c")
unfoldable pub split : ℕ → Bytes → List Bytes
split c [] = [] ∷ []
split c (d ∷ s) = if d == c then [] ∷ split c s else push_first d (split c s)

-- strings.Join(parts, "c")
unfoldable pub join : ℕ → List Bytes → Bytes
join c [] = []
join c (p ∷ []) = p
join c (p ∷ q ∷ ps) = p ++ (c ∷ join c (q ∷ ps))

push_first-ne-nil : (d : ℕ) (ps : List Bytes) → push_first d ps ≢ []
unfolding push_first
push_first-ne-nil d [] h = cc
push_first-ne-nil d (p ∷ ps) h = cc

pub split-ne-nil : (c : ℕ) (s : Bytes) → split c s ≢ []
unfolding split
split-ne-nil c [] h = cc
split-ne-nil c (d ∷ s) h = elim (Bool-cases (d == c)) [
  | inl e ↦ absurd (ground arith)
  | inr e ↦ push_first-ne-nil d (split c s) (rw (e, split) at h)
]

push_first-append :
    (d : ℕ) (ps qs : List Bytes) → ps ≢ [] → push_first d (ps ++ qs) ≡ push_first d ps ++ qs
unfolding push_first
push_first-append d [] qs h = absurd (h refl)
push_first-append d (p ∷ ps) qs h = refl

-- A separator splits what stands on its sides.
pub split-append : (c : ℕ) (a b : Bytes) → split c (a ++ (c ∷ b)) ≡ split c a ++ split c b
unfolding split
split-append c [] b = ground (arith, eq_iff c c)
split-append c (d ∷ a) b = elim (Bool-cases (d == c)) [
  | inl e ↦ rw (e, split) (ap (λ ps. [] ∷ ps) (split-append c a b))
  | inr e ↦
      rw (e, split)
        (ap (push_first d) (split-append c a b)
          ∙ push_first-append d (split c a) (split c b) (split-ne-nil c a))
]

pub contains_byte-append :
    (k : ℕ) (s t : Bytes)
    → contains_byte k s ≡ false
    → contains_byte k t ≡ false
    → contains_byte k (s ++ t) ≡ false
unfolding contains_byte
contains_byte-append k [] t h l = l
contains_byte-append k (c ∷ s) t h l = ground (arith, contains_byte-append k s t)

-- A text is cut at the first of the byte.
pub cut_at :
    (k : ℕ) (s t : Bytes)
    → contains_byte k s ≡ false
    → (before k (s ++ (k ∷ t)) ≡ s) × (after k (s ++ (k ∷ t)) ≡ some t)
unfolding contains_byte before after
cut_at k [] t h = (ground arith, ground arith)
cut_at k (c ∷ s) t h = let ih = cut_at k s t (ground arith) in (ground arith, ground arith)

-- strings.Contains
unfoldable pub contains_text : Bytes → Bytes → Bool
contains_text [] part = has_prefix [] part
contains_text (c ∷ s) part = has_prefix (c ∷ s) part || contains_text s part
