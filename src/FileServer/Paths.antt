-- ===== src/FileServer/Paths.antt =====
-- File paths as Go's path/filepath has them on Unix, which file-server/plugin.go calls: `Clean`, `Join`,
-- `Ext` and `Base`. A path is its parts between slashes; the parts that `Clean` keeps stand in a stack.
use built_on_envoy.Prelude.{
  Bytes, bytes_beq, bytes_eq, eq_iff, nat_eq, text, Bool, true, false, ◌||◌, ◌==◌, List, [], ◌∷◌,
  ◌++◌, ◌≡◌, ◌≢◌, refl, sym, ap, ◌∙◌, arith, if◌then◌else◌, All, split, join, split-append,
}
use mathlib.Core.List.{reverse, append_assoc, append-nil, reverse-cons}

unfoldable pub is_rooted : Bytes → Bool
is_rooted [] = false
is_rooted (c ∷ s) = c == b'/'

-- `..` takes the last part away, is nothing at the root, and stays where there is nothing to take.
unfoldable pub pop_part : Bool → List Bytes → List Bytes
pop_part rooted [] = if rooted then [] else text ".." ∷ []
pop_part rooted (p ∷ stack) = if p == text ".." then text ".." ∷ p ∷ stack else stack

-- One part of the path, onto the parts that are kept, the last on top.
unfoldable pub push_part : Bool → List Bytes → Bytes → List Bytes
push_part rooted stack part =
    if (part == []) || (part == text ".")
    then stack
    else if part == text ".."
    then pop_part rooted stack
    else part ∷ stack

unfoldable pub push_parts : Bool → List Bytes → List Bytes → List Bytes
push_parts rooted stack [] = stack
push_parts rooted stack (p ∷ ps) = push_parts rooted (push_part rooted stack p) ps

unfoldable pub clean_stack : Bytes → List Bytes
clean_stack s = push_parts (is_rooted s) [] (split b'/' s)

-- The path of some parts, in order.
unfoldable pub render : Bool → List Bytes → Bytes
render true parts = b'/' ∷ join b'/' parts
render false [] = text "."
render false (p ∷ ps) = join b'/' (p ∷ ps)

-- filepath.Clean
unfoldable pub clean : Bytes → Bytes
clean s = render (is_rooted s) (reverse (clean_stack s))

-- filepath.Join of two elements
unfoldable pub join_path : Bytes → Bytes → Bytes
join_path [] [] = []
join_path [] (c ∷ b) = clean (c ∷ b)
join_path (c ∷ a) b = clean ((c ∷ a) ++ (b'/' ∷ b))

-- A part that names something in its directory.
abbrev pub IsNormal : Bytes → Type 0
IsNormal part = (part ≢ []) × (part ≢ text ".") × (part ≢ text "..")

-- `file` is `dir`, or a path of normal parts beneath it.
abbrev pub Beneath : Bytes → Bytes → Type 0
Beneath dir file =
    (rest : List Bytes) × All IsNormal rest
    × (file ≡ render (is_rooted dir) (reverse (clean_stack dir) ++ rest))

push_parts-append :
    (rooted : Bool) (stack ps qs : List Bytes)
    → push_parts rooted stack (ps ++ qs) ≡ push_parts rooted (push_parts rooted stack ps) qs
unfolding push_parts
push_parts-append rooted stack [] qs = refl
push_parts-append rooted stack (p ∷ ps) qs =
    push_parts-append rooted (push_part rooted stack p) ps qs

push_part-normal :
    (rooted : Bool) (stack : List Bytes) (p : Bytes)
    → IsNormal p
    → push_part rooted stack p ≡ p ∷ stack
unfolding push_part
push_part-normal rooted stack p h =
    ground (arith, eq_iff p [], eq_iff p (text "."), eq_iff p (text ".."))

push_parts-normal :
    (rooted : Bool) (stack ps : List Bytes)
    → All IsNormal ps
    → reverse (push_parts rooted stack ps) ≡ reverse stack ++ ps
unfolding push_parts
push_parts-normal rooted stack [] h = sym (append-nil (reverse stack))
push_parts-normal rooted stack (p ∷ ps) h = rw (push_part-normal rooted stack p h.0) (
    push_parts-normal rooted (p ∷ stack) ps h.1
    ∙ ap (λ x. x ++ ps) (reverse-cons p stack)
    ∙ append_assoc (reverse stack) (p ∷ []) ps)

is_rooted-append : (a b : Bytes) → a ≢ [] → is_rooted (a ++ b) ≡ is_rooted a
unfolding is_rooted
is_rooted-append [] b h = absurd (h refl)
is_rooted-append (c ∷ a) b h = refl

-- The parts that are kept of a directory and normal parts after it.
clean_stack-append :
    (dir s : Bytes)
    → dir ≢ []
    → All IsNormal (split b'/' s)
    → reverse (clean_stack (dir ++ (b'/' ∷ s))) ≡ reverse (clean_stack dir) ++ split b'/' s
unfolding clean_stack
clean_stack-append dir s h n =
    rw
      (
        is_rooted-append dir (b'/' ∷ s) h,
        split-append b'/' dir s,
        push_parts-append (is_rooted dir) [] (split b'/' dir) (split b'/' s),
      )
      (push_parts-normal (is_rooted dir) (push_parts (is_rooted dir) [] (split b'/' dir))
        (split b'/' s) n)

join_path-clean : (dir s : Bytes) → dir ≢ [] → join_path dir s ≡ clean (dir ++ (b'/' ∷ s))
unfolding join_path
join_path-clean [] s h = absurd (h refl)
join_path-clean (c ∷ dir) s h = refl

-- Joined to a directory, normal parts lead to a place beneath it.
pub join_path-Beneath :
    (dir s : Bytes) → dir ≢ [] → All IsNormal (split b'/' s) → Beneath dir (join_path dir s)
unfolding clean
join_path-Beneath dir s h n = (
  split b'/' s,
  n,
  join_path-clean dir s h
      ∙ rw (clean, is_rooted-append dir (b'/' ∷ s) h, clean_stack-append dir s h n) refl,
)

clean_stack-nil : (dir : Bytes) → dir ≢ [] → clean_stack (dir ++ (b'/' ∷ [])) ≡ clean_stack dir
unfolding clean_stack split push_parts push_part bytes_beq
clean_stack-nil dir h =
    rw
      (
        is_rooted-append dir (b'/' ∷ []) h,
        split-append b'/' dir [],
        push_parts-append (is_rooted dir) [] (split b'/' dir) ([] ∷ []),
      )
      refl

-- Joined to nothing, a directory is itself.
pub join_path-nil-Beneath : (dir : Bytes) → dir ≢ [] → Beneath dir (join_path dir [])
unfolding clean
join_path-nil-Beneath dir h = (
  [],
  tt,
  join_path-clean dir [] h
      ∙ rw
          (
            clean,
            is_rooted-append dir (b'/' ∷ []) h,
            clean_stack-nil dir h,
            append-nil (reverse (clean_stack dir)),
          )
          refl,
)
