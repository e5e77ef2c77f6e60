-- ===== src/FileServer/Choice.antt =====
-- The mapping that file-server chooses for a path, and what its validation promises.
use mathlib.Core.List.Memᴰ
use mathlib.Core.List.Permᴰ
use mathlib.Core.List.{Memᴰ, Permᴰ}
use built_on_envoy.Prelude.{
  ◌≤◌, none, some, true, false, Bytes, bytes_eq, nat_eq, eq_iff, ◌==◌, ◌&&◌, List, [], ◌∷◌, ◌≡◌,
  ◌≢◌, ◌⊎◌, inl, inr, refl, sym, ap, ◌∙◌, subst, arith, length, has_prefix, All, All-mem, All-imp,
  Bool-cases,
}
use built_on_envoy.Prelude.Sort.{mem-perm}
use built_on_envoy.FileServer.Config.{
  PathMapping, FileServerConfig, is_seen, check_mappings, validate, is_longer, scan_mappings,
  find_longest_matching_mapping,
}

-- `m` is a mapping for the path, and none for it has a longer prefix.
pub record IsLongest (ms : List PathMapping) (path : Bytes) (m : PathMapping) : Type 0 where
  pub there : Memᴰ m ms
  pub for_path : has_prefix path m.request_path_prefix ≡ true
  pub longest :
      (other : PathMapping)
      → Memᴰ other ms
      → has_prefix path other.request_path_prefix ≡ true
      → length other.request_path_prefix ≤ length m.request_path_prefix

-- No two of the mappings are for one prefix, and each has a directory.
abbrev pub AreDistinct : List PathMapping → Type 0
AreDistinct [] = Unit
AreDistinct (m ∷ ms) = All (λ n. m.request_path_prefix ≢ n.request_path_prefix) ms × AreDistinct ms

abbrev pub HasDirectory : PathMapping → Type 0
HasDirectory m = m.file_path_prefix ≢ []

abbrev Fits : Bytes → PathMapping → Type 0
Fits path m = has_prefix path m.request_path_prefix ≡ true

abbrev NotLonger : Bytes → PathMapping → PathMapping → Type 0
NotLonger path m n = Fits path n → length n.request_path_prefix ≤ length m.request_path_prefix

-- A scan from a best so far ends with that, or with a mapping that it comes to.
record EndsWith (path : Bytes) (b : PathMapping) (ms : List PathMapping) (m : PathMapping)
    : Type 0 where
  ends : scan_mappings path (some b) ms ≡ some m
  origin : (m ≡ b) ⊎ (Memᴰ m ms × Fits path m)
  grown : length b.request_path_prefix ≤ length m.request_path_prefix
  others : All (NotLonger path m) ms

scan_mappings-EndsWith :
    (path : Bytes) (b : PathMapping) (ms : List PathMapping)
    → (m : PathMapping) × EndsWith path b ms m
unfolding scan_mappings is_longer
scan_mappings-EndsWith path b [] =
    (b, record { ends = refl; origin = inl refl; grown = omega arith; others = tt })
scan_mappings-EndsWith path b (n ∷ ms) =
    elim (Bool-cases (has_prefix path n.request_path_prefix && is_longer n (some b))) [
      | inl e ↦
          let (m, w) = scan_mappings-EndsWith path n ms in
          let kept : length n.request_path_prefix ≤ length m.request_path_prefix = w.grown in
          (
            m,
            record {
              ends = rw (scan_mappings, e) w.ends;
              origin = elim w.origin [
                | inl same ↦ inr (Memᴰ.head same, subst (Fits path) (sym same) (ground arith))
                | inr (there, fits) ↦ inr (Memᴰ.tail there, fits)
              ];
              grown = ground arith;
              others = (λ f. kept, w.others);
            },
          )
      | inr e ↦
          let (m, w) = scan_mappings-EndsWith path b ms in
          let kept : length b.request_path_prefix ≤ length m.request_path_prefix = w.grown in
          (
            m,
            record {
              ends = rw (scan_mappings, e) w.ends;
              origin = elim w.origin [
                | inl same ↦ inl same
                | inr (there, fits) ↦ inr (Memᴰ.tail there, fits)
              ];
              grown = kept;
              others = (λ f. ground arith, w.others);
            },
          )
    ]

-- No mapping fits, or a longest one is chosen.
Chosen : Bytes → List PathMapping → Type 0
Chosen path ms =
    ((scan_mappings path none ms ≡ none)
      × All (λ m. has_prefix path m.request_path_prefix ≡ false) ms)
    ⊎ ((m : PathMapping) × (scan_mappings path none ms ≡ some m)
        × Memᴰ m ms
        × Fits path m
        × All (NotLonger path m) ms)

scan_first-Chosen :
    (path : Bytes) (n : PathMapping) (ms : List PathMapping)
    → has_prefix path n.request_path_prefix ≡ true
    → Chosen path (n ∷ ms)
unfolding Chosen scan_mappings is_longer
scan_first-Chosen path n ms e =
    let (m, w) = scan_mappings-EndsWith path n ms in
    let kept : length n.request_path_prefix ≤ length m.request_path_prefix = w.grown in
    let found : scan_mappings path none (n ∷ ms) ≡ some m = rw (scan_mappings, e) w.ends in
    inr (elim w.origin [
      | inl same ↦ (m, found, Memᴰ.head same, subst (Fits path) (sym same) e, (λ f. kept, w.others))
      | inr (there, fits) ↦ (m, found, Memᴰ.tail there, fits, (λ f. kept, w.others))
    ])

scan_mappings-Chosen : (path : Bytes) (ms : List PathMapping) → Chosen path ms
unfolding Chosen scan_mappings is_longer
scan_mappings-Chosen path [] = inl (refl, tt)
scan_mappings-Chosen path (n ∷ ms) = elim (Bool-cases (has_prefix path n.request_path_prefix)) [
  | inl e ↦ scan_first-Chosen path n ms e
  | inr e ↦ elim (scan_mappings-Chosen path ms) [
    | inl (h, all) ↦ inl (rw (scan_mappings, e) h, (e, all))
    | inr (m, h, there, fits, all) ↦
        inr (m, rw (scan_mappings, e) h, Memᴰ.tail there, fits, (λ f. cc (e, f), all))
  ]
]

-- A path is given the mapping with the longest prefix of those that fit, and none only if none fits.
pub find_mapping-IsLongest :
    (c : FileServerConfig) (path : Bytes)
    → ((find_longest_matching_mapping c path ≡ none)
        × All (λ m. has_prefix path m.request_path_prefix ≡ false) c.path_mappings)
      ⊎ ((m : PathMapping) × (find_longest_matching_mapping c path ≡ some m)
          × IsLongest c.path_mappings path m)
unfolding find_longest_matching_mapping Chosen
find_mapping-IsLongest c path = elim (scan_mappings-Chosen path c.path_mappings) [
  | inl none_fits ↦ inl none_fits
  | inr (m, h, there, fits, all) ↦ inr (
    m,
    h,
    record {
      there = there;
      for_path = fits;
      longest = λ other q f. All-mem (NotLonger path m) c.path_mappings all q f;
    },
  )
]

-- Prefixes of one length of one path are equal.
prefix_eq_of_length :
    (s p q : Bytes) → has_prefix s p ≡ true → has_prefix s q ≡ true → length p ≡ length q → p ≡ q
unfolding has_prefix
prefix_eq_of_length s [] [] h k l = refl
prefix_eq_of_length s [] (y ∷ q) h k l = absurd (omega arith)
prefix_eq_of_length s (x ∷ p) [] h k l = absurd (omega arith)
prefix_eq_of_length [] (x ∷ p) (y ∷ q) h k l = cc
prefix_eq_of_length (c ∷ s) (x ∷ p) (y ∷ q) h k l =
    ground (arith, eq_iff c x, eq_iff c y, prefix_eq_of_length s p q)

eq_of_prefix :
    (ms : List PathMapping) (a b : PathMapping)
    → AreDistinct ms
    → Memᴰ a ms
    → Memᴰ b ms
    → a.request_path_prefix ≡ b.request_path_prefix
    → a ≡ b
eq_of_prefix [] a b d p q e = elim p [ ]
eq_of_prefix (m ∷ ms) a b d p q e = elim (Memᴰ.cases_cons p) [
  | inl u ↦ elim (Memᴰ.cases_cons q) [
    | inl v ↦ u ∙ sym v
    | inr v ↦ absurd (
        All-mem (λ n. m.request_path_prefix ≢ n.request_path_prefix) ms d.0 v
          (ap (λ (x : PathMapping). x.request_path_prefix) (sym u) ∙ e))
  ]
  | inr u ↦ elim (Memᴰ.cases_cons q) [
    | inl v ↦ absurd (
        All-mem (λ n. m.request_path_prefix ≢ n.request_path_prefix) ms d.0 u
          (ap (λ (x : PathMapping). x.request_path_prefix) (sym v) ∙ sym e))
    | inr v ↦ eq_of_prefix ms a b d.1 u v e
  ]
]

check_mappings-AreDistinct :
    (ms : List PathMapping) (seen : List Bytes)
    → check_mappings ms seen ≡ none
    → AreDistinct ms
      × All HasDirectory ms
      × All (λ n. is_seen n.request_path_prefix seen ≡ false) ms
unfolding check_mappings is_seen
check_mappings-AreDistinct [] seen h = (tt, tt, tt)
check_mappings-AreDistinct (m ∷ ms) seen h =
    let later : check_mappings ms (m.request_path_prefix ∷ seen) ≡ none = ground arith in
    let named : (m.file_path_prefix == []) ≡ false = ground arith in
    let fresh : is_seen m.request_path_prefix seen ≡ false = ground arith in
    let (distinct, dirs, unseen) =
      check_mappings-AreDistinct ms (m.request_path_prefix ∷ seen) later in
    (
      (
        All-imp (λ n. is_seen n.request_path_prefix (m.request_path_prefix ∷ seen) ≡ false)
            (λ n. m.request_path_prefix ≢ n.request_path_prefix)
            (λ n w e. ground (arith, eq_iff m.request_path_prefix n.request_path_prefix)) ms unseen,
        distinct,
      ),
      ((λ e. ground (arith, eq_iff m.file_path_prefix [])), dirs),
      (
        fresh,
        All-imp (λ n. is_seen n.request_path_prefix (m.request_path_prefix ∷ seen) ≡ false)
            (λ n. is_seen n.request_path_prefix seen ≡ false) (λ n w. ground arith) ms unseen,
      ),
    )

-- What validation promises of the mappings.
pub validate-AreDistinct :
    (c : FileServerConfig)
    → validate c ≡ none
    → AreDistinct c.path_mappings × All HasDirectory c.path_mappings
unfolding validate
validate-AreDistinct c h =
    let checked : check_mappings c.path_mappings [] ≡ none = ground arith in
    let (distinct, dirs, unseen) = check_mappings-AreDistinct c.path_mappings [] checked in
    (distinct, dirs)

none_fits :
    (path : Bytes) (ms : List PathMapping) (n : PathMapping)
    → All (λ m. has_prefix path m.request_path_prefix ≡ false) ms
    → Memᴰ n ms
    → has_prefix path n.request_path_prefix ≢ true
none_fits path ms n all there fits =
    cc (All-mem (λ m. has_prefix path m.request_path_prefix ≡ false) ms all there, fits)

IsLongest-eq :
    (ms ns : List PathMapping) (path : Bytes) (m n : PathMapping)
    → AreDistinct ms
    → Permᴰ ms ns
    → IsLongest ms path m
    → IsLongest ns path n
    → m ≡ n
IsLongest-eq ms ns path m n distinct p v w =
    let there : Memᴰ n ms = mem-perm (Permᴰ.symm p) w.there in
    let below = v.longest n there w.for_path in
    let above = w.longest m (mem-perm p v.there) v.for_path in
    eq_of_prefix ms m n distinct v.there there (
      prefix_eq_of_length path m.request_path_prefix n.request_path_prefix v.for_path w.for_path
        (omega arith))

-- Two configurations with the same mappings, in any order, choose the same mapping for every path, if the
-- first is valid.
pub find_longest-eq_of_perm :
    (c d : FileServerConfig) (path : Bytes)
    → validate c ≡ none
    → Permᴰ c.path_mappings d.path_mappings
    → find_longest_matching_mapping c path ≡ find_longest_matching_mapping d path
find_longest-eq_of_perm c d path h p = elim (find_mapping-IsLongest c path) [
  | inl (e, all) ↦ elim (find_mapping-IsLongest d path) [
    | inl (f, others) ↦ e ∙ sym f
    | inr (n, f, w) ↦
        absurd (none_fits path c.path_mappings n all (mem-perm (Permᴰ.symm p) w.there) w.for_path)
  ]
  | inr (m, e, v) ↦ elim (find_mapping-IsLongest d path) [
    | inl (f, others) ↦
        absurd (none_fits path d.path_mappings m others (mem-perm p v.there) v.for_path)
    | inr (n, f, w) ↦
        let same =
          IsLongest-eq c.path_mappings d.path_mappings path m n (validate-AreDistinct c h).0 p v
            w in
        e ∙ (ap some same ∙ sym f)
  ]
]
