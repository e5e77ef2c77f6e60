-- ===== src/Openfga/Resolve.antt =====
-- Sources of openfga that have exactly one field set, and what is precomputed of them.
use built_on_envoy.Prelude.{
  Option, some, ◌≢◌, ◌↔◌, Bytes, bytes_eq, nat_eq, eq_iff, ◌==◌, true, false, [], ◌∷◌, ◌++◌, none,
  ◌≡◌, ◌⊎◌, inl, inr, refl, sym, ap, ◌∙◌, subst, arith, Bool-cases,
}
use built_on_envoy.Prelude.Int.{ℤ}
use built_on_envoy.Openfga.Source.{
  ValueSource, is_none, precompute, count_set, validate_value_source, raw_value, resolve,
}

-- A source is a fixed value, a header, a segment of the path or a query parameter, and no two of them.
abbrev pub IsOneSource : ValueSource → Type 0
IsOneSource v =
    ((v.value ≢ []) × (v.header ≡ []) × (v.path_segment ≡ none) × (v.query_param ≡ []))
    ⊎ ((v.value ≡ []) × (v.header ≢ []) × (v.path_segment ≡ none) × (v.query_param ≡ []))
    ⊎ ((v.value ≡ []) × (v.header ≡ []) × (v.path_segment ≢ none) × (v.query_param ≡ []))
    ⊎ ((v.value ≡ []) × (v.header ≡ []) × (v.path_segment ≡ none) × (v.query_param ≢ []))

is_none-eq : (o : Option ℤ) → (is_none o ≡ true) ↔ (o ≡ none)
unfolding is_none
is_none-eq none = (λ h. refl, λ h. refl)
is_none-eq (some i) = (λ h. cc, λ h. cc)

pub validate_value_source-IsOneSource :
    (v : ValueSource) → validate_value_source v ≡ none → IsOneSource v
unfolding validate_value_source count_set
validate_value_source-IsOneSource v h = ground (
  arith,
  eq_iff v.value [],
  eq_iff v.header [],
  is_none-eq v.path_segment,
  eq_iff v.query_param [],
)

-- A fixed value, which is the only case in which something is precomputed.
abbrev precomputed : ValueSource → ValueSource
precomputed v = record {
  value = v.value;
  header = v.header;
  path_segment = v.path_segment;
  query_param = v.query_param;
  prefix = v.prefix;
  resolved = v.prefix ++ v.value;
}

precompute_cases :
    (v : ValueSource)
    → (((v.value == []) ≡ true) × (precompute v ≡ v))
      ⊎ (((v.value == []) ≡ false) × (precompute v ≡ precomputed v))
unfolding precompute
precompute_cases v = elim (Bool-cases (v.value == [])) [
  | inl e ↦ inl (e, rw (e, precompute) refl)
  | inr e ↦ inr (e, rw (e, precompute) refl)
]

pub precompute-IsOneSource : (v : ValueSource) → IsOneSource v → IsOneSource (precompute v)
unfolding count_set
precompute-IsOneSource v h = elim (precompute_cases v) [
  | inl (e, same) ↦ subst IsOneSource (sym same) h
  | inr (e, same) ↦ subst IsOneSource (sym same) h
]

append_test : (a b : Bytes) → (b == []) ≡ false → ((a ++ b) == []) ≡ false
append_test [] b h = h
append_test (x ∷ a) b h = ground (arith, eq_iff (x ∷ (a ++ b)) [])

-- Precomputing does not change what a source resolves to, whatever the request.
pub resolve-precompute :
    (headers : Bytes → Bytes) (v : ValueSource)
    → v.resolved ≡ []
    → resolve headers (precompute v) ≡ resolve headers v
unfolding resolve raw_value
resolve-precompute headers v h = elim (precompute_cases v) [
  | inl (e, same) ↦ ap (resolve headers) same
  | inr (e, same) ↦
      let empty : (v.resolved == []) ≡ true = (eq_iff v.resolved []).1 h in
      ap (resolve headers) same ∙ (fixed (append_test v.prefix v.value e) ∙ sym (plain empty e))
]
  where
    fixed :
        ((v.prefix ++ v.value) == []) ≡ false
        → resolve headers (precomputed v) ≡ v.prefix ++ v.value
    fixed f = rw (f, resolve) refl

    plain :
        (v.resolved == []) ≡ true
        → (v.value == []) ≡ false
        → resolve headers v ≡ v.prefix ++ v.value
    plain f g =
        let raw : raw_value headers v ≡ v.value = rw (g, raw_value) refl in
        rw (f, resolve, raw, g) refl
