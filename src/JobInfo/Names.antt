-- ===== src/JobInfo/Names.antt =====
-- base/i_anyvalue_io.cpp: the names of a job's values differ.
use oac_tree_server.Base.{
  ℕ, zero, suc, ◌+◌, ◌^◌, ◌==◌, ◌≤◌, ◌<◌, ◌≡◌, ◌≢◌, refl, sym, ap, ◌∙◌, true, false, List, [], ◌∷◌,
  Bytes, arith, bytes_eq, bytes_eq→eq, bytes_eq_refl, Bool-cases, inl, inr, ◌⊎◌,
}
use oac_tree_server.External.Scalars.{has_name}
use oac_tree_server.Protocol.ValueName.{ValueNameType, value_name}
use oac_tree_server.Protocol.ValueName.RoundTrip.{IsIndexOf, value_name_injective}
use oac_tree_server.JobInfo.Registers.{distinct}

-- A kind whose values have indices.
abbrev pub IsIndexed : ValueNameType → Type 0
IsIndexed t = (j : ℕ) → j < 2 ^ 32 → IsIndexOf t j

module _ {V : Type 0} (p : Bytes) (nonempty : p ≢ []) where
  -- The values of a kind, at `n` indices from `i` on.
  unfoldable pub indexed_values : ValueNameType → V → ℕ → ℕ → List (Bytes × V)
  indexed_values t w i zero = []
  indexed_values t w i (suc n) = (value_name p t i, w) ∷ indexed_values t w (suc i) n

  pub in_indexed :
      (t : ValueNameType) (w : V) (i n : ℕ) (x : Bytes)
      → has_name x (indexed_values t w i n) ≡ true
      → (j : ℕ) × (i ≤ j) × (j < i + n) × (value_name p t j ≡ x)
  unfolding indexed_values has_name
  in_indexed t w i zero x h = cc
  in_indexed t w i (suc n) x h = elim (Bool-cases (bytes_eq (value_name p t i) x)) [
    | inl e ↦ (i, omega arith, omega arith, bytes_eq→eq _ x e)
    | inr e ↦
        let (j, a, b, f) = in_indexed t w (suc i) n x (ground arith) in
        (j, omega (arith, a), omega (arith, b), f)
  ]

  pub indexed_in :
      (t : ValueNameType) (w : V) (i n j : ℕ)
      → i ≤ j
      → j < i + n
      → has_name (value_name p t j) (indexed_values t w i n) ≡ true
  unfolding indexed_values has_name
  indexed_in t w i zero j a b = absurd (omega (arith, a, b))
  indexed_in t w i (suc n) j a b = elim (Bool-cases (i == j)) [
    | inl e ↦
        let f : i ≡ j = ground arith in
        rw
          (ap (λ k. bytes_eq (value_name p t k) (value_name p t j)) f
            ∙ bytes_eq_refl (value_name p t j))
          refl
    | inr e ↦
        let l : suc i ≤ j = ground arith in
        ground (arith, indexed_in t w (suc i) n j l (omega (arith, b)))
  ]

  -- A name that differs from all of them.
  pub indexed_misses :
      (t : ValueNameType) (w : V) (i n : ℕ) (x : Bytes)
      → ((j : ℕ) → i ≤ j → j < i + n → value_name p t j ≢ x)
      → has_name x (indexed_values t w i n) ≡ false
  indexed_misses t w i n x ne = elim (Bool-cases (has_name x (indexed_values t w i n))) [
    | inr e ↦ e
    | inl e ↦ let (j, a, b, f) = in_indexed t w i n x e in absurd (ne j a b f)
  ]

  -- A name of another kind or index is not among them.
  pub not_indexed :
      (t u : ValueNameType) (w : V) (i n j : ℕ)
      → IsIndexed u
      → IsIndexOf t j
      → i + n ≤ 2 ^ 32
      → (t ≢ u) ⊎ (j < i)
      → has_name (value_name p t j) (indexed_values u w i n) ≡ false
  not_indexed t u w i n j hu ht le d = indexed_misses u w i n _ (λ k a b f.
      let (q, r) =
        value_name_injective p p u t k j nonempty nonempty (hu k (omega (arith, b, le))) ht f in
      elim d [ inl x ↦ x (sym q) | inr x ↦ omega (arith, a, r, x) ])

  pub indexed-distinct :
      (t : ValueNameType) (w : V) (i n : ℕ)
      → IsIndexed t
      → i + n ≤ 2 ^ 32
      → distinct (indexed_values t w i n) ≡ true
  unfolding distinct indexed_values
  indexed-distinct t w i zero h le = refl
  indexed-distinct t w i (suc n) h le =
      rw
        (not_indexed t t w (suc i) n i h (h i (omega (arith, le))) (omega (arith, le))
          (inr (omega arith)))
        (indexed-distinct t w (suc i) n h (omega (arith, le)))
