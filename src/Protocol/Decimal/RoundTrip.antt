-- ===== src/Protocol/Decimal/RoundTrip.antt =====
-- `ParseIndex` accepts exactly the decimal prints of 32-bit numbers.
use oac_tree_server.Base.{
  ℕ, zero, suc, ◌+◌, ◌/◌, ◌%◌, ◌≤◌, ◌<◌, ◌≡◌, ◌↔◌, inl, inr, sym, ap, ◌∙◌, subst, [], ◌∷◌, Option,
  none, some, arith, Bytes, bytes_eq→eq, bytes_eq_refl, ltb, Bool-cases, All,
}
use oac_tree_server.Protocol.Decimal.{
  emit, to_string, scan, in_range, stoul, check_index, parse_index, u32_max, ulong_mod,
}

abbrev pub IsDigit : ℕ → Type 0
IsDigit c = (b'0' ≤ c) × (c ≤ b'9')

emit-digits : (f n : ℕ) (out : Bytes) → All IsDigit out → All IsDigit (emit f n out)
unfolding emit
emit-digits zero n out h = h
emit-digits (suc f) n out h =
    ground (arith, emit-digits f (n / 10) ((b'0' + n % 10) ∷ out) ((omega arith), h))

pub to_string-digits : (n : ℕ) → All IsDigit (to_string n)
unfolding to_string
to_string-digits n = emit-digits (suc n) n [] tt

emit-cons : (f n : ℕ) (out : Bytes) → n < f → (c : ℕ) × (s : Bytes) × (emit f n out ≡ c ∷ s)
unfolding emit
emit-cons zero n out h = absurd (omega arith)
emit-cons (suc f) n out h = elim (Bool-cases (ltb n 10)) [
  | inl e ↦ (b'0' + n % 10, out, rw e)
  | inr e ↦ rw e (emit-cons f (n / 10) ((b'0' + n % 10) ∷ out) (ground arith))
]

pub to_string-cons : (n : ℕ) → (c : ℕ) × (s : Bytes) × (to_string n ≡ c ∷ s)
unfolding to_string
to_string-cons n = emit-cons (suc n) n [] (omega arith)

scan-emit : (f n : ℕ) (out : Bytes) → n < f → scan 0 (emit f n out) ≡ scan n out
unfolding scan emit
scan-emit zero n out h = absurd (omega arith)
scan-emit (suc f) n out h = elim (Bool-cases (ltb n 10)) [
  | inl e ↦ rw e (ground arith)
  | inr e ↦ rw (e, scan-emit f (n / 10) ((b'0' + n % 10) ∷ out) (ground arith)) (ground arith)
]

-- The digits of `n` read as `n`.
scan-to_string : (n : ℕ) → scan 0 (to_string n) ≡ n
unfolding to_string
scan-to_string n = unfold scan in scan-emit (suc n) n [] (omega arith)

stoul_of_digits : (c : ℕ) (s : Bytes) → IsDigit c → stoul (c ∷ s) ≡ in_range (scan 0 (c ∷ s))
unfolding stoul
stoul_of_digits c s h = ground arith

stoul-to_string : (n : ℕ) → n < ulong_mod → stoul (to_string n) ≡ some n
stoul-to_string n h =
    let (c, s, e) = to_string-cons n in
    let d : All IsDigit (c ∷ s) = subst (All IsDigit) e (to_string-digits n) in
    let v : scan 0 (c ∷ s) ≡ n = ap (scan 0) (sym e) ∙ scan-to_string n in
    rw (e, stoul_of_digits c s d.0, v) (ground arith)

pub parse_index-to_string : (n : ℕ) → n ≤ u32_max → parse_index (to_string n) ≡ some n
unfolding parse_index
parse_index-to_string n h =
    rw (stoul-to_string n (omega arith), check_index, bytes_eq_refl (to_string n)) (ground arith)

check_index_sound :
    (s : Bytes) (o : Option ℕ) (n : ℕ)
    → check_index s o ≡ some n
    → (s ≡ to_string n) × (n ≤ u32_max)
unfolding check_index
check_index_sound s none n h = cc
check_index_sound s (some r) n h = ground (arith, bytes_eq→eq (to_string r) s)

parse_index_sound : (s : Bytes) (n : ℕ) → parse_index s ≡ some n → (s ≡ to_string n) × (n ≤ u32_max)
parse_index_sound s n h = check_index_sound s (stoul s) n (unfold parse_index in h)

-- A text is accepted as the index `n` exactly when it is the decimal print of `n` and `n` fits 32 bits.
pub parse_index_iff :
    (s : Bytes) (n : ℕ) → (parse_index s ≡ some n) ↔ ((s ≡ to_string n) × (n ≤ u32_max))
parse_index_iff s n = (parse_index_sound s n, λ (e, h). rw e (parse_index-to_string n h))
