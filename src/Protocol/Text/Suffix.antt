-- ===== src/Protocol/Text/Suffix.antt =====
-- Both `EndsWith` functions decide whether one text is the end of another.
use mathlib.Core.List.{reverse, reverse-append, reverse-reverse}
use oac_tree_server.Base.{
  ℕ, ◌+◌, ◌-◌, ◌≤◌, ◌≡◌, ◌↔◌, inl, inr, refl, sym, ap, ◌∙◌, Bool, true, false, [], ◌∷◌, ◌++◌, some,
  arith, Bytes, bytes_eq→eq, bytes_eq_refl, length, length-append, drop, drop-length-append, take,
  take-append-drop, leb, Option-cases, Bool-cases,
}
use oac_tree_server.Protocol.Text.{starts_with, rfind, ends_at, ends_with, ends_with_compare}

starts_with-length : (s t : Bytes) → starts_with s t ≡ true → length t ≤ length s
unfolding starts_with
starts_with-length s [] h = omega arith
starts_with-length [] (d ∷ t) h = cc
starts_with-length (c ∷ s) (d ∷ t) h = ground (arith, starts_with-length s t)

starts_with_full : (s t : Bytes) → starts_with s t ≡ true → length t ≡ length s → s ≡ t
unfolding starts_with
starts_with_full [] [] h e = refl
starts_with_full (c ∷ s) [] h e = absurd (omega arith)
starts_with_full [] (d ∷ t) h e = cc
starts_with_full (c ∷ s) (d ∷ t) h e = ground (arith, starts_with_full s t)

starts_with_refl : (t : Bytes) → starts_with t t ≡ true
unfolding starts_with
starts_with_refl [] = refl
starts_with_refl (c ∷ t) = ground (arith, starts_with_refl t)

rfind-le : (s t : Bytes) (p : ℕ) → rfind s t ≡ some p → p + length t ≤ length s
unfolding rfind
rfind-le [] t p h = ground (arith, starts_with-length [] t)
rfind-le (c ∷ s) t p h = elim (Option-cases (rfind s t)) [
  | inl e ↦ ground (arith, starts_with-length (c ∷ s) t)
  | inr (q, e) ↦ ground (arith, rfind-le s t q e)
]

pub ends_with_sound : (s t : Bytes) → ends_with s t ≡ true → (p : Bytes) × (s ≡ p ++ t)
unfolding ends_with
ends_with_sound [] [] h = ([], refl)
ends_with_sound [] (d ∷ t) h = unfold starts_with in cc
ends_with_sound (c ∷ s) t h = elim (Option-cases (rfind s t)) [
  | inl e ↦ ([], starts_with_full (c ∷ s) t (ground arith) (ground arith))
  | inr (q, e) ↦
      let (p, eq) = ends_with_sound s t (rw (e, ends_at) (ground arith)) in (c ∷ p, ap (◌∷◌ c) eq)
]

ends_with_self : (t : Bytes) → ends_with t t ≡ true
unfolding ends_with starts_with
ends_with_self [] = refl
ends_with_self (c ∷ t) = elim (Option-cases (rfind t (c ∷ t))) [
  | inl e ↦ rw (e, ends_at) (ground (arith, starts_with_refl t))
  | inr (q, e) ↦ absurd (omega (arith, rfind-le t (c ∷ t) q e))
]

pub ends_with_complete : (p t : Bytes) → ends_with (p ++ t) t ≡ true
unfolding ends_with
ends_with_complete [] t = ends_with_self t
ends_with_complete (c ∷ p) t = elim (Option-cases (rfind (p ++ t) t)) [
  | inl e ↦ ground (arith, ends_with_complete p t)
  | inr (q, e) ↦ ground (arith, ends_with_complete p t)
]

-- `EndsWith` of oac_tree_protocol.cpp holds exactly when the second text is an end of the first.
pub ends_with_iff : (s t : Bytes) → (ends_with s t ≡ true) ↔ ((p : Bytes) × (s ≡ p ++ t))
ends_with_iff s t = (ends_with_sound s t, λ w. rw (w.1) (ends_with_complete w.0 t))

pub ends_with_compare_sound :
    (s t : Bytes) → ends_with_compare s t ≡ true → (p : Bytes) × (s ≡ p ++ t)
unfolding ends_with_compare
ends_with_compare_sound s t h = elim (Bool-cases (leb (length t) (length s))) [
  | inl e ↦
      let d : drop (length s - length t) s ≡ t = bytes_eq→eq _ t (rw e at h) in
      (
        take (length s - length t) s,
        sym (take-append-drop (length s - length t) s) ∙ ap (◌++◌ (take (length s - length t) s)) d,
      )
  | inr e ↦ ground arith
]

pub ends_with_compare_complete : (p t : Bytes) → ends_with_compare (p ++ t) t ≡ true
unfolding ends_with_compare
ends_with_compare_complete p t =
    let n : length (p ++ t) - length t ≡ length p = omega (arith, length-append p t) in
    let d : drop (length (p ++ t) - length t) (p ++ t) ≡ t = rw n (drop-length-append p t) in
    rw (d, bytes_eq_refl t) (ground (arith, length-append p t))

eq_of_true_iff : (b c : Bool) → (b ≡ true → c ≡ true) → (c ≡ true → b ≡ true) → b ≡ c
eq_of_true_iff true c f g = sym (f refl)
eq_of_true_iff false true f g = g refl
eq_of_true_iff false false f g = refl

-- The two `EndsWith` functions of the repository agree on every pair of texts.
ends_with_agree : (s t : Bytes) → ends_with s t ≡ ends_with_compare s t
ends_with_agree s t =
    eq_of_true_iff _ _
      (λ h. let (p, e) = ends_with_sound s t h in rw e (ends_with_compare_complete p t))
      (λ h. let (p, e) = ends_with_compare_sound s t h in rw e (ends_with_complete p t))

starts_with_sound : (s t : Bytes) → starts_with s t ≡ true → (r : Bytes) × (s ≡ t ++ r)
unfolding starts_with
starts_with_sound s [] h = (s, refl)
starts_with_sound [] (d ∷ t) h = cc
starts_with_sound (c ∷ s) (d ∷ t) h =
    let (r, e) = starts_with_sound s t (ground arith) in (r, ground arith)

pub starts_with-append : (t r : Bytes) → starts_with (t ++ r) t ≡ true
unfolding starts_with
starts_with-append [] r = refl
starts_with-append (c ∷ t) r = ground (arith, starts_with-append t r)

-- Decided from the last character backwards, which computes at a literal behind any text.
pub ends_with-reverse : (s t : Bytes) → ends_with s t ≡ starts_with (reverse s) (reverse t)
ends_with-reverse s t = eq_of_true_iff _ _ forth back
  where
    forth : ends_with s t ≡ true → starts_with (reverse s) (reverse t) ≡ true
    forth h =
        let (p, e) = ends_with_sound s t h in
        rw (e, reverse-append p t) (starts_with-append (reverse t) (reverse p))

    back : starts_with (reverse s) (reverse t) ≡ true → ends_with s t ≡ true
    back h =
        let (r, e) = starts_with_sound (reverse s) (reverse t) h in
        let f : s ≡ reverse r ++ t =
          sym (reverse-reverse s)
          ∙ ap reverse e
          ∙ reverse-append (reverse t) r
          ∙ ap (◌++◌ (reverse r)) (reverse-reverse t) in
        rw f (ends_with_complete (reverse r) t)
