-- ===== src/Protocol/ValueName/Text.antt =====
-- Facts on text that the proofs about `ParseValueName` share.
use mathlib.Core.List.{reverse, reverse-append, reverse-cons, reverse-reverse}
use oac_tree_server.Base.{
  ℕ, suc, ◌+◌, ◌<◌, ◌≡◌, ◌≢◌, refl, sym, ap, ◌∙◌, subst, false, [], ◌∷◌, ◌++◌, none, some, arith,
  Bytes, length, take, drop, All, All-append, ◌==◌, ==_iff, Bool-cases, inl, inr,
}
use oac_tree_server.Protocol.Decimal.RoundTrip.{IsDigit}
use oac_tree_server.Protocol.Text.{starts_with, find_last_of, ends_with}
use oac_tree_server.Protocol.Text.Suffix.{ends_with-reverse}

pub length_pos : (p : Bytes) → p ≢ [] → 0 < length p
length_pos [] h = absurd (h refl)
length_pos (c ∷ p) h = omega arith

pub ne_nil : (p : Bytes) → 0 < length p → p ≢ []
ne_nil [] h e = omega arith
ne_nil (c ∷ p) h e = cc

pub ends_with_literal :
    (p l t : Bytes) → ends_with (p ++ l) t ≡ starts_with (reverse l ++ reverse p) (reverse t)
ends_with_literal p l t =
    ends_with-reverse (p ++ l) t ∙ ap (λ r. starts_with r (reverse t)) (reverse-append p l)

-- No text that ends in a digit has an end whose last character is none.
All-reverse : (P : ℕ → Type 0) (s : Bytes) → All P s → All P (reverse s)
All-reverse P [] h = tt
All-reverse P (c ∷ s) (hc, hs) =
    rw (reverse-cons c s) (All-append P (reverse s) (c ∷ []) (All-reverse P s hs) (hc, tt))

starts_with_front :
    (s r t : Bytes) (d : ℕ)
    → s ≢ []
    → All IsDigit s
    → ¬ IsDigit d
    → starts_with (s ++ r) (d ∷ t) ≡ false
unfolding starts_with
starts_with_front [] r t d n h k = absurd (n refl)
starts_with_front (c ∷ s) r t d n (hc, hs) k = elim (Bool-cases (c == d)) [
  | inl e ↦ absurd (k (subst IsDigit ((==_iff c d).0 e) hc))
  | inr e ↦ rw e
]

reverse-ne-nil : (q : Bytes) → q ≢ [] → reverse q ≢ []
reverse-ne-nil q h e = h (sym (reverse-reverse q) ∙ ap reverse e)

pub find_last_of-none : (q : Bytes) (x : ℕ) → All (λ c. c ≢ x) q → find_last_of q x ≡ none
unfolding find_last_of
find_last_of-none [] x h = refl
find_last_of-none (c ∷ q) x (hc, hq) = ground (arith, find_last_of-none q x hq)

pub find_last_of-append :
    (p q : Bytes) (x : ℕ) → All (λ c. c ≢ x) q → find_last_of (p ++ x ∷ q) x ≡ some (length p)
unfolding find_last_of
find_last_of-append [] q x h = ground (arith, find_last_of-none q x h)
find_last_of-append (c ∷ p) q x h = rw (find_last_of-append p q x h)

pub take_through : (p q : Bytes) (x : ℕ) → take (length p + 1) (p ++ x ∷ q) ≡ p ++ x ∷ []
take_through [] q x = refl
take_through (c ∷ p) q x =
    let e : suc (length p) + 1 ≡ suc (length p + 1) = omega arith in
    rw e (ap (◌∷◌ c) (take_through p q x))

pub drop_through : (p q : Bytes) (x : ℕ) → drop (length p + 1) (p ++ x ∷ q) ≡ q
drop_through [] q x = refl
drop_through (c ∷ p) q x =
    let e : suc (length p) + 1 ≡ suc (length p + 1) = omega arith in rw e (drop_through p q x)

-- A text of digits is no end of a text whose last character is no digit.
pub ends_with_after_digits :
    (p q t : Bytes) (d : ℕ) (t' : Bytes)
    → q ≢ []
    → All IsDigit q
    → reverse t ≡ d ∷ t'
    → ¬ IsDigit d
    → ends_with (p ++ q) t ≡ false
ends_with_after_digits p q t d t' n h e k =
    rw (ends_with_literal p q t, e)
      (starts_with_front (reverse q) (reverse p) t' d (reverse-ne-nil q n) (All-reverse IsDigit q h)
        k)
