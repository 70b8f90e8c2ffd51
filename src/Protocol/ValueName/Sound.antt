-- ===== src/Protocol/ValueName/Sound.antt =====
-- `ParseValueName` recognises nothing but the names that the server gives to values.
use oac_tree_server.Base.{
  ℕ, ◌+◌, ◌≤◌, ◌≡◌, ◌≢◌, ◌↔◌, ◌⊎◌, inl, inr, refl, sym, ap, ◌∙◌, subst, true, false, not, ◌&&◌,
  List, [], ◌∷◌, ◌++◌, Option, none, some, arith, Bytes, length, take, drop, take-append-drop, All,
  ◌==◌, if◌then◌else◌, Bool-cases, Option-cases,
}
use oac_tree_server.Protocol.Text.{find_last_of, ends_with}
use oac_tree_server.Protocol.Text.Suffix.{ends_with_sound}
use oac_tree_server.Protocol.Decimal.{to_string, parse_index, u32_max}
use oac_tree_server.Protocol.Decimal.RoundTrip.{parse_index_iff}
use oac_tree_server.Protocol.Names.{
  instruction_id, variable_id, instruction_name, breakpoint_instruction_name, variable_name,
  log_entry_name, message_entry_name, output_value_entry_name, job_state_name,
}
use oac_tree_server.Protocol.ValueName.RoundTrip.{IsIndexOf, parse-value_name}
use oac_tree_server.Protocol.ValueName.{
  ValueNameType, ValueNameInfo, info, unknown_info, unknown, instruction, variable, postfixes,
  match_postfix, match_index, split_index, parse_postfix, parse_value_name, value_name,
}

-- The text is a name of the kind and the index below a non-empty prefix.
abbrev pub IsNameOf : Bytes → ValueNameInfo → Type 0
IsNameOf s r =
    (p : Bytes) × (p ≢ []) × IsIndexOf r.val_type r.idx × (s ≡ value_name p r.val_type r.idx)

abbrev pub Explains : Bytes → ValueNameInfo → Type 0
Explains s r = (r ≡ unknown_info) ⊎ IsNameOf s r

proper_prefix :
    (s t : Bytes)
    → ends_with s t ≡ true
    → (length s == length t) ≡ false
    → (p : Bytes) × (p ≢ []) × (s ≡ p ++ t)
proper_prefix s t h n =
    let (p, e) = ends_with_sound s t h in
    (p, (λ z. let g : s ≡ t = e ∙ ap (λ r. r ++ t) z in absurd (ground (arith, ap length g))), e)

-- One row of the table of postfixes.
postfix_row :
    (s t : Bytes) (k : ValueNameType) (r : ValueNameInfo)
    → ends_with s t ≡ true
    → IsIndexOf k 0
    → ((p : Bytes) → value_name p k 0 ≡ p ++ t)
    → (if length s == length t then unknown_info else info k 0) ≡ r
    → Explains s r
postfix_row s t k r h c names e = elim (Bool-cases (length s == length t)) [
  | inl q ↦ inl (ground arith)
  | inr q ↦
      let (p, n, f) = proper_prefix s t h q in
      subst (Explains s) (rw q at e) (inr (p, n, c, f ∙ sym (names p)))
]

abbrev IsRow : Bytes × ValueNameType → Type 0
IsRow w = IsIndexOf w.1 0 × ((p : Bytes) → value_name p w.1 0 ≡ p ++ w.0)

some_value : {a b : ValueNameInfo} → some a ≡ some b → a ≡ b
some_value h = cc

match_postfix-Explains :
    (s : Bytes) (table : List (Bytes × ValueNameType)) (r : ValueNameInfo)
    → All IsRow table
    → match_postfix s table ≡ some r
    → Explains s r
unfolding match_postfix
match_postfix-Explains s [] r rows h = cc
match_postfix-Explains s ((t, k) ∷ table) r ((c, names), rows) h =
    elim (Bool-cases (ends_with s t)) [
      | inl e ↦ postfix_row s t k r e c names (some_value (rw e at h))
      | inr e ↦ match_postfix-Explains s table r rows (rw e at h)
    ]

postfixes-rows : All IsRow postfixes
unfolding value_name job_state_name log_entry_name message_entry_name output_value_entry_name
    breakpoint_instruction_name
postfixes-rows = (
  (refl, λ p. refl),
  ((refl, λ p. refl), ((refl, λ p. refl), ((refl, λ p. refl), ((refl, λ p. refl), tt)))),
)

-- One of the two tests for an index.
index_test :
    (s rem t : Bytes) (k : ValueNameType) (i : ℕ)
    → (ends_with rem t && not (length rem == length t)) ≡ true
    → IsIndexOf k i
    → ((p : Bytes) → value_name p k i ≡ (p ++ t) ++ to_string i)
    → s ≡ rem ++ to_string i
    → Explains s (info k i)
index_test s rem t k i h c names e =
    let (p, n, f) = proper_prefix rem t (ground arith) (ground arith) in
    inr (p, n, c, e ∙ ap (λ r. r ++ to_string i) f ∙ sym (names p))

match_index-Explains :
    (s rem : Bytes) (i : ℕ)
    → i ≤ u32_max
    → s ≡ rem ++ to_string i
    → Explains s (match_index rem (some i))
unfolding match_index value_name instruction_name variable_name
match_index-Explains s rem i h e =
    elim (Bool-cases (ends_with rem instruction_id && not (length rem == length instruction_id))) [
      | inl a ↦ rw a (index_test s rem instruction_id instruction i a h (λ p. refl) e)
      | inr a ↦
          elim (Bool-cases (ends_with rem variable_id && not (length rem == length variable_id))) [
            | inl b ↦ rw (a, b) (index_test s rem variable_id variable i b h (λ p. refl) e)
            | inr b ↦ rw (a, b) (inl refl)
          ]
    ]

split_index-Explains : (s : Bytes) (o : Option ℕ) → Explains s (split_index s o)
unfolding split_index
split_index-Explains s none = inl refl
split_index-Explains s (some pos) = elim (Option-cases (parse_index (drop (pos + 1) s))) [
  | inl e ↦ rw (e, match_index) (inl refl)
  | inr (i, e) ↦
      let (f, h) = (parse_index_iff (drop (pos + 1) s) i).0 e in
      rw e (
        match_index-Explains s (take (pos + 1) s) i h
          (sym (take-append-drop (pos + 1) s) ∙ ap (λ r. take (pos + 1) s ++ r) f))
]

parse_value_name-Explains : (s : Bytes) → Explains s (parse_value_name s)
unfolding parse_value_name
parse_value_name-Explains s = elim (Option-cases (match_postfix s postfixes)) [
  | inl e ↦ rw (e, parse_postfix) (split_index-Explains s (find_last_of s b'-'))
  | inr (r, e) ↦ rw (e, parse_postfix) (match_postfix-Explains s postfixes r postfixes-rows e)
]

-- A text is parsed as a kind other than `unknown` and an index exactly when it is the name that the
-- server gives to such a value below some non-empty prefix, and the index is one of that kind.
pub parse_value_name_iff :
    (s : Bytes) (r : ValueNameInfo)
    → ((parse_value_name s ≡ r) × (r.val_type ≢ unknown)) ↔ IsNameOf s r
parse_value_name_iff s r = (forth, back)
  where
    forth : (parse_value_name s ≡ r) × (r.val_type ≢ unknown) → IsNameOf s r
    forth (e, n) = elim (subst (Explains s) e (parse_value_name-Explains s)) [
      | inl u ↦ absurd (n (ap (λ q. q.val_type) u))
      | inr w ↦ w
    ]

    not_unknown : (t : ValueNameType) (i : ℕ) → IsIndexOf t i → t ≢ unknown
    not_unknown unknown i c z = c
    not_unknown _ i c z = cc

    back : IsNameOf s r → (parse_value_name s ≡ r) × (r.val_type ≢ unknown)
    back (p, n, c, e) =
        (rw e (parse-value_name p r.val_type r.idx n c), not_unknown r.val_type r.idx c)
