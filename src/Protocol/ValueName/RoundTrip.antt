-- ===== src/Protocol/ValueName/RoundTrip.antt =====
-- `ParseValueName` reads back every name that the server gives to a value.
use mathlib.Core.List.{append_assoc}
use oac_tree_server.Base.{
  ℕ, ◌≤◌, ◌≡◌, ◌≢◌, refl, sym, ap, ◌∙◌, [], ◌∷◌, ◌++◌, none, some, arith, Bytes, codes,
  length-append, All,
}
use oac_tree_server.Protocol.Text.{starts_with}
use oac_tree_server.Protocol.Decimal.{to_string, u32_max}
use oac_tree_server.Protocol.Decimal.RoundTrip.{
  IsDigit, to_string-digits, to_string-cons, parse_index-to_string,
}
use oac_tree_server.Protocol.Names.{
  instruction_id, variable_id, instruction_name, breakpoint_instruction_name, variable_name,
  log_entry_name, message_entry_name, output_value_entry_name, job_state_name,
}
use oac_tree_server.Protocol.ValueName.Text.{
  length_pos, ends_with_literal, ends_with_after_digits, find_last_of-append, take_through,
  drop_through,
}
use oac_tree_server.Protocol.ValueName.{
  ValueNameType, info, unknown, instruction, variable, log_entry, message_entry, output_value_entry,
  job_status, breakpoint_instruction, postfixes, match_postfix, match_index, parse_postfix,
  parse_value_name, value_name,
}

-- The indices that a kind of value has.
abbrev pub IsIndexOf : ValueNameType → ℕ → Type 0
IsIndexOf unknown i = ⊥
IsIndexOf instruction i = i ≤ u32_max
IsIndexOf variable i = i ≤ u32_max
IsIndexOf log_entry i = i ≡ 0
IsIndexOf message_entry i = i ≡ 0
IsIndexOf output_value_entry i = i ≡ 0
IsIndexOf job_status i = i ≡ 0
IsIndexOf breakpoint_instruction i = i ≡ 0

match_postfix_digits :
    (p q : Bytes) → q ≢ [] → All IsDigit q → match_postfix (p ++ q) postfixes ≡ none
unfolding match_postfix
match_postfix_digits p q n h = rw (
  ends_with_after_digits p q (codes "STATE") b'E' _ n h refl (λ k. absurd (omega arith)),
  ends_with_after_digits p q (codes "LOG") b'G' _ n h refl (λ k. absurd (omega arith)),
  ends_with_after_digits p q (codes "MSG") b'G' _ n h refl (λ k. absurd (omega arith)),
  ends_with_after_digits p q (codes "OUT") b'T' _ n h refl (λ k. absurd (omega arith)),
  ends_with_after_digits p q (codes "BP-INSTR") b'R' _ n h refl (λ k. absurd (omega arith)),
)

digits_lack_dash : (q : Bytes) → All IsDigit q → All (λ c. c ≢ b'-') q
digits_lack_dash [] h = tt
digits_lack_dash (c ∷ q) (hc, hq) = ((λ e. omega arith), digits_lack_dash q hq)

to_string-ne-nil : (i : ℕ) → to_string i ≢ []
to_string-ne-nil i e = let (c, s, f) = to_string-cons i in cc

-- The last dash parts the index from what stands before it.
split_at_dash :
    (p stem : Bytes) (i : ℕ)
    → i ≤ u32_max
    → parse_value_name ((p ++ (stem ++ b'-' ∷ [])) ++ to_string i)
      ≡ match_index (p ++ (stem ++ b'-' ∷ [])) (some i)
unfolding parse_value_name
split_at_dash p stem i h =
    let m =
      match_postfix_digits (p ++ (stem ++ b'-' ∷ [])) (to_string i) (to_string-ne-nil i)
        (to_string-digits i) in
    let e : (p ++ (stem ++ b'-' ∷ [])) ++ to_string i ≡ (p ++ stem) ++ b'-' ∷ to_string i =
      simp append_assoc in
    let f =
      find_last_of-append (p ++ stem) (to_string i) b'-'
        (digits_lack_dash (to_string i) (to_string-digits i)) in
    rw m (
      rw (
        e,
        f,
        parse_postfix,
        take_through (p ++ stem) (to_string i) b'-',
        drop_through (p ++ stem) (to_string i) b'-',
        parse_index-to_string i h,
        append_assoc,
      ))

module _ (p : Bytes) (named : p ≢ []) where
  parse-job_state : parse_value_name (job_state_name p) ≡ info job_status 0
  unfolding parse_value_name job_state_name starts_with
  parse-job_state =
      simp ends_with_literal (ground (arith, length_pos p named, length-append p (codes "STATE")))

  parse-log_entry : parse_value_name (log_entry_name p) ≡ info log_entry 0
  unfolding parse_value_name log_entry_name starts_with
  parse-log_entry =
      simp ends_with_literal (ground (arith, length_pos p named, length-append p (codes "LOG")))

  parse-message_entry : parse_value_name (message_entry_name p) ≡ info message_entry 0
  unfolding parse_value_name message_entry_name starts_with
  parse-message_entry =
      simp ends_with_literal (ground (arith, length_pos p named, length-append p (codes "MSG")))

  parse-output_value_entry :
      parse_value_name (output_value_entry_name p) ≡ info output_value_entry 0
  unfolding parse_value_name output_value_entry_name starts_with
  parse-output_value_entry =
      simp ends_with_literal (ground (arith, length_pos p named, length-append p (codes "OUT")))

  parse-breakpoint_instruction :
      parse_value_name (breakpoint_instruction_name p) ≡ info breakpoint_instruction 0
  unfolding parse_value_name breakpoint_instruction_name starts_with
  parse-breakpoint_instruction =
      simp ends_with_literal
        (ground (arith, length_pos p named, length-append p (codes "BP-INSTR")))

  parse-instruction :
      (i : ℕ) → i ≤ u32_max → parse_value_name (instruction_name p i) ≡ info instruction i
  unfolding instruction_name match_index starts_with
  parse-instruction i h =
      split_at_dash p (codes "INSTR") i h
      ∙ simp ends_with_literal (ground (arith, length_pos p named, length-append p instruction_id))

  parse-variable : (i : ℕ) → i ≤ u32_max → parse_value_name (variable_name p i) ≡ info variable i
  unfolding variable_name match_index starts_with
  parse-variable i h =
      split_at_dash p (codes "VAR") i h
      ∙ simp ends_with_literal (ground (arith, length_pos p named, length-append p variable_id))

pub parse-value_name :
    (p : Bytes) (t : ValueNameType) (i : ℕ)
    → p ≢ []
    → IsIndexOf t i
    → parse_value_name (value_name p t i) ≡ info t i
unfolding value_name
parse-value_name p unknown i n h = absurd h
parse-value_name p instruction i n h = parse-instruction p n i h
parse-value_name p variable i n h = parse-variable p n i h
parse-value_name p log_entry i n h = rw h (parse-log_entry p n)
parse-value_name p message_entry i n h = rw h (parse-message_entry p n)
parse-value_name p output_value_entry i n h = rw h (parse-output_value_entry p n)
parse-value_name p job_status i n h = rw h (parse-job_state p n)
parse-value_name p breakpoint_instruction i n h = rw h (parse-breakpoint_instruction p n)

-- Below non-empty prefixes, two names of values are equal only if the kinds and the indices are.
pub value_name_injective :
    (p q : Bytes) (t u : ValueNameType) (i j : ℕ)
    → p ≢ []
    → q ≢ []
    → IsIndexOf t i
    → IsIndexOf u j
    → value_name p t i ≡ value_name q u j
    → (t ≡ u) × (i ≡ j)
value_name_injective p q t u i j n m h k e =
    let f : info t i ≡ info u j =
      sym (parse-value_name p t i n h) ∙ ap parse_value_name e ∙ parse-value_name q u j m k in
    (ap (λ r. r.val_type) f, ap (λ r. r.idx) f)
