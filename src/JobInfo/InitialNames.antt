-- ===== src/JobInfo/InitialNames.antt =====
-- base/i_anyvalue_io.cpp: the names of the initial values of a job are distinct, and so are those of its instructions.
use oac_tree_server.Base.{
  ℕ, zero, suc, ◌^◌, ◌≤◌, ◌<◌, ◌≡◌, ◌≢◌, refl, ap, true, false, List, [], ◌∷◌, Bytes, ok, arith,
  bytes_eq, bytes_eq_refl, bytes_ne, inl, subst,
}
use oac_tree_server.External.Scalars.{has_name, of_uint32}
use oac_tree_server.External.Dto.{Dto, DtoLaws}
use oac_tree_server.External.OacTree.{OacTree}
use oac_tree_server.Protocol.Fields.{job_state_type, job_state_field}
use oac_tree_server.Protocol.Names.{
  breakpoint_instruction_name, log_entry_name, message_entry_name, output_value_entry_name,
  job_state_name, variable_name, instruction_name,
}
use oac_tree_server.Protocol.Values.{variable_any_value, breakpoint_instruction_value}
use oac_tree_server.Protocol.Values.RoundTrip.{job_state_value_lem}
use oac_tree_server.Protocol.ValueName.{
  ValueNameType, unknown, instruction, variable, log_entry, message_entry, output_value_entry,
  job_status, breakpoint_instruction, value_name,
}
use oac_tree_server.Protocol.ValueName.RoundTrip.{IsIndexOf, value_name_injective}
use oac_tree_server.Output.Codec.{
  log_entry_any_value, message_entry_any_value, output_value_entry_any_value,
}
use oac_tree_server.JobInfo.ValueSets.{variable_values, initial_value_set, instruction_values}
use oac_tree_server.JobInfo.Registers.{distinct}
use oac_tree_server.JobInfo.Names.{
  indexed_values, indexed_in, not_indexed, indexed_misses, indexed-distinct, IsIndexed,
}

module _ {V : Type 0} where
  has_name_skip :
      (j k : Bytes) (v : V) (m : List (Bytes × V))
      → bytes_eq j k ≡ false
      → has_name k m ≡ false
      → has_name k ((j, v) ∷ m) ≡ false
  unfolding has_name
  has_name_skip j k v m e h = ground arith

  distinct_cons :
      (k : Bytes) (v : V) (m : List (Bytes × V))
      → has_name k m ≡ false
      → distinct m ≡ true
      → distinct ((k, v) ∷ m) ≡ true
  unfolding distinct
  distinct_cons k v m h c = ground arith

pub variable-IsIndexed : IsIndexed variable
variable-IsIndexed = λ j l. omega (arith, l)

pub instruction-IsIndexed : IsIndexed instruction
instruction-IsIndexed = λ j l. omega (arith, l)

-- The values that a job starts with.
abbrev pub IsInitial : ℕ → ValueNameType → ℕ → Type 0
IsInitial n unknown i = ⊥
IsInitial n instruction i = ⊥
IsInitial n variable i = i < n
IsInitial n _ i = i ≡ 0

pub initial-IsIndexOf :
    (n : ℕ) (t : ValueNameType) (i : ℕ) → n ≤ 2 ^ 32 → IsInitial n t i → IsIndexOf t i
initial-IsIndexOf n unknown i le h = h
initial-IsIndexOf n instruction i le h = absurd h
initial-IsIndexOf n variable i le h = omega (arith, h, le)
initial-IsIndexOf n log_entry i le h = h
initial-IsIndexOf n message_entry i le h = h
initial-IsIndexOf n output_value_entry i le h = h
initial-IsIndexOf n job_status i le h = h
initial-IsIndexOf n breakpoint_instruction i le h = h

module _ (d : Dto) (o : OacTree d) (p : Bytes) (nonempty : p ≢ []) where
  open d use {AnyValue}

  variables_lem :
      (i n : ℕ)
      → variable_values d o p i n ≡ indexed_values p nonempty variable (variable_any_value d) i n
  unfolding variable_values indexed_values value_name
  variables_lem i zero = refl
  variables_lem i (suc n) =
      ap (◌∷◌ (variable_name p i, variable_any_value d)) (variables_lem (suc i) n)

  pub instructions_lem :
      (i n : ℕ)
      → instruction_values d o p i n
        ≡ indexed_values p nonempty instruction o.instruction_state_any_value i n
  unfolding instruction_values indexed_values value_name
  instructions_lem i zero = refl
  instructions_lem i (suc n) =
      ap (◌∷◌ (instruction_name p i, o.instruction_state_any_value)) (instructions_lem (suc i) n)

  names_ne :
      (t u : ValueNameType) (j : ℕ)
      → IsIndexOf t 0
      → IsIndexOf u j
      → t ≢ u
      → bytes_eq (value_name p t 0) (value_name p u j) ≡ false
  names_ne t u j ht hu n =
      bytes_ne _ _ (λ e. n (value_name_injective p p t u 0 j nonempty nonempty ht hu e).0)

  pub initial_values : ℕ → List (Bytes × AnyValue)
  initial_values n =
      (
        job_state_name p,
        d.struct job_state_type ((job_state_field, d.scalar (of_uint32 o.initial_state)) ∷ []),
      )
      ∷ (breakpoint_instruction_name p, breakpoint_instruction_value d o.invalid_instruction_index)
      ∷ (log_entry_name p, log_entry_any_value d)
      ∷ (message_entry_name p, message_entry_any_value d)
      ∷ (output_value_entry_name p, output_value_entry_any_value d)
      ∷ indexed_values p nonempty variable (variable_any_value d) 0 n

  pub initial_value_set_lem :
      (n : ℕ) → DtoLaws d → initial_value_set d o p n ≡ ok (initial_values n)
  unfolding initial_value_set initial_values
  initial_value_set_lem n laws =
      rw (job_state_value_lem d laws o o.initial_state, variables_lem 0 n) refl

  pub initial-distinct : (n : ℕ) → n ≤ 2 ^ 32 → distinct (initial_values n) ≡ true
  unfolding initial_values value_name
  initial-distinct n le =
      let lack = λ (t : ValueNameType) (h : IsIndexOf t 0) (e : t ≢ variable).
        not_indexed p nonempty t variable (variable_any_value d) 0 n 0 variable-IsIndexed h
          (omega (arith, le)) (inl e) in
      let vs =
        indexed-distinct p nonempty variable (variable_any_value d) 0 n variable-IsIndexed
          (omega (arith, le)) in
      let out =
        distinct_cons _ (output_value_entry_any_value d) _ (lack output_value_entry refl (λ e. cc))
          vs in
      let msg =
        distinct_cons _ (message_entry_any_value d) _
          (has_name_skip _ _ _ _ (names_ne output_value_entry message_entry 0 refl refl (λ e. cc))
            (lack message_entry refl (λ e. cc)))
          out in
      let logs =
        distinct_cons _ (log_entry_any_value d) _
          (has_name_skip _ _ _ _ (names_ne message_entry log_entry 0 refl refl (λ e. cc)) (
            has_name_skip _ _ _ _ (names_ne output_value_entry log_entry 0 refl refl (λ e. cc))
              (lack log_entry refl (λ e. cc))))
          msg in
      let breaks =
        distinct_cons _ (breakpoint_instruction_value d o.invalid_instruction_index) _
          (has_name_skip _ _ _ _ (names_ne log_entry breakpoint_instruction 0 refl refl (λ e. cc)) (
            has_name_skip _ _ _ _
              (names_ne message_entry breakpoint_instruction 0 refl refl (λ e. cc))
              (has_name_skip _ _ _ _
                (names_ne output_value_entry breakpoint_instruction 0 refl refl (λ e. cc))
                (lack breakpoint_instruction refl (λ e. cc)))))
          logs in
      distinct_cons _ _ _
        (has_name_skip _ _ _ _ (names_ne breakpoint_instruction job_status 0 refl refl (λ e. cc)) (
          has_name_skip _ _ _ _ (names_ne log_entry job_status 0 refl refl (λ e. cc)) (
            has_name_skip _ _ _ _ (names_ne message_entry job_status 0 refl refl (λ e. cc)) (
              has_name_skip _ _ _ _ (names_ne output_value_entry job_status 0 refl refl (λ e. cc))
                (lack job_status refl (λ e. cc))))))
        breaks

  -- A name that differs from those of all initial values.
  pub initial_misses :
      (n : ℕ) (x : Bytes)
      → ((t : ValueNameType) (i : ℕ) → IsInitial n t i → value_name p t i ≢ x)
      → has_name x (initial_values n) ≡ false
  unfolding initial_values value_name
  initial_misses n x ne = has_name_skip _ _ _ _ (bytes_ne _ _ (ne job_status 0 refl)) (
      has_name_skip _ _ _ _ (bytes_ne _ _ (ne breakpoint_instruction 0 refl)) (
        has_name_skip _ _ _ _ (bytes_ne _ _ (ne log_entry 0 refl)) (
          has_name_skip _ _ _ _ (bytes_ne _ _ (ne message_entry 0 refl)) (
            has_name_skip _ _ _ _ (bytes_ne _ _ (ne output_value_entry 0 refl)) (
              indexed_misses p nonempty variable (variable_any_value d) 0 n x
                (λ j a b. ne variable j (omega (arith, b))))))))

  -- The names of instructions are not among the initial ones.
  pub initial_lacks :
      (n i : ℕ)
      → n ≤ 2 ^ 32
      → i < 2 ^ 32
      → has_name (value_name p instruction i) (initial_values n) ≡ false
  initial_lacks n i le l = initial_misses n _ (λ t j h e.
      let (q, _) =
        value_name_injective p p t instruction j i nonempty nonempty (initial-IsIndexOf n t j le h)
          (instruction-IsIndexed i l) e in
      subst (λ k. IsInitial n k j) q h)

  pub initial_has :
      (n : ℕ) (t : ValueNameType) (i : ℕ)
      → IsInitial n t i
      → has_name (value_name p t i) (initial_values n) ≡ true
  unfolding initial_values value_name has_name
  initial_has n unknown i h = absurd h
  initial_has n instruction i h = absurd h
  initial_has n variable i h = ground (
    arith,
    indexed_in p nonempty variable (variable_any_value d) 0 n i (omega arith) (omega (arith, h)),
  )
  initial_has n log_entry i h = ground (arith, bytes_eq_refl (log_entry_name p))
  initial_has n message_entry i h = ground (arith, bytes_eq_refl (message_entry_name p))
  initial_has n output_value_entry i h = ground (arith, bytes_eq_refl (output_value_entry_name p))
  initial_has n job_status i h = ground (arith, bytes_eq_refl (job_state_name p))
  initial_has n breakpoint_instruction i h =
      ground (arith, bytes_eq_refl (breakpoint_instruction_name p))
