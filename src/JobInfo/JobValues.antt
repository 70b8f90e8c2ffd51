-- ===== src/JobInfo/JobValues.antt =====
-- base/i_anyvalue_io.cpp: the values of a job, those of its start and those of its instructions.
use oac_tree_server.Base.{
  ℕ, ◌^◌, ◌<◌, ◌≡◌, ◌≢◌, ◌||◌, Bool, true, false, List, [], Bytes, Option, none, if◌then◌else◌,
  arith, subst,
}
use oac_tree_server.External.Scalars.{has_name}
use oac_tree_server.External.Dto.{Dto}
use oac_tree_server.External.OacTree.{OacTree}
use oac_tree_server.Protocol.ValueName.{
  ValueNameType, unknown, instruction, variable, log_entry, message_entry, output_value_entry,
  job_status, breakpoint_instruction, value_name,
}
use oac_tree_server.Protocol.ValueName.RoundTrip.{IsIndexOf}
use oac_tree_server.JobInfo.Registers.{distinct}
use oac_tree_server.JobInfo.Names.{indexed_values, indexed_in, in_indexed, indexed-distinct}
use oac_tree_server.JobInfo.InitialNames.{
  initial_values, initial_lacks, initial_has, IsInitial, instruction-IsIndexed,
}

-- The values of a job with `n` variables and `k` instructions.
abbrev pub IsJobValue : ℕ → ℕ → ValueNameType → ℕ → Type 0
IsJobValue n k instruction i = i < k
IsJobValue n k t i = IsInitial n t i

pub job_value-IsIndexOf :
    (n k : ℕ) (t : ValueNameType) (i : ℕ)
    → n < 2 ^ 32
    → k < 2 ^ 32
    → IsJobValue n k t i
    → IsIndexOf t i
job_value-IsIndexOf n k instruction i hn hk h = omega (arith, h, hk)
job_value-IsIndexOf n k variable i hn hk h = omega (arith, h, hn)
job_value-IsIndexOf n k unknown i hn hk h = h
job_value-IsIndexOf n k log_entry i hn hk h = h
job_value-IsIndexOf n k message_entry i hn hk h = h
job_value-IsIndexOf n k output_value_entry i hn hk h = h
job_value-IsIndexOf n k job_status i hn hk h = h
job_value-IsIndexOf n k breakpoint_instruction i hn hk h = h

module _ (d : Dto) (o : OacTree d) (p : Bytes) (nonempty : p ≢ []) where
  open d use {AnyValue}

  abbrev pub instructions : ℕ → List (Bytes × AnyValue)
  instructions k = indexed_values p nonempty instruction o.instruction_state_any_value 0 k

  pub instructions-distinct : (k : ℕ) → k < 2 ^ 32 → distinct (instructions k) ≡ true
  instructions-distinct k hk =
      indexed-distinct p nonempty instruction o.instruction_state_any_value 0 k
        instruction-IsIndexed (omega (arith, hk))

  -- The names of the instructions are new behind the start.
  pub instructions_new :
      (n k : ℕ) (x : Bytes)
      → n < 2 ^ 32
      → k < 2 ^ 32
      → has_name x (instructions k) ≡ true
      → has_name x (initial_values d o p nonempty n) ≡ false
  instructions_new n k x hn hk h =
      let (j, a, b, e) = in_indexed p nonempty instruction o.instruction_state_any_value 0 k x h in
      subst (λ y. has_name y (initial_values d o p nonempty n) ≡ false) e
        (initial_lacks d o p nonempty n j (omega (arith, hn)) (omega (arith, b, hk)))

  pub has_instruction :
      (k i : ℕ) → i < k → has_name (value_name p instruction i) (instructions k) ≡ true
  has_instruction k i h =
      indexed_in p nonempty instruction o.instruction_state_any_value 0 k i (omega arith)
        (omega (arith, h))

  -- One of the two registrations has the name.
  pub has_job_value :
      (n k : ℕ) (t : ValueNameType) (i : ℕ)
      → IsJobValue n k t i
      → (has_name (value_name p t i) (instructions k)
          || has_name (value_name p t i) (initial_values d o p nonempty n))
        ≡ true
  has_job_value n k instruction i h = ground (arith, has_instruction k i h)
  has_job_value n k unknown i h = absurd h
  has_job_value n k variable i h = ground (arith, initial_has d o p nonempty n variable i h)
  has_job_value n k log_entry i h = ground (arith, initial_has d o p nonempty n log_entry i h)
  has_job_value n k message_entry i h =
      ground (arith, initial_has d o p nonempty n message_entry i h)
  has_job_value n k output_value_entry i h =
      ground (arith, initial_has d o p nonempty n output_value_entry i h)
  has_job_value n k job_status i h = ground (arith, initial_has d o p nonempty n job_status i h)
  has_job_value n k breakpoint_instruction i h =
      ground (arith, initial_has d o p nonempty n breakpoint_instruction i h)

pub in_either :
    {A : Type 0} (a b : Bool) (c : Option A)
    → (a || b) ≡ true
    → (if a then c else (if b then c else none)) ≡ c
in_either a b c h = ground arith
