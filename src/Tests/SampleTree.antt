-- ===== src/Tests/SampleTree.antt =====
-- A small oac-tree core over the concrete value type: an instruction state is a number.
use oac_tree_server.Base.{
  ℕ, ◌≡◌, refl, ap, true, List, [], ◌∷◌, Option, none, some, Bytes, if◌then◌else◌,
}
use oac_tree_server.External.Scalars.{ℤ, pos, of_string, of_int32, of_uint32}
use oac_tree_server.External.OacTree.{OacTree, OacTreeLaws}
use oac_tree_server.JobInfo.{UserAnswers}
use oac_tree_server.Tests.SampleDto.{sample_dto, Value, nothing, end, leaf, member, assign}
use oac_tree_server.Tests.SampleInput.{sample_input}

abbrev to_state : Value → Option ℕ
to_state (leaf (of_uint32 n)) = some n
to_state _ = none

abbrev from_text : Value → Value → Option (Value × Bytes)
from_text v (leaf (of_string s)) = some (v, s)
from_text v _ = none

abbrev of_options : List Bytes → Value
of_options [] = end
of_options (c ∷ cs) = member c nothing (of_options cs)

abbrev to_options : Value → List Bytes
to_options (member c v m) = c ∷ to_options m
to_options _ = []

to_options-of_options : (cs : List Bytes) → to_options (of_options cs) ≡ cs
to_options-of_options [] = refl
to_options-of_options (c ∷ cs) = ap (◌∷◌ c) (to_options-of_options cs)

abbrev to_choice : Value → Option ℤ
to_choice (leaf (of_int32 z)) = some z
to_choice _ = none

abbrev pub sample_tree : OacTree sample_dto
sample_tree = record {
  InstructionState = ℕ;
  initial_state = 0;
  invalid_instruction_index = 4294967295;
  instruction_state_any_value = leaf (of_uint32 0);
  to_any_value = λ n. leaf (of_uint32 n);
  to_instruction_state = to_state;
  try_assign = assign;
  create_user_value_request =
      λ v s. record { request_type = 1; meta_data = leaf (of_string s); input_value = v };
  parse_user_value_request = λ r. from_text r.input_value r.meta_data;
  create_user_value_reply = λ b v. record { request_type = 1; result = b; payload = v };
  parse_user_value_reply = λ r. if r.result then some r.payload else none;
  create_user_choice_request =
      λ cs v. record { request_type = 2; meta_data = of_options cs; input_value = v };
  parse_user_choice_request = λ r. some (to_options r.meta_data, r.input_value);
  create_user_choice_reply =
      λ b z. record { request_type = 2; result = b; payload = leaf (of_int32 z) };
  parse_user_choice_reply = λ r. to_choice r.payload;
}

pub sample_tree-laws : OacTreeLaws sample_dto sample_input sample_tree
sample_tree-laws = record {
  to_instruction_state-to_any_value = λ s. refl;
  value_request-type = λ v s. refl;
  parse-value_request = λ v s. refl;
  parse-value_reply = λ b v. refl;
  choice_request-type = λ cs v. refl;
  parse-choice_request = λ cs v. ap (λ o. some (o, v)) (to_options-of_options cs);
  parse-choice_reply = λ z. refl;
}

abbrev pub sample_answers : UserAnswers sample_dto
sample_answers = record {
  get_user_value = λ id v s. (true, leaf (of_uint32 id));
  get_user_choice = λ id cs v. pos 1;
}
