-- ===== src/Tests/SampleInput.antt =====
-- User input constants and a codec over the concrete value type.
use oac_tree_server.Base.{refl, false, some, arith}
use oac_tree_server.External.UserInput.{UserInput, UserInputReply, UserInputRequest, UserInputLaws}
use oac_tree_server.External.Codec.{Codec, CodecLaws}
use oac_tree_server.Tests.SampleDto.{sample_dto, nothing}

abbrev pub invalid_reply : UserInputReply sample_dto
invalid_reply = record { request_type = 0; result = false; payload = nothing }

abbrev pub invalid_request : UserInputRequest sample_dto
invalid_request = record { request_type = 0; meta_data = nothing; input_value = nothing }

abbrev pub sample_input : UserInput sample_dto
sample_input = record {
  invalid_type = 0;
  user_value_type = 1;
  user_choice_type = 2;
  invalid_request = invalid_request;
  invalid_reply = invalid_reply;
}

pub sample_input-laws : UserInputLaws sample_dto sample_input
sample_input-laws = record {
  invalid_request-type = refl;
  invalid_reply-type = refl;
  user_value-ne-invalid = λ e. omega (arith, e);
  user_choice-ne-invalid = λ e. omega (arith, e);
  user_value-ne-user_choice = λ e. omega (arith, e);
}

abbrev pub sample_codec : Codec sample_dto
sample_codec = record { encode = λ v. some v; decode = λ v. some v }

pub sample_codec-laws : CodecLaws sample_dto sample_codec
sample_codec-laws = record { decode-encode = λ v w e. ground arith }
