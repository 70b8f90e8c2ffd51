-- ===== src/Tests/Input.antt =====
-- The request server and the reply delegator at concrete calls.
use oac_tree_server.Base.{
  ℕ, ◌≡◌, ◌≢◌, ◌↔◌, ◌≤◌, ◌<◌, ◌⊎◌, ◌+◌, ◌&&◌, ◌++◌, true, [], ◌∷◌, some, ok, ◌>>=◌, ◌==◌, arith,
  length, List,
}
use oac_tree_server.External.UserInput.{UserInputReply, UserInputRequest}
use oac_tree_server.Input.RequestServer.{
  init, init_new_request, set_client_reply, is_valid, run, Call, replies,
}
use oac_tree_server.Input.RequestServer.Spec.{
  first_reply, is_interrupted, or_else, is_none, run-init_new_request, set_client_reply_accepts,
}
use oac_tree_server.Input.RequestServer.Wait.{Returns, outcome, Returns-outcome}
use oac_tree_server.Input.Delegator as Delegator
use oac_tree_server.Input.Delegator.{
  ReplyInfo, Event, queues, interrupts as interrupts_all, halts, works, interrupt_all, set_halt,
  stopped,
}
use oac_tree_server.Input.Delegator.Order.{
  handled, queued, in_flight, handled_since_interrupt, interrupt_all_calls,
}
use oac_tree_server.Input.Delegator.Halting.{rounds, set_halt_stops}
use oac_tree_server.Output.Total.{Finds}
use oac_tree_server.Input.Codec.{
  encode_input_request, decode_input_request, encode_input_reply, decode_input_reply, reply_payload,
}
use oac_tree_server.Input.Codec.RoundTrip.{transported, decode-encode_input}
use oac_tree_server.Input.Codec.Total.{HoldsRequest, EncodesReply, decode_input-Finds}
use oac_tree_server.Tests.SampleDto.{sample_dto, sample_dto-laws, nothing}
use oac_tree_server.Tests.SampleInput.{
  sample_input, sample_input-laws, invalid_reply, sample_codec, sample_codec-laws,
}

abbrev answer : UserInputReply sample_dto
answer = record { request_type = 1; result = true; payload = nothing }

abbrev two_replies : List (Call sample_dto sample_input)
two_replies = replies 6 answer ∷ replies 7 answer ∷ []

seven-ne-zero : ◌≢◌ {A = ℕ} 7 0
seven-ne-zero = λ e. omega (arith, e)

run-init_new_request_example :
    run sample_dto sample_input
      (init_new_request sample_dto sample_input (init sample_dto sample_input) 7)
      two_replies
    ≡ record {
      request_id = 7;
      reply =
          or_else sample_dto sample_input 7 invalid_reply
            (first_reply sample_dto sample_input 7 two_replies);
      interrupted = is_interrupted sample_dto sample_input 7 two_replies;
    }
run-init_new_request_example =
    run-init_new_request sample_dto sample_input 7 (init sample_dto sample_input) two_replies
      sample_input-laws seven-ne-zero

set_client_reply_accepts_example :
    (set_client_reply sample_dto sample_input
      (run sample_dto sample_input
        (init_new_request sample_dto sample_input (init sample_dto sample_input) 7)
        two_replies)
      7
      answer).1
    ≡ (7 == 7
        && is_valid sample_dto sample_input answer
        && is_none sample_dto sample_input 7 (first_reply sample_dto sample_input 7 two_replies))
set_client_reply_accepts_example =
    set_client_reply_accepts sample_dto sample_input 7 (init sample_dto sample_input) two_replies 7
      answer sample_input-laws seven-ne-zero

Returns-outcome_example :
    Returns sample_dto sample_input 7
      (init_new_request sample_dto sample_input (init sample_dto sample_input) 7)
      two_replies
      (true, answer)
    ↔ (outcome sample_dto sample_input 7 two_replies ≡ some (true, answer))
Returns-outcome_example =
    Returns-outcome sample_dto sample_input 7 (init sample_dto sample_input) two_replies
      (true, answer) sample_input-laws seven-ne-zero

abbrev reply_to : ℕ → ReplyInfo sample_dto
reply_to id = record { id = id; reply = answer }

abbrev events : List (Event sample_dto)
events = queues (reply_to 1) ∷ works ∷ queues (reply_to 2) ∷ works ∷ []

abbrev fresh : Delegator.ClientReplyDelegator sample_dto
fresh = Delegator.init sample_dto

handled_since_interrupt_example :
    (handled sample_dto (Delegator.run sample_dto fresh events)
      ≡ handled sample_dto fresh ++ queued sample_dto events)
    × (handled sample_dto (Delegator.run sample_dto (interrupt_all sample_dto fresh) events)
        ≡ fresh.sent ++ queued sample_dto events)
handled_since_interrupt_example = handled_since_interrupt sample_dto fresh events tt

interrupt_all_calls_example :
    (interrupt_all sample_dto (Delegator.run sample_dto fresh events)).interrupted
    ≡ (Delegator.run sample_dto fresh events).interrupted
      ++ in_flight sample_dto (Delegator.run sample_dto fresh events).worker
interrupt_all_calls_example = interrupt_all_calls sample_dto events

set_halt_stops_example :
    (length (Delegator.run sample_dto (set_halt sample_dto fresh) events).sent
      ≤ length fresh.sent + 1)
    × ((rounds sample_dto events < 2)
        ⊎ ((Delegator.run sample_dto (set_halt sample_dto fresh) events).worker ≡ stopped))
set_halt_stops_example = set_halt_stops sample_dto fresh events

abbrev two_queued : List (Event sample_dto)
two_queued = queues (reply_to 1) ∷ queues (reply_to 2) ∷ []

abbrev four_rounds : List (Event sample_dto)
four_rounds = works ∷ queues (reply_to 3) ∷ works ∷ works ∷ works ∷ []

abbrev question : UserInputRequest sample_dto
question = record { request_type = 1; meta_data = nothing; input_value = nothing }

decode-encode_input_example :
    (decode_input_request sample_dto (encode_input_request sample_dto 7 question)
      ≡ ok (some (7, question)))
    × ((encode_input_reply sample_dto sample_codec 7 answer
          >>= decode_input_reply sample_dto sample_codec)
        ≡ transported sample_dto sample_dto-laws sample_codec sample_codec-laws 7 answer
            (some (reply_payload sample_dto 7 answer)))
decode-encode_input_example =
    decode-encode_input sample_dto sample_dto-laws sample_codec sample_codec-laws 7 question answer
      (omega arith) (omega arith) (omega arith)

decode_input-Finds_example :
    Finds (decode_input_request sample_dto nothing) (HoldsRequest sample_dto nothing)
    × Finds
        (decode_input_reply sample_dto sample_codec nothing)
        (EncodesReply sample_dto sample_codec nothing)
decode_input-Finds_example = decode_input-Finds sample_dto sample_dto-laws sample_codec nothing
