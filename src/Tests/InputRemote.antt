-- ===== src/Tests/InputRemote.antt =====
-- A reply that a client sends to the question on which a server waits.
use oac_tree_server.Base.{◌≡◌, true, false, arith, ok, ◌>>=◌}
use oac_tree_server.External.UserInput.{UserInputReply}
use oac_tree_server.Input.Codec.{encode_input_reply}
use oac_tree_server.Input.RequestServer.{InputRequestServer, set_client_reply}
use oac_tree_server.Input.Remote.{invoke_input, send_reply}
use oac_tree_server.Input.Remote.Accepts.{send_reply-accepts}
use oac_tree_server.Tests.SampleDto.{sample_dto, sample_dto-laws, nothing}
use oac_tree_server.Tests.SampleInput.{sample_input, sample_codec, sample_codec-laws, invalid_reply}
use oac_tree_server.Tests.SampleRpc.{sample_rpc, sample_rpc-laws}

abbrev waiting : InputRequestServer sample_dto sample_input
waiting = record { request_id = 7; reply = invalid_reply; interrupted = false }

abbrev yes : UserInputReply sample_dto
yes = record { request_type = 1; result = true; payload = nothing }

send_reply-accepts_example :
    send_reply sample_dto sample_codec sample_input sample_rpc
      (invoke_input sample_dto sample_codec sample_input sample_rpc)
      waiting
      7
      yes
    ≡ (encode_input_reply sample_dto sample_codec 7 yes >>= λ w.
        ok (set_client_reply sample_dto sample_input waiting 7 yes))
send_reply-accepts_example =
    send_reply-accepts sample_dto sample_dto-laws sample_codec sample_codec-laws sample_input
      sample_rpc sample_rpc-laws waiting 7 yes (omega arith) (omega arith)
