-- ===== src/Tests/Asked.antt =====
-- A question of a job on the server, at a concrete question with two interfering calls.
use oac_tree_server.Base.{true, [], ◌∷◌, List, Bytes, codes, false}
use oac_tree_server.External.UserInput.{UserInputRequest, UserInputReply}
use oac_tree_server.Protocol.Names.{input_request_name}
use oac_tree_server.Input.RequestServer.{Call, replies, interrupts}
use oac_tree_server.Epics.Queue.Loop.{EpicsServer}
use oac_tree_server.Epics.InputServer.{construct}
use oac_tree_server.Epics.Manager.{EpicsAnyValueManager}
use oac_tree_server.Tests.SampleDto.{sample_dto, nothing}
use oac_tree_server.Tests.SampleInput.{sample_input, sample_codec}

abbrev Manager : Type 0
Manager = EpicsAnyValueManager sample_dto sample_codec sample_input

abbrev pv_server : EpicsServer sample_dto sample_codec
pv_server = record { update_queue = []; variables = []; published = []; exited = false }

abbrev input_name : Bytes
input_name = codes "LOOP:INPUT"

abbrev asked_manager : Manager
asked_manager = record {
  name_server_map = (input_request_name input_name, 0) ∷ [];
  servers = pv_server ∷ [];
  name_input_server_map = (input_name, 0) ∷ [];
  input_servers = construct sample_dto sample_input input_name ∷ [];
}

abbrev question : UserInputRequest sample_dto
question = record { request_type = 1; meta_data = nothing; input_value = nothing }

abbrev answer : UserInputReply sample_dto
answer = record { request_type = 1; result = true; payload = nothing }

-- A reply to another question, an interrupt of another one, and the reply.
abbrev calls : List (Call sample_dto sample_input)
calls = replies 6 answer ∷ interrupts 5 ∷ replies 7 answer ∷ []
