-- ===== src/Tests/Manager.antt =====
-- The manager of the server's values at concrete names.
use oac_tree_server.Base.{
  ◌≢◌, Bool, arith, bytes_eq, ne_of_bytes_eq, refl, ℕ, ◌≡◌, ◌⊎◌, [], ◌∷◌, List, Bytes, true, false,
  some, ok, codes,
}
use oac_tree_server.External.UserInput.{UserInputReply}
use oac_tree_server.Protocol.Names.{input_server_name}
use oac_tree_server.Protocol.ValueName.{value_name, instruction}
use oac_tree_server.Input.Codec.{input_request_any_value}
use oac_tree_server.JobInfo.ValueSets.{initial_value_set, instruction_value_set}
use oac_tree_server.JobInfo.RequestName.{request_name}
use oac_tree_server.Epics.Manager.Served.{JobServer, serve}
use oac_tree_server.Epics.Manager.Served.Found.{serve-find_server}
use oac_tree_server.Tests.SampleTree.{sample_tree}
use oac_tree_server.Epics.Queue.Loop.{start_server}
use oac_tree_server.Epics.Manager.{
  EpicsAnyValueManager, init, add_any_values, find_server, find_input_server, launch,
}
use oac_tree_server.Epics.Manager.Adding.{Addable, Holds, add_any_values_cases}
use oac_tree_server.Tests.SampleDto.{sample_dto, sample_dto-laws, Value, nothing, end}
use oac_tree_server.Tests.SampleInput.{sample_input, sample_codec}

abbrev Manager : Type 0
Manager = EpicsAnyValueManager sample_dto sample_codec sample_input

abbrev values : List (Bytes × Value)
values = (codes "LOOP:STATE", nothing) ∷ (codes "LOOP:LOG", end) ∷ []

abbrev empty_manager : Manager
empty_manager = init sample_dto sample_codec sample_input

abbrev filled_manager : Manager
filled_manager = (add_any_values sample_dto sample_codec sample_input empty_manager values).0

add_any_values_cases_example :
    let (t, b) = add_any_values sample_dto sample_codec sample_input empty_manager values in
    ((b ≡ true)
      × Addable sample_dto sample_codec sample_input empty_manager values
      × Holds sample_dto sample_codec sample_input empty_manager values t)
    ⊎ ((b ≡ false)
        × (¬ Addable sample_dto sample_codec sample_input empty_manager values)
        × (t ≡ empty_manager))
add_any_values_cases_example =
    add_any_values_cases sample_dto sample_codec sample_input empty_manager values

-- Nothing happens while the manager waits for a reply.
abbrev nothing_happens : Manager → Bytes → ℕ → Manager × (Bool × UserInputReply sample_dto)
nothing_happens s name id = (s, (false, sample_input.invalid_reply))

prefix-ne-empty : codes "LOOP:" ≢ []
unfolding bytes_eq
prefix-ne-empty = ne_of_bytes_eq (codes "LOOP:") [] refl

serve-find_server_example :
    (s : JobServer sample_dto sample_codec sample_tree sample_input nothing_happens) × (vs : List
      (Bytes × Value))
    × (serve sample_dto sample_codec sample_tree sample_input nothing_happens (codes "LOOP:") 2 3
        ≡ ok s)
    × (initial_value_set sample_dto sample_tree (codes "LOOP:") 2 ≡ ok vs)
    × (s.manager.servers ≡ (
        let launched = launch sample_dto sample_codec sample_input in
        launched (start_server sample_dto sample_codec vs)
        ∷ launched (
            start_server sample_dto sample_codec
              ((request_name (codes "LOOP:"), input_request_any_value sample_dto) ∷ []))
        ∷ launched (
            start_server sample_dto sample_codec
              (instruction_value_set sample_dto sample_tree (codes "LOOP:") 3))
        ∷ []))
    × (find_server sample_dto sample_codec sample_input s.manager
          (value_name (codes "LOOP:") instruction 1)
        ≡ some 2)
    × (find_input_server sample_dto sample_codec sample_input s.manager
          (input_server_name (codes "LOOP:"))
        ≡ some 0)
    × (find_server sample_dto sample_codec sample_input s.manager (request_name (codes "LOOP:"))
        ≡ some 1)
serve-find_server_example =
    serve-find_server sample_dto sample_codec sample_tree sample_input nothing_happens
      sample_dto-laws (codes "LOOP:") prefix-ne-empty 2 3 (omega arith) (omega arith) instruction 1
      (omega arith)
