-- ===== src/Tests/IoClient.antt =====
-- A client whose manager records the updates it is told, and answers every question.
use oac_tree_server.Base.{
  ◌≡◌, ◌++◌, true, false, List, [], ◌∷◌, some, Bytes, codes, bytes_eq_refl, ok, ◌>>=◌, refl, arith,
}
use oac_tree_server.External.UserInput.{UserInputRequest, UserInputReply}
use oac_tree_server.Protocol.Names.{input_request_name}
use oac_tree_server.Input.Codec.{encode_input_request, reply_payload}
use oac_tree_server.Input.Delegator as Delegator
use oac_tree_server.Input.Delegator.{calling, waiting}
use oac_tree_server.Input.RequestServer.{InputRequestServer, init_new_request, wait_for_reply}
use oac_tree_server.Input.Remote.{invoke_input}
use oac_tree_server.JobInfo.{AnyValueManager}
use oac_tree_server.Epics.Queue.Loop.{
  EpicsServer, Event, updates, destroys, rounds, update_loop_round, run,
}
use oac_tree_server.Epics.IoClient.{
  EpicsIoClient, InputHandler, ExtendedValue, construct, add_any_values, add_input_handler, receive,
  receive_all, request_pv, work_handler, set_client_reply,
}
use oac_tree_server.Epics.IoClient.Monitors.{monitoring, shows, pvs_of}
use oac_tree_server.JobInfo.Updates.{update_all}
use oac_tree_server.Epics.IoClient.Forwarded.{given, shown, published-forwarded}
use oac_tree_server.Epics.IoClient.Requests.{Listens}
use oac_tree_server.Epics.IoClient.Answer.{question-answered}
use oac_tree_server.Tests.SampleDto.{sample_dto, sample_dto-laws, Value, nothing}
use oac_tree_server.Tests.SampleInput.{
  sample_input, sample_input-laws, sample_codec, sample_codec-laws, invalid_reply,
}
use oac_tree_server.Tests.SampleRpc.{sample_rpc, sample_rpc-laws}

abbrev yes_reply : UserInputReply sample_dto
yes_reply = record { request_type = 1; result = true; payload = nothing }

abbrev recorder : AnyValueManager sample_dto (List (Bytes × Value))
recorder = record {
  add_any_values = λ s vs. ok (s, true);
  add_input_handler = λ s n. ok (s, true);
  update_any_value = λ s k v. ok (s ++ (k, v) ∷ [], true);
  get_user_input = λ s n id q. ok (s, yes_reply);
  interrupt = λ s n id. ok s;
}

abbrev two_values : List (Bytes × Value)
two_values = (codes "A", nothing) ∷ (codes "B", nothing) ∷ []

abbrev idle_server : EpicsServer sample_dto sample_codec
idle_server = record { update_queue = []; variables = two_values; published = []; exited = false }

abbrev some_events : List (Event sample_dto sample_codec)
some_events =
    updates (codes "A") nothing
    ∷ rounds
    ∷ updates (codes "C") nothing
    ∷ updates (codes "B") nothing
    ∷ destroys
    ∷ []

published-forwarded_example :
    (add_any_values sample_dto sample_codec sample_input recorder
        (construct sample_dto sample_codec sample_input recorder [])
        two_values
      >>= λ client. receive_all sample_dto sample_codec sample_input recorder client.0 (
          shown sample_dto sample_codec sample_codec-laws sample_input recorder
            (update_loop_round sample_dto sample_codec
              (run sample_dto sample_codec idle_server some_events)).published))
    ≡ (update_all sample_dto recorder [] (
          given sample_dto sample_codec sample_codec-laws sample_input recorder two_values
            some_events)
        >>= λ q. ok (
            monitoring sample_dto sample_codec sample_codec-laws sample_input recorder two_values
              q))
published-forwarded_example =
    published-forwarded sample_dto sample_codec sample_codec-laws sample_input recorder two_values
      [] [] idle_server some_events refl refl refl refl

abbrev lost : ExtendedValue sample_dto sample_codec sample_input recorder
lost = record { connected = false; value = nothing }

abbrev listening : EpicsIoClient sample_dto sample_codec sample_input recorder
listening = record {
  av_mgr = [];
  input_handler = some (record { server_name = codes "S"; delegator = Delegator.init sample_dto });
  client_pvs = request_pv sample_dto sample_codec sample_input recorder (codes "S") ∷ [];
}

abbrev yes_or_no : UserInputRequest sample_dto
yes_or_no = record { request_type = 2; meta_data = nothing; input_value = nothing }

abbrev idle_handler : InputHandler sample_dto sample_codec sample_input recorder
idle_handler = record {
  server_name = codes "S";
  delegator = record {
    active_id = 0;
    halt = false;
    reply_queue = [];
    worker = waiting;
    sent = [];
    interrupted = [];
  };
}

abbrev idle : EpicsIoClient sample_dto sample_codec sample_input recorder
idle = record {
  av_mgr = [];
  input_handler = some idle_handler;
  client_pvs = request_pv sample_dto sample_codec sample_input recorder (codes "S") ∷ [];
}

idle-Listens :
    Listens sample_dto sample_dto-laws sample_codec sample_codec-laws sample_input recorder idle
      (codes "S")
      idle_handler
unfolding pvs_of
idle-Listens = record {
  handler = refl;
  server = refl;
  one_pv = rw (bytes_eq_refl (input_request_name (codes "S"))) refl;
}

abbrev request_server : InputRequestServer sample_dto sample_input
request_server = record { request_id = 3; reply = invalid_reply; interrupted = false }

question-answered_example :
    (s' : EpicsIoClient sample_dto sample_codec sample_input recorder) × (h' : InputHandler
      sample_dto sample_codec sample_input recorder)
    × (q' : InputRequestServer sample_dto sample_input) × (receive sample_dto sample_codec
          sample_input recorder idle
          (input_request_name (codes "S"))
          (shows sample_dto sample_codec sample_codec-laws sample_input recorder
            (encode_input_request sample_dto 7 yes_or_no))
        ≡ ok s')
    × (s'.av_mgr ≡ [])
    × ((work_handler sample_dto sample_codec sample_input recorder s').input_handler ≡ some h')
    × (h'.delegator.worker ≡ calling (record { id = 7; reply = yes_reply }))
    × (set_client_reply sample_dto sample_codec sample_input sample_rpc
          (λ name. invoke_input sample_dto sample_codec sample_input sample_rpc)
          h'.server_name
          (init_new_request sample_dto sample_input request_server 7)
          7
          yes_reply
        ≡ ok (q', true))
    × (wait_for_reply sample_dto sample_input q' 7 ≡ some (true, yes_reply))
question-answered_example =
    question-answered sample_dto sample_dto-laws sample_codec sample_codec-laws sample_input
      sample_input-laws sample_rpc sample_rpc-laws recorder idle (codes "S") idle_handler 7
      yes_or_no yes_reply [] (encode_input_request sample_dto 7 yes_or_no)
      (reply_payload sample_dto 7 yes_reply) request_server
      (λ name. invoke_input sample_dto sample_codec sample_input sample_rpc) idle-Listens refl refl
      (λ e. omega (arith, e)) (omega arith) (omega arith) (λ e. omega (arith, e)) (omega arith)
      (λ e. omega (arith, e)) refl refl refl refl
