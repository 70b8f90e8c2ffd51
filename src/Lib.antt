-- ===== src/Lib.antt =====
-- Verification of the oac-tree server: the library that offers the jobs of an oac-tree process to
-- clients, and the client side of the same protocol.
--
-- The program. On the server, every job reports through a `ServerJobInfoIO`, which turns each report
-- into the update of a named value at an `IAnyValueManager`. `EPICSAnyValueManager` keeps an `EPICSServer`
-- for every set of values, whose thread takes updates from a queue and publishes them, and an
-- input server for every job, where clients reply to questions. On the client, values that
-- arrive are given to a `ClientAnyValueManager`, which recognises them by their names and calls the
-- client's `IJobInfoIO`. Replies of users are sent by the thread of a `ClientReplyDelegator`.
--
-- The files, below src/lib/sup/oac-tree-server (base/ and epics/ stand for its folders):
--   Base            lists, byte strings, maps from names as association lists, and results that may
--                   throw; shared by all modules.
--   External        the libraries as parameters, with what the program relies on as laws: sup-dto
--                   (Dto), the base64 codec and the remote calls of sup-protocol (Codec, Rpc), and the
--                   oac-tree core (UserInput, OacTree, LocalJob). Dto/Members and Dto/Validated
--                   derive how members are read and written.
--   IndexGenerator  base/index_generator.cpp.
--   Protocol        oac_tree_protocol.h and base/oac_tree_protocol.cpp: Names (GetVariablePVName and the
--                   other name functions), Fields (the constants), Decimal (std::to_string, ParseIndex),
--                   Text (EndsWith, also of src/app/oac-tree-server/utils.cpp), ValueName
--                   (ParseValueName), Values (job state, breakpoint, variables), Base64.
--   Output          output_entry_types.h, base/output_entry_types.cpp, base/output_entry_helper.cpp.
--   Input           Codec: base/input_request_helper.cpp and base/input_reply_helper.cpp; RequestServer:
--                   base/input_request_server.cpp; Delegator: base/client_reply_delegator.cpp; Remote:
--                   base/input_protocol_client.cpp over base/input_protocol_server.cpp.
--   JobInfo         i_anyvalue_manager.h as an interface; ValueSets: base/i_anyvalue_io.cpp and
--                   base/anyvalue_io_helper.cpp; ServerIo: base/server_job_info_io.cpp; ClientManager:
--                   base/client_anyvalue_manager.cpp. Reports: the methods as updates of named values. Forward and
--                   Session put both ends together without a transport.
--   Jobs            i_job_manager.h as an interface; InfoServer: base/info_protocol_server.cpp;
--                   ControlServer: base/control_protocol_server.cpp; Client:
--                   base/automation_protocol_client.cpp; Server: base/automation_server.cpp. Remote,
--                   RemoteControl and RemoteCommand put client and servers together;
--                   ClientJob: base/client_job.cpp, over the server in ClientJob/Connected and Created.
--                   ClientStack: base/automation_client_stack.cpp. Refusals: remote calls that fail.
--   Launch          src/app/oac-tree-server/main.cpp and utils.cpp, epics/epics_config_utils.cpp: how a process
--                   starts (Started, Filenames), and the client of its service (Connected).
--   Epics           Queue: epics/anyvalue_update_command.cpp and epics/anyvalue_update_queue.cpp;
--                   Queue/Loop: epics/epics_server.cpp; InputServer: epics/epics_input_server.cpp;
--                   Manager: epics/epics_anyvalue_manager.cpp and epics/epics_anyvalue_manager_registry.cpp,
--                   with a job that it serves (Served) and a question to it (Asked).
--                   IoClient: epics/epics_io_client.cpp and epics/epics_input_client.cpp, with what they
--                   make of the values of a server (Forwarded) and of its questions (Answer). Delivery: both
--                   ends of a job together, from its ServerJobInfoIo to the ClientAnyValueManager.
--   Tests           a concrete value type, core and codec that meet the laws, and every result at
--                   concrete inputs.
--
-- State. A class is a record of its members, a method a function from the record to the record and
-- the result. What a class tells its collaborators (published values, calls of an IJobInfoIO, replies sent) is
-- a list in the record, in the order of the calls. A mutex makes what runs under it one step;
-- orders of steps of several threads are lists of events (Delegator, RequestServer, Queue/Loop) or a
-- relation (Manager/Routing). A condition variable is its predicate: a thread visits, and goes on waiting while the
-- predicate is false. Integers are natural numbers with the wrap-around of their width written out; a
-- number given by a caller is in range where a theorem says so. All loops are structural recursions, so that
-- there is no fuel. An exception is a value of `Result`.
--
-- Not modelled: the transport of EPICS and of remote calls (a call reaches the other side as it is, and each
-- published value is shown once), the options of the command line and its usage text.
pub mod Base
pub mod IndexGenerator
pub mod External
pub mod Protocol
pub mod Output
pub mod Input
pub mod JobInfo
pub mod Jobs
pub mod Launch
pub mod Epics
pub mod Tests
