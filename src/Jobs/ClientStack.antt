-- ===== src/Jobs/ClientStack.antt =====
-- base/automation_client_stack.cpp: the client with its own protocols. A null pointer is `none`.
use oac_tree_server.Base.{
  ℕ, Option, none, some, Bytes, codes, Result, ok, throws, invalid_operation,
}
use oac_tree_server.External.Dto.{Dto}
use oac_tree_server.External.Rpc.{Rpc}
use oac_tree_server.Jobs.{JobManager}
use oac_tree_server.Jobs.Client.{Protocols}
use oac_tree_server.Jobs.ClientJob.{protocol_client}

abbrev pub empty_protocol : Bytes
empty_protocol =
    codes "AutomationClientStack ctor: trying to construct a client stack with an empty protocol"

module _ (d : Dto) (r : Rpc d) {M : Type 0} where
  open d use {AnyValue}

  unfoldable pub construct :
      Option (M → AnyValue → AnyValue → Result (ℕ × AnyValue))
      → Option (M → AnyValue → Result (M × ℕ))
      → Result (Protocols d r M)
  construct none control_protocol = throws (invalid_operation empty_protocol)
  construct (some info_protocol) none = throws (invalid_operation empty_protocol)
  construct (some info_protocol) (some control_protocol) =
      ok (record { invoke_info = info_protocol; invoke_control = control_protocol })

  -- Every method passes its call on to the `AutomationProtocolClient` over the protocols.
  abbrev pub stack_client : Protocols d r M → JobManager d r M
  stack_client protocols = protocol_client d r protocols
