-- ===== src/Epics/Queue/Loop.antt =====
-- epics/epics_server.cpp: the server, whose thread alone touches the process variables. The calls of
-- `PvAccessServer::AddVariable` and `SetValue` are recorded in `variables` and `published`.
use oac_tree_server.Base.{Bool, true, false, List, [], ◌∷◌, ◌++◌, Bytes, Result, ok, throws, ◌>>=◌}
use oac_tree_server.External.Dto.{Dto}
use oac_tree_server.External.Codec.{Codec}
use oac_tree_server.Protocol.Base64.{base64_encode}
use oac_tree_server.Epics.Queue.{
  Command, push, push_exit, is_non_empty, pop_commands, process_command_queue,
}

module _ (d : Dto) (c : Codec d) where
  open d use {AnyValue, empty_value}

  pub record EpicsServer : Type 0 where
    pub update_queue : List (Command AnyValue)
    pub variables : List (Bytes × AnyValue)
    pub published : List (Bytes × AnyValue)
    pub exited : Bool

  -- The loop over the initial values: each is encoded before it is added.
  unfoldable pub add_variables : List (Bytes × AnyValue) → Result (List (Bytes × AnyValue))
  add_variables [] = ok []
  add_variables ((name, value) ∷ rest) = do
    encoded ← base64_encode d c value
    others ← add_variables rest
    ok ((name, encoded) ∷ others)

  -- The constructor, and `UpdateLoop` up to its loop.
  unfoldable pub start_server : List (Bytes × AnyValue) → Result EpicsServer
  unfolding add_variables
  start_server name_value_set = do
    vs ← add_variables name_value_set
    ok (record { update_queue = []; variables = vs; published = []; exited = false })

  -- An update that cannot be encoded throws before anything is queued.
  unfoldable pub update_any_value : EpicsServer → Bytes → AnyValue → Result EpicsServer
  update_any_value s name value = do
    update_val ← base64_encode d c value
    ok (record s { update_queue = push AnyValue s.update_queue name update_val })

  -- The destructor of the server.
  unfoldable pub destroy : EpicsServer → EpicsServer
  destroy s = record s { update_queue = push_exit AnyValue s.update_queue empty_value }

  abbrev pub set_value : Bytes → AnyValue → List (Bytes × AnyValue) → List (Bytes × AnyValue)
  set_value channel value published = published ++ (channel, value) ∷ []

  -- One round of the loop of `UpdateLoop`, behind the wait.
  unfoldable pub process_batch : EpicsServer → EpicsServer
  process_batch s =
      let (batch, rest) = pop_commands AnyValue s.update_queue in
      let (done, _, out) = process_command_queue AnyValue set_value batch s.published in
      record s { update_queue = rest; published = out; exited = done }

  -- The thread is behind its loop, or waits, or makes a round.
  unfoldable pub update_loop_round : EpicsServer → EpicsServer
  unfolding process_batch
  update_loop_round s = elim s.exited [
    | true ↦ s
    | false ↦ elim (is_non_empty AnyValue s.update_queue) [ true ↦ process_batch s | false ↦ s ]
  ]

  pub data Event : Type 0 where
    updates : Bytes → AnyValue → Event
    destroys rounds : Event

  -- An exception leaves the server as it was.
  abbrev pub after : EpicsServer → Result EpicsServer → EpicsServer
  after s (ok t) = t
  after s (throws e) = s

  unfoldable pub step : EpicsServer → Event → EpicsServer
  unfolding update_any_value destroy update_loop_round
  step s (updates name value) = after s (update_any_value s name value)
  step s destroys = destroy s
  step s rounds = update_loop_round s

  unfoldable pub run : EpicsServer → List Event → EpicsServer
  run s [] = s
  run s (e ∷ es) = run (step s e) es
