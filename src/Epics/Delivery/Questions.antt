-- ===== src/Epics/Delivery/Questions.antt =====
-- base/server_job_info_io.cpp over epics/epics_anyvalue_manager.cpp: what the questions of a served job get.
use oac_tree_server.Base.{ℕ, ◌^◌, ◌<◌, ◌≢◌, Bool, not, List, [], Bytes, if◌then◌else◌}
use oac_tree_server.External.Dto.{Dto, DtoLaws}
use oac_tree_server.External.Codec.{Codec}
use oac_tree_server.External.UserInput.{UserInput, UserInputLaws, UserInputReply}
use oac_tree_server.External.OacTree.{OacTree}
use oac_tree_server.Input.RequestServer.{Call}
use oac_tree_server.Epics.InputServer as InputServer
use oac_tree_server.Epics.Manager.Asked.{waits_for}
use oac_tree_server.Epics.Manager.Served.{JobServer, served}
use oac_tree_server.Epics.Delivery.Server.{Encodes}

module _ (d : Dto) (c : Codec d) (u : UserInput d) (o : OacTree d) (calls : List (Call d u)) where
  abbrev pub Job : Type 0
  Job = JobServer d c o u (waits_for d c u calls)

  -- The reply that a question gets from the outcome of the calls.
  abbrev pub reply_of : Bool × UserInputReply d → UserInputReply d
  reply_of r = if not r.0 then u.invalid_reply else r.1

  module _ (laws : DtoLaws d) (input_laws : UserInputLaws d u) (encodes : Encodes d c) (p : Bytes)
      (ne : p ≢ []) (n k : ℕ) (hn : n < 2 ^ 32) (hk : k < 2 ^ 32) where
    abbrev job : Job
    job = served d c o u (waits_for d c u calls) laws p ne n k hn hk
