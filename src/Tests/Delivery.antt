-- ===== src/Tests/Delivery.antt =====
-- A job with one variable and two instructions, whose reports reach a client.
use oac_tree_server.Base.{
  ℕ, ◌≡◌, ◌≢◌, ◌++◌, refl, false, [], ◌∷◌, List, Bytes, Bool, ok, some, codes, arith, bytes_eq,
  ne_of_bytes_eq, get_elem?,
}
use oac_tree_server.External.Scalars.{pos}
use oac_tree_server.External.UserInput.{UserInputReply}
use oac_tree_server.JobInfo.{
  JobInfoCall, instruction_state_updated, job_state_updated, message, log,
}
use oac_tree_server.JobInfo.ClientManager.{client_manager}
use oac_tree_server.JobInfo.Session.{InRange}
use oac_tree_server.JobInfo.Reports.{report_all, all_shown}
use oac_tree_server.Epics.Queue.Loop.{EpicsServer, update_loop_round}
use oac_tree_server.Epics.Manager.{EpicsAnyValueManager}
use oac_tree_server.Epics.Manager.Interface.{epics_manager}
use oac_tree_server.Epics.Manager.Served.{JobServer, serve}
use oac_tree_server.Epics.IoClient.{receive_all}
use oac_tree_server.Epics.IoClient.Forwarded.{shown}
use oac_tree_server.Epics.Delivery.{reports_at}
use oac_tree_server.Epics.Delivery.Server.{Encodes}
use oac_tree_server.Epics.Delivery.Client.{Client, listen}
use oac_tree_server.Epics.Delivery.Delivered.{reports-delivered}
use oac_tree_server.Tests.SampleDto.{sample_dto, sample_dto-laws}
use oac_tree_server.Tests.SampleInput.{sample_input, sample_codec, sample_codec-laws}
use oac_tree_server.Tests.SampleTree.{sample_tree, sample_tree-laws, sample_answers}

abbrev Manager : Type 0
Manager = EpicsAnyValueManager sample_dto sample_codec sample_input

-- Nothing happens while the manager waits for a reply.
abbrev nothing_happens : Manager → Bytes → ℕ → Manager × (Bool × UserInputReply sample_dto)
nothing_happens s name id = (s, (false, sample_input.invalid_reply))

encodes : Encodes sample_dto sample_codec
encodes v = (v, refl)

abbrev reports : List (JobInfoCall sample_dto sample_tree)
reports =
    job_state_updated 2
    ∷ instruction_state_updated 1 5
    ∷ message (codes "running")
    ∷ log (pos 4) (codes "done")
    ∷ []

prefix-ne-empty : codes "LOOP:" ≢ []
unfolding bytes_eq
prefix-ne-empty = ne_of_bytes_eq (codes "LOOP:") [] refl

reports-delivered_example :
    let client = client_manager sample_dto sample_tree sample_input sample_answers in
    (s : JobServer sample_dto sample_codec sample_tree sample_input nothing_happens)
    × (t : JobServer sample_dto sample_codec sample_tree sample_input nothing_happens) × (a : Client
        sample_dto sample_codec sample_codec-laws sample_input sample_tree sample_answers)
    × (b : Client sample_dto sample_codec sample_codec-laws sample_input sample_tree sample_answers)
    × (v : EpicsServer sample_dto sample_codec) × (serve sample_dto sample_codec sample_tree
          sample_input nothing_happens
          (codes "LOOP:")
          1
          2
        ≡ ok s)
    × (report_all sample_dto sample_tree
          (epics_manager sample_dto sample_codec sample_input nothing_happens)
          s
          reports
        ≡ ok t)
    × (listen sample_dto sample_codec sample_codec-laws sample_input sample_tree sample_answers
          (codes "LOOP:")
          1
          2
        ≡ ok a)
    × (get_elem? t.manager.servers 0 ≡ some v)
    × (receive_all sample_dto sample_codec sample_input client a (
          shown sample_dto sample_codec sample_codec-laws sample_input client
            (update_loop_round sample_dto sample_codec v).published)
        ≡ ok b)
    × (b.av_mgr.calls
        ≡ a.av_mgr.calls
          ++ all_shown sample_dto sample_tree (reports_at sample_dto sample_tree 0 reports))
unfolding InRange
reports-delivered_example =
    reports-delivered sample_dto sample_dto-laws sample_codec sample_codec-laws sample_input
      sample_tree sample_tree-laws sample_answers nothing_happens encodes (codes "LOOP:")
      prefix-ne-empty 1 2 (omega arith) (omega arith) reports 0
      (omega arith, (omega arith, (tt, (omega arith, tt)))) (tt, (tt, (tt, (tt, tt)))) (omega arith)
