-- ===== src/JobInfo/Ask.antt =====
-- base/server_job_info_io.cpp over base/client_anyvalue_manager.cpp: questions to the user.
use oac_tree_server.Base.{
  ℕ, ◌≡◌, refl, Bool, List, Bytes, Option, none, some, ok, if◌then◌else◌, arith,
}
use oac_tree_server.External.Dto.{Dto}
use oac_tree_server.External.UserInput.{UserInput, UserInputLaws, UserInputRequest}
use oac_tree_server.External.OacTree.{OacTree, OacTreeLaws}
use oac_tree_server.JobInfo.{UserAnswers}
use oac_tree_server.JobInfo.ClientManager.{
  ClientAnyValueManager, client_manager, get_user_input, user_value_reply, user_choice_reply,
}
use oac_tree_server.JobInfo.ServerIo.{ServerJobInfoIo, request_value, assign_reply, request_choice}

module _ (d : Dto) (o : OacTree d) (u : UserInput d) (answers : UserAnswers d) where
  -- The value that the user gave, if any.
  abbrev pub answered : Bool × d.AnyValue → Option d.AnyValue
  answered (result, value) = if result then some value else none

  value_input :
      (s : ClientAnyValueManager d o) (name : Bytes) (id : ℕ) (r : UserInputRequest d)
      → r.request_type ≡ u.user_value_type
      → get_user_input d o u answers s name id r ≡ ok (s, user_value_reply d o u answers id r)
  unfolding get_user_input
  value_input s name id r h = ground arith

  choice_input :
      (s : ClientAnyValueManager d o) (name : Bytes) (id : ℕ) (r : UserInputRequest d)
      → UserInputLaws d u
      → r.request_type ≡ u.user_choice_type
      → get_user_input d o u answers s name id r ≡ ok (s, user_choice_reply d o u answers id r)
  unfolding get_user_input
  choice_input s name id r laws h = ground (arith, laws.user_value-ne-user_choice)

  module _ (input_laws : UserInputLaws d u) (laws : OacTreeLaws d u o) where
    value_reply :
        (id : ℕ) (value : d.AnyValue) (text : Bytes)
        → o.parse_user_value_reply
            (user_value_reply d o u answers id (o.create_user_value_request value text))
          ≡ answered (answers.get_user_value id value text)
    unfolding user_value_reply
    value_reply id value text =
        rw (user_value_reply, laws.parse-value_request value text)
          (laws.parse-value_reply (answers.get_user_value id value text).0
            (answers.get_user_value id value text).1)

    choice_reply :
        (id : ℕ) (options : List Bytes) (value : d.AnyValue)
        → o.parse_user_choice_reply
            (user_choice_reply d o u answers id (o.create_user_choice_request options value))
          ≡ some (answers.get_user_choice id options value)
    unfolding user_choice_reply
    choice_reply id options value =
        rw (user_choice_reply, laws.parse-choice_request options value)
          (laws.parse-choice_reply (answers.get_user_choice id options value))

    -- A question that reaches a client through its manager leaves the state alone and is answered by the client's
    -- `IJobInfoIO`: a value that the user gave is assigned where its type allows, and a choice is passed on.
    pub request-answers :
        (s : ServerJobInfoIo d o (client_manager d o u answers)) (id : ℕ) (value : d.AnyValue)
        (text : Bytes) (options : List Bytes)
        → (request_value d o (client_manager d o u answers) s id value text ≡ (
            let (w, b) =
              assign_reply d o
                (client_manager d o u answers)
                value
                (answered (answers.get_user_value id value text)) in
            ok (s, w, b)))
          × (request_choice d o (client_manager d o u answers) s id options value
              ≡ ok (s, answers.get_user_choice id options value))
    unfolding request_value request_choice
    request-answers s id value text options = (
      simp
          (
            value_input s.manager _ id (o.create_user_value_request value text)
                (laws.value_request-type value text),
            value_reply id value text,
          )
          refl,
      simp
          (
            choice_input s.manager _ id (o.create_user_choice_request options value) input_laws
                (laws.choice_request-type options value),
            choice_reply id options value,
          )
          refl,
    )
