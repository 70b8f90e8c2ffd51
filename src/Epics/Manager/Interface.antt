-- ===== src/Epics/Manager/Interface.antt =====
-- epics/epics_anyvalue_manager.h: the manager as an `IAnyValueManager`.
use oac_tree_server.Base.{ℕ, Bool, Bytes, Option, none, some, Result, ok, ◌>>=◌}
use oac_tree_server.External.Dto.{Dto}
use oac_tree_server.External.Codec.{Codec}
use oac_tree_server.External.UserInput.{UserInput, UserInputRequest, UserInputReply}
use oac_tree_server.JobInfo.{AnyValueManager}
use oac_tree_server.Epics.Manager.{
  EpicsAnyValueManager, add_any_values, add_input_handler, update_value, begin_user_input,
  end_user_input, interrupt,
}

-- `wait` is what happens while the thread is in `WaitForReply`: the manager that the other threads leave, and
-- what the wait gives.
module _ (d : Dto) (c : Codec d) (u : UserInput d)
    (wait : EpicsAnyValueManager d c u
      → Bytes
      → ℕ
      → EpicsAnyValueManager d c u × (Bool × UserInputReply d)) where
  abbrev behind_wait :
      EpicsAnyValueManager d c u
      → Bytes
      → ℕ
      → Option (EpicsAnyValueManager d c u)
      → Result (EpicsAnyValueManager d c u × UserInputReply d)
  behind_wait s name id none = ok (s, u.invalid_reply)
  behind_wait s name id (some t) = let (t', r) = wait t name id in end_user_input d c u t' name r

  unfoldable pub get_user_input :
      EpicsAnyValueManager d c u
      → Bytes
      → ℕ
      → UserInputRequest d
      → Result (EpicsAnyValueManager d c u × UserInputReply d)
  get_user_input s name id request =
      begin_user_input d c u s name id request >>= λ o. behind_wait s name id o

  abbrev pub epics_manager : AnyValueManager d (EpicsAnyValueManager d c u)
  epics_manager = record {
    add_any_values = λ s vs. ok (add_any_values d c u s vs);
    add_input_handler = λ s name. ok (add_input_handler d c u s name);
    update_any_value = λ s name value. update_value d c u s name value;
    get_user_input = get_user_input;
    interrupt = λ s name id. ok (interrupt d c u s name id);
  }
