-- ===== src/JobInfo/Updates.antt =====
-- i_anyvalue_manager.h: a sequence of updates.
use oac_tree_server.Base.{List, [], ◌∷◌, Bytes, Result, ok, ◌>>=◌}
use oac_tree_server.External.Dto.{Dto}
use oac_tree_server.JobInfo.{AnyValueManager}

module _ (d : Dto) {M : Type 0} (m : AnyValueManager d M) where
  -- The manager is told all these updates.
  unfoldable pub update_all : M → List (Bytes × d.AnyValue) → Result M
  update_all t [] = ok t
  update_all t ((name, value) ∷ rest) = m.update_any_value t name value >>= λ r. update_all r.0 rest
