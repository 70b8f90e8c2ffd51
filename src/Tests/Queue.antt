-- ===== src/Tests/Queue.antt =====
-- The update queue at concrete events.
use oac_tree_server.Base.{◌≡◌, refl, [], ◌∷◌, List, codes, false}
use oac_tree_server.Epics.Queue.Loop.{
  EpicsServer, update_loop_round, run, Event, updates, destroys, rounds,
}
use oac_tree_server.Epics.Queue.Publish.{before_exit, has_exit, pushed, published-run}
use oac_tree_server.Tests.SampleDto.{sample_dto, nothing}
use oac_tree_server.Tests.SampleInput.{sample_codec}

abbrev events : List (Event sample_dto sample_codec)
events = updates (codes "a") nothing ∷ rounds ∷ updates (codes "b") nothing ∷ destroys ∷ []

abbrev fresh : EpicsServer sample_dto sample_codec
fresh = record { update_queue = []; variables = []; published = []; exited = false }

published-run_example :
    let t = update_loop_round sample_dto sample_codec (run sample_dto sample_codec fresh events) in
    (t.published ≡ before_exit sample_dto sample_codec (pushed sample_dto sample_codec events))
    × (t.exited ≡ has_exit sample_dto sample_codec (pushed sample_dto sample_codec events))
published-run_example = published-run sample_dto sample_codec fresh events refl refl refl
