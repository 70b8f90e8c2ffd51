-- ===== src/Epics/IoClient/Ignored.antt =====
-- epics/epics_io_client.cpp: values that cannot be read.
use oac_tree_server.External.Dto.{Dto}
use oac_tree_server.External.Codec.{Codec}
use oac_tree_server.External.UserInput.{UserInput}
use oac_tree_server.JobInfo.{AnyValueManager}
use oac_tree_server.Epics.IoClient.{EpicsIoClient}

module _ (d : Dto) (c : Codec d) (u : UserInput d) {M : Type 0} (m : AnyValueManager d M) where
  open d use {AnyValue}

  abbrev Client : Type 0
  Client = EpicsIoClient d c u m
