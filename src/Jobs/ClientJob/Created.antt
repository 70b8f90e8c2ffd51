-- ===== src/Jobs/ClientJob/Created.antt =====
-- base/client_job.cpp over base/automation_server.cpp: a client creates the jobs that the server has.
use oac_tree_server.External.Dto.{Dto}
use oac_tree_server.External.Rpc.{Rpc}
use oac_tree_server.External.OacTree.{OacTree}
