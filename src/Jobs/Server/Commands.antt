-- ===== src/Jobs/Server/Commands.antt =====
-- base/automation_server.cpp: an operation on a job concerns that job alone.
use oac_tree_server.External.Dto.{Dto}
use oac_tree_server.External.Rpc.{Rpc}
