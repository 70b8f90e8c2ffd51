-- ===== src/Tests/Launch.antt =====
-- A process that starts on one file of a directory and one of the command line.
use oac_tree_server.Base.{
  ℕ, ◌≡◌, ◌⊎◌, ◌↔◌, ◌<◌, refl, arith, true, false, List, [], ◌∷◌, Option, some, Bytes, codes,
  bytes_eq, ok, length, get_elem?, ◌>>=◌,
}
use oac_tree_server.Protocol.Names.{create_job_prefix}
use oac_tree_server.Protocol.Results.{not_supported}
use oac_tree_server.Protocol.Text.{ends_with_compare}
use oac_tree_server.Jobs.{JobManager}
use oac_tree_server.Jobs.ControlServer.{invoke_control}
use oac_tree_server.Jobs.Refusals.{invoke_control_cases}
use oac_tree_server.Jobs.Server as Server
use oac_tree_server.Jobs.Server.{add_job, run_command, replaced}
use oac_tree_server.Launch.{
  Arguments, DirectoryEntry, Files, Process, get_procedure_filenames, get_procedure_list,
  procedure_files, parse_files, add_jobs, main, create_registry, rpc_servers_of,
  create_epics_job_manager,
}
use oac_tree_server.Launch.Connected.{main-connected}
use oac_tree_server.Launch.Filenames.{Holds, InDirectory, get_procedure_filenames_iff}
use oac_tree_server.Tests.SampleDto.{sample_dto, sample_dto-laws, nothing}
use oac_tree_server.Tests.SampleInput.{sample_input, sample_codec}
use oac_tree_server.Tests.SampleRpc.{sample_rpc, sample_rpc-laws}
use oac_tree_server.Tests.Remote.{counters, counting}
use oac_tree_server.Tests.ClientJob.{counters-laws}

abbrev directory : Bytes → Option (List DirectoryEntry)
directory dir = some (
    record { path = codes "d/a.xml"; is_regular_file = true }
    ∷ record { path = codes "d/b.txt"; is_regular_file = true }
    ∷ record { path = codes "d/c.xml"; is_regular_file = false }
    ∷ [])

abbrev command_line : Arguments
command_line = record {
  parsed = true;
  dir = some (codes "d");
  service = codes "S";
  positional_args = codes "main" ∷ [];
}

abbrev two_files : List Bytes
two_files = codes "d/a.xml" ∷ codes "main" ∷ []

two_files_found : get_procedure_filenames directory command_line ≡ ok two_files
unfolding get_procedure_filenames procedure_files ends_with_compare bytes_eq
two_files_found = refl

get_procedure_filenames_iff_example :
    Holds (codes "main") two_files
    ↔ (InDirectory directory command_line (codes "main") ⊎ Holds (codes "main") (codes "main" ∷ []))
get_procedure_filenames_iff_example =
    get_procedure_filenames_iff directory command_line two_files (codes "main") two_files_found

-- A procedure is the length of its file's name.
abbrev files : Files sample_dto sample_codec sample_input sample_rpc counters
files = record { directory_iterator = directory; parse_procedure_file = λ f. some (length f) }

abbrev started : Process sample_dto sample_codec sample_input sample_rpc counters
started = record {
  registry = create_registry sample_dto sample_codec sample_input sample_rpc counters 2;
  auto_server = record {
    server_prefix = codes "S";
    job_info_ios =
        record { job_prefix = create_job_prefix (codes "S") 0; n_vars = 7; manager_index = 0 }
        ∷ record { job_prefix = create_job_prefix (codes "S") 1; n_vars = 4; manager_index = 1 }
        ∷ [];
    jobs = 7 ∷ 4 ∷ [];
  };
  rpc_servers = rpc_servers_of sample_dto sample_codec sample_input sample_rpc counters (codes "S");
}

procedures_found :
    get_procedure_list sample_dto sample_codec sample_input sample_rpc counters files command_line
    ≡ ok (7 ∷ 4 ∷ [])
unfolding get_procedure_list get_procedure_filenames procedure_files ends_with_compare bytes_eq
    parse_files
procedures_found = refl

two_files_start :
    main sample_dto sample_codec sample_input sample_rpc counters files command_line
    ≡ ok (some started)
unfolding main get_procedure_list get_procedure_filenames procedure_files ends_with_compare bytes_eq
    parse_files add_jobs add_job Server.init
two_files_start = refl

main-connected_example :
    (client : JobManager sample_dto sample_rpc
      (Process sample_dto sample_codec sample_input sample_rpc counters))
    × (create_epics_job_manager sample_dto sample_codec sample_input sample_rpc counters 9
          (codes "S")
        ≡ ok client)
    × (client.get_server_prefix started ≡ ok (codes "S"))
    × (client.get_number_of_jobs started ≡ ok 2)
    × ((i : ℕ) (proc : ℕ)
        → get_elem? (7 ∷ 4 ∷ []) i ≡ some proc
        → (job : ℕ) × (counters.create proc ≡ some job)
          × (client.get_job_info started i ≡ ok job)
          × ((cmd : ℕ)
              → cmd < sample_rpc.terminate
              → client.send_job_command started i cmd ≡ (
                  run_command sample_dto sample_rpc counters job cmd >>= λ x. ok (record started {
                    auto_server = replaced sample_dto sample_rpc counters started.auto_server i x;
                  }))))
main-connected_example =
    main-connected sample_dto sample_dto-laws sample_codec sample_input sample_rpc sample_rpc-laws
      counters counters-laws 9 files command_line started (7 ∷ 4 ∷ []) two_files_start
      procedures_found (omega arith)

call_refused :
    invoke_control sample_dto sample_rpc counting 5 nothing
    ≡ ok (5, not_supported sample_dto sample_rpc)
unfolding invoke_control
call_refused = refl

invoke_control_cases_example :
    (not_supported sample_dto sample_rpc ≡ sample_rpc.success) ⊎ (◌≡◌ {A = ℕ} 5 5)
invoke_control_cases_example =
    invoke_control_cases sample_dto sample_rpc counting 5 5 nothing
      (not_supported sample_dto sample_rpc) call_refused
