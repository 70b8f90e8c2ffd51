-- ===== src/Launch.antt =====
-- src/app/oac-tree-server/main.cpp, src/app/oac-tree-server/utils.cpp and epics/epics_config_utils.cpp: how a server process starts,
-- and how a client of it is made. The command line parser, the file system and the XML parser are parameters.
pub mod Filenames
pub mod Started
pub mod Connected
use oac_tree_server.Base.{
  ℕ, ◌%◌, ◌^◌, Bool, true, false, not, ◌&&◌, List, [], ◌∷◌, ◌++◌, Option, none, some, Bytes, codes,
  Result, ok, or_throw, ◌>>=◌, if◌then◌else◌, length, lookup,
}
use oac_tree_server.External.Dto.{Dto}
use oac_tree_server.External.Codec.{Codec}
use oac_tree_server.External.UserInput.{UserInput}
use oac_tree_server.External.Rpc.{Rpc}
use oac_tree_server.External.LocalJob.{LocalJobs}
use oac_tree_server.Protocol.Names.{control_server_name}
use oac_tree_server.Protocol.Text.{ends_with_compare}
use oac_tree_server.Jobs.{JobManager}
use oac_tree_server.Jobs.InfoServer.{invoke_info}
use oac_tree_server.Jobs.ControlServer.{invoke_control}
use oac_tree_server.Jobs.Server as Server
use oac_tree_server.Jobs.Server.{AutomationServer, add_job, server_manager}
use oac_tree_server.Jobs.ClientStack.{construct, stack_client}
use oac_tree_server.Epics.Manager.{EpicsAnyValueManager, create_managers}

-- What the parsed command line holds: whether it was parsed, `--dir` if it is set, `--service`, and the positional values.
pub record Arguments : Type 0 where
  pub parsed : Bool
  pub dir : Option Bytes
  pub service : Bytes
  pub positional_args : List Bytes

pub record DirectoryEntry : Type 0 where
  pub path : Bytes
  pub is_regular_file : Bool

abbrev pub procedure_extension : Bytes
procedure_extension = codes ".xml"

-- The loop over the entries of the directory.
unfoldable pub procedure_files : List DirectoryEntry → List Bytes
procedure_files [] = []
procedure_files (entry ∷ entries) =
    if entry.is_regular_file && ends_with_compare entry.path procedure_extension
    then entry.path ∷ procedure_files entries
    else procedure_files entries

-- `directory_iterator` has no value where it throws.
unfoldable pub get_procedure_filenames :
    (Bytes → Option (List DirectoryEntry)) → Arguments → Result (List Bytes)
get_procedure_filenames directory_iterator parser = elim parser.dir [
  | none ↦ ok parser.positional_args
  | some dir ↦ or_throw (directory_iterator dir) >>= λ entries.
      ok (procedure_files entries ++ parser.positional_args)
]

module _ (d : Dto) (c : Codec d) (u : UserInput d) (r : Rpc d) (l : LocalJobs d r) where
  open d use {AnyValue}

  pub record Files : Type 0 where
    pub directory_iterator : Bytes → Option (List DirectoryEntry)
    pub parse_procedure_file : Bytes → Option l.Procedure

  unfoldable pub parse_files : Files → List Bytes → Result (List l.Procedure)
  parse_files files [] = ok []
  parse_files files (filename ∷ filenames) =
      or_throw (files.parse_procedure_file filename) >>= λ proc.
      parse_files files filenames >>= λ rest. ok (proc ∷ rest)

  unfoldable pub get_procedure_list : Files → Arguments → Result (List l.Procedure)
  get_procedure_list files parser =
      get_procedure_filenames files.directory_iterator parser >>= parse_files files

  -- The loop of `main` over the procedures.
  unfoldable pub add_jobs :
      AutomationServer d r l → List l.Procedure → Result (AutomationServer d r l)
  add_jobs s [] = ok s
  add_jobs s (proc ∷ procs) = add_job d r l s proc >>= λ t. add_jobs t procs

  pub data RpcServer : Type 0 where
    info_server control_server : RpcServer

  -- The objects of a process that has started.
  pub record Process : Type 0 where
    pub registry : List (EpicsAnyValueManager d c u)
    pub auto_server : AutomationServer d r l
    pub rpc_servers : List (Bytes × RpcServer)

  -- `CreateEPICSAnyValueManagerRegistry`.
  abbrev pub create_registry : ℕ → List (EpicsAnyValueManager d c u)
  create_registry n_managers = create_managers d c u (n_managers % 2 ^ 32)

  abbrev pub rpc_servers_of : Bytes → List (Bytes × RpcServer)
  rpc_servers_of service_name =
      (service_name, info_server) ∷ (control_server_name service_name, control_server) ∷ []

  -- `none` where the usage is printed.
  unfoldable pub main : Files → Arguments → Result (Option Process)
  main files parser =
      if not parser.parsed
      then ok none
      else get_procedure_list files parser >>= λ proc_list.
          add_jobs (Server.init d r l parser.service) proc_list >>= λ auto_server. ok (
            some (record {
              registry = create_registry (length proc_list);
              auto_server = auto_server;
              rpc_servers = rpc_servers_of parser.service;
            }))

  -- A remote call to the server with a name; `no_server` is the result where there is none.
  module _ (no_server : ℕ) where
    abbrev pub info_result :
        Process → AnyValue → AnyValue → Option RpcServer → Result (ℕ × AnyValue)
    info_result p input output none = ok (no_server, output)
    info_result p input output (some info_server) =
        invoke_info d r (server_manager d r l) p.auto_server input output
    info_result p input output (some control_server) =
        invoke_control d r (server_manager d r l) p.auto_server input >>= λ q. ok (q.1, output)

    abbrev pub control_result : Process → AnyValue → Option RpcServer → Result (Process × ℕ)
    control_result p input none = ok (p, no_server)
    control_result p input (some info_server) =
        invoke_info d r (server_manager d r l) p.auto_server input d.empty_value >>= λ q.
        ok (p, q.0)
    control_result p input (some control_server) =
        invoke_control d r (server_manager d r l) p.auto_server input >>= λ q.
        ok (record p { auto_server = q.0 }, q.1)

    -- `CreateEPICSRPCClientStack` for the two servers of a name.
    abbrev pub info_stack : Bytes → Process → AnyValue → AnyValue → Result (ℕ × AnyValue)
    info_stack name p input output = info_result p input output (lookup name p.rpc_servers)

    abbrev pub control_stack : Bytes → Process → AnyValue → Result (Process × ℕ)
    control_stack name p input = control_result p input (lookup name p.rpc_servers)

    unfoldable pub create_epics_job_manager : Bytes → Result (JobManager d r Process)
    create_epics_job_manager server_name =
        construct d r (some (info_stack server_name))
          (some (control_stack (control_server_name server_name)))
        >>= λ protocols. ok (stack_client d r protocols)
