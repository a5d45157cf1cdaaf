-- ===== src/Commands/Entry.antt =====
-- main.go: which process runs a command, by the daemon's lock file.
--
-- Parsing the command line and talking to the daemon are those of go-ipfs-cmds, and are arguments.
use toychain.Prelude.{Bool, Option, none, some, List, [], ◌∷◌, ◌=ᵇ◌, Bytes, if◌then◌else◌}
use toychain.Outcome.{Outcome, ok, err, panic}
use toychain.Exec.{Exec, pure, lift, ◌>>=◌, ◌>>◌}
use toychain.Types.Address.{Address}
use toychain.Platform.{Platform}
use toychain.Core.Boot.{ToychainNode}
use toychain.Commands.Lock.{FileSystem, daemon_is_running}
use toychain.Commands.Daemon.{Services, DaemonEnd, must, daemon_run}

-- The commands that ask for the daemon's node before anything else.
pub data NodeCommand : Type 0 where
  new_command list_command wantlist_command whoami_command : NodeCommand
  lookup_command dag_command : Bytes → NodeCommand
  balance_command : Option Bytes → NodeCommand
  send_command : Bytes → Bytes → NodeCommand
  connect_command : List Bytes → NodeCommand

pub data Request : Type 0 where
  daemon_request : List Bytes → Request
  node_request : NodeCommand → Request

-- The command line, with its option `api`.
pub record CommandLine : Type 0 where
  pub api : Bytes
  pub request : Request

-- How a process that did not panic came to its end: with the exit code 1, because a daemon runs
-- already, with the answer of the daemon that listens at an address, or as the daemon.
pub data Ending : Type 0 where
  exit_one already_running daemon_ended : Ending
  answered_by : Bytes → Ending

-- The bytes of "TOYCHAIN_API".
abbrev toychain_api : Bytes
toychain_api =
    b'T' ∷ b'O' ∷ b'Y' ∷ b'C' ∷ b'H' ∷ b'A' ∷ b'I' ∷ b'N' ∷ b'_' ∷ b'A' ∷ b'P' ∷ b'I' ∷ []

module _ (p : Platform) where
  -- `GetNode`: the assertion on the environment's type panics where there is none.
  abbrev pub get_node : Option (ToychainNode p) → Outcome (ToychainNode p)
  get_node (some n) = ok n
  get_node none = panic

module _ (p : Platform) (s : Services) (fs : FileSystem)
    (send : Bytes → Request → Outcome (Unit {0})) where
  -- The daemon's address: the environment's, if it names one.
  abbrev pub api_of : CommandLine → Bytes
  api_of l = let ae = fs.getenv toychain_api in if ae =ᵇ [] then l.api else ae

  -- The branch where a daemon runs.
  abbrev pub remotely : CommandLine → Request → Exec fs.Files Ending
  remotely l (daemon_request args) = pure already_running
  remotely l (node_request c) = do
    lift (must (send (api_of l) (node_request c)))
    pure (answered_by (api_of l))

  -- The branch where none does: the command runs in this process, without a node. `end` is how a
  -- daemon that serves comes to its end.
  abbrev pub locally : Address → p.Store → DaemonEnd → CommandLine → Request → Exec fs.Files Ending
  locally base st end l (daemon_request args) = do
    daemon_run p s fs base st l.api args end
    pure daemon_ended
  locally base st end l (node_request c) = do n ← lift (get_node p none); pure exit_one

  abbrev pub on_lock :
      Address → p.Store → DaemonEnd → Outcome CommandLine → Outcome Bool → Exec fs.Files Ending
  on_lock base st end parsed (ok running) = do
    l ← lift (must parsed)
    if running then remotely l l.request else locally base st end l l.request
  on_lock base st end parsed (err e) = pure exit_one
  on_lock base st end parsed panic = lift panic

  -- `main`
  unfoldable pub main : Address → p.Store → DaemonEnd → Outcome CommandLine → Exec fs.Files Ending
  unfolding daemon_is_running daemon_run
  main base st end parsed files = on_lock base st end parsed (daemon_is_running fs files) files
