-- ===== src/Examples/Daemon.antt =====
-- A daemon on files that a function tells.
use toychain.Contract.Execute.{flush_state}
use toychain.Examples.Toy.{toy_marshal}
use toychain.Contract.World.{set_actor}
use toychain.Core.Genesis.{create_genesis_block}
use toychain.Examples.Toy.{toy_load}
use toychain.Prelude.{
  ◌≡◌, refl, ◌=ᵇ◌, =ᵇ-self, true, false, Bool, List, [], ◌∷◌, Bytes, if◌then◌else◌,
}
use toychain.Outcome.{Outcome, ok, err, panic, Error, not_found, library}
use toychain.Types.Address.{Address}
use toychain.Commands.Lock.{FileSystem, IsFileSystem, write_daemon_lock, daemon_is_running}
use toychain.Commands.Daemon.{
  Services, DaemonEnd, interrupted, server_failed, daemon_start, daemon_run,
}
use toychain.Commands.Entry.{Request, daemon_request, already_running, main}
use toychain.Commands.Laws.Daemon.{daemon_run_locks}
use toychain.Examples.Toy.{toy, ToyStore}
use toychain.Examples.Contract.{alice}
use toychain.Examples.Core.{empty_store}
use toychain.Examples.System.{first, is_first}

-- Which paths have a file.
abbrev ToyFiles : Type 0
ToyFiles = Bytes → Bool

abbrev is_there : Bool → Outcome (Unit {0})
is_there true = ok tt
is_there false = err not_found

abbrev is_missing : Error → Bool
is_missing not_found = true
is_missing _ = false

abbrev toy_files : FileSystem
toy_files = record {
  Files = ToyFiles;
  getenv = λ name. [];
  join = λ a b. b;
  write_file = λ path data' mode files. (ok tt, λ q. if path =ᵇ q then true else files q);
  remove = λ path files. (ok tt, λ q. if path =ᵇ q then false else files q);
  stat = λ path files. is_there (files path);
  is_not_exist = is_missing;
}

toy_files-IsFileSystem : IsFileSystem toy_files
toy_files-IsFileSystem = record {
  stat_written = λ path data' mode files h. rw (=ᵇ-self path);
  stat_removed = λ path files h. (not_found, rw (=ᵇ-self path), refl);
}

abbrev services : Services
services = record {
  Key = Unit {0};
  Multiaddr = Unit {0};
  Host = Unit {0};
  hash = λ api. 0;
  generate_key = λ seed. ok tt;
  new_multiaddr = λ port. ok tt;
  construct = λ key laddr. ok tt;
  peer_of = λ h. 8 ∷ [];
  new_flood_sub = λ h. ok (λ t. ok tt);
  parse_peer = λ text. err (library 7);
  connect = λ h info. ok tt;
}

abbrev no_files : ToyFiles
no_files path = false

abbrev refuse : Bytes → Request → Outcome (Unit {0})
refuse api r = err (library 8)

has_started : daemon_start toy services alice empty_store [] [] ≡ ok first
unfolding daemon_start toy_load create_genesis_block set_actor toy_marshal flush_state
has_started = is_first

has_written : (write_daemon_lock toy_files no_files).0 ≡ ok tt
unfolding write_daemon_lock
has_written = refl

abbrev locked : ToyFiles
locked = (write_daemon_lock toy_files no_files).1

daemon_run_locks_example :
    (daemon_is_running toy_files locked ≡ ok true)
    × ((base' : Address) (st' : ToyStore) (end : DaemonEnd) (api' : Bytes) (args' : List Bytes)
        → main toy services toy_files refuse base' st' end
            (ok (record { api = api'; request = daemon_request args' }))
            locked
          ≡ (ok already_running, locked))
    × (daemon_run toy services toy_files alice empty_store [] [] server_failed no_files
        ≡ (panic, locked))
    × ((daemon_run toy services toy_files alice empty_store [] [] interrupted no_files).0 ≡ ok tt)
    × (daemon_is_running toy_files
          (daemon_run toy services toy_files alice empty_store [] [] interrupted no_files).1
        ≡ ok false)
daemon_run_locks_example =
    daemon_run_locks toy services toy_files toy_files-IsFileSystem refuse alice empty_store [] []
      no_files has_started has_written refl
