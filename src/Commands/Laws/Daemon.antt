-- ===== src/Commands/Laws/Daemon.antt =====
-- The daemon's lock file, from its start to what the next process makes of it.
use toychain.Prelude.{◌≡◌, ap, ◌∙◌, true, false, List, Bytes}
use toychain.Outcome.{Outcome, ok, panic}
use toychain.Exec.{continue}
use toychain.Types.Address.{Address}
use toychain.Platform.{Platform}
use toychain.Core.Boot.{ToychainNode}
use toychain.Commands.Lock.{
  FileSystem, IsFileSystem, get_path, ignoring, lock_text, running, write_daemon_lock,
  remove_daemon_lock, daemon_is_running,
}
use toychain.Commands.Daemon.{
  Services, DaemonEnd, interrupted, server_failed, served, daemon_start, daemon_run,
}
use toychain.Commands.Entry.{Request, daemon_request, already_running, main}

module _ (fs : FileSystem) (laws : IsFileSystem fs) where
  written-running :
      (files : fs.Files)
      → (write_daemon_lock fs files).0 ≡ ok tt
      → daemon_is_running fs (write_daemon_lock fs files).1 ≡ ok true
  unfolding write_daemon_lock daemon_is_running
  written-running files h = ap (running fs) (laws.stat_written (get_path fs) lock_text 288 files h)

  removed-stopped :
      (files : fs.Files)
      → (fs.remove (get_path fs) files).0 ≡ ok tt
      → daemon_is_running fs (remove_daemon_lock fs files).1 ≡ ok false
  unfolding remove_daemon_lock daemon_is_running
  removed-stopped files h =
      let (e, gone, missing) = laws.stat_removed (get_path fs) files h in
      ap (running fs) gone ∙ rw missing

module _ (p : Platform) (s : Services) (fs : FileSystem) where
  -- A daemon that started and wrote its lock file goes on to serve.
  daemon_run-served :
      (base : Address) (st : p.Store) (api : Bytes) (args : List Bytes) (end : DaemonEnd)
      (files : fs.Files) {n : ToychainNode p}
      → daemon_start p s base st api args ≡ ok n
      → (write_daemon_lock fs files).0 ≡ ok tt
      → daemon_run p s fs base st api args end files
        ≡ served p s fs end (write_daemon_lock fs files).1
  unfolding daemon_run
  daemon_run-served base st api args end files start written = rw (start, written, continue)

  -- Where the file system does what its documentation says, take a daemon that started and wrote its
  -- lock file, which can be removed again. While it serves, a daemon counts as running, and any
  -- further daemon command ends at once because of that, with no change. If the server fails, the
  -- process panics and the lock file stays. If the daemon is interrupted, it ends without an error and
  -- no daemon counts as running.
  pub daemon_run_locks :
      IsFileSystem fs
      → (send : Bytes → Request → Outcome (Unit {0})) (base : Address) (st : p.Store) (api : Bytes)
        (args : List Bytes) (files : fs.Files) {n : ToychainNode p}
      → daemon_start p s base st api args ≡ ok n
      → (write_daemon_lock fs files).0 ≡ ok tt
      → (fs.remove (get_path fs) (write_daemon_lock fs files).1).0 ≡ ok tt
      → (daemon_is_running fs (write_daemon_lock fs files).1 ≡ ok true)
        × ((base' : Address) (st' : p.Store) (end : DaemonEnd) (api' : Bytes) (args' : List Bytes)
            → main p s fs send base' st' end
                (ok (record { api = api'; request = daemon_request args' }))
                (write_daemon_lock fs files).1
              ≡ (ok already_running, (write_daemon_lock fs files).1))
        × (daemon_run p s fs base st api args server_failed files
            ≡ (panic, (write_daemon_lock fs files).1))
        × ((daemon_run p s fs base st api args interrupted files).0 ≡ ok tt)
        × (daemon_is_running fs (daemon_run p s fs base st api args interrupted files).1 ≡ ok false)
  unfolding main
  daemon_run_locks laws send base st api args files start written removed =
      let locked = written-running fs laws files written in
      let run = daemon_run-served base st api args interrupted files start written in
      (
        locked,
        λ base' st' end api' args'. rw (locked, continue),
        daemon_run-served base st api args server_failed files start written,
        ap (λ r. r.0) run ∙ ap (ignoring fs) removed,
        ap (λ r. daemon_is_running fs r.1) run
            ∙ removed-stopped fs laws (write_daemon_lock fs files).1 removed,
      )
