-- ===== src/Commands/Lock.antt =====
-- commands/lock.go: the file that tells whether a daemon runs.
use toychain.Prelude.{ℕ, ◌≡◌, Bool, true, false, [], ◌∷◌, ◌=ᵇ◌, Bytes, if◌then◌else◌}
use toychain.Outcome.{Outcome, ok, err, panic, Error}
use toychain.Exec.{Exec}

-- What Go's os, io/ioutil and path/filepath offer, on files that are a state.
pub record FileSystem : Type 1 where
  pub Files : Type 0
  pub getenv : Bytes → Bytes
  pub join : Bytes → Bytes → Bytes
  pub write_file : Bytes → Bytes → ℕ → Exec Files (Unit {0})
  pub remove : Bytes → Exec Files (Unit {0})
  pub stat : Bytes → Files → Outcome (Unit {0})
  pub is_not_exist : Error → Bool

-- The bytes of "TOYCHAIN_PATH", "HOME" and "toychain-daemon-lock", and what is written to the file.
abbrev toychain_path : Bytes
toychain_path =
    b'T' ∷ b'O' ∷ b'Y' ∷ b'C' ∷ b'H' ∷ b'A' ∷ b'I' ∷ b'N' ∷ b'_' ∷ b'P' ∷ b'A' ∷ b'T' ∷ b'H' ∷ []

abbrev home : Bytes
home = b'H' ∷ b'O' ∷ b'M' ∷ b'E' ∷ []

abbrev lock_name : Bytes
lock_name =
    b't' ∷ b'o' ∷ b'y' ∷ b'c' ∷ b'h' ∷ b'a' ∷ b'i' ∷ b'n' ∷ b'-' ∷ b'd' ∷ b'a' ∷ b'e' ∷ b'm' ∷ b'o'
    ∷ b'n' ∷ b'-' ∷ b'l' ∷ b'o' ∷ b'c' ∷ b'k' ∷ []

abbrev pub lock_text : Bytes
lock_text =
    b'i' ∷ b't' ∷ b's' ∷ 32 ∷ b'l' ∷ b'o' ∷ b'c' ∷ b'k' ∷ b'e' ∷ b'd' ∷ b',' ∷ 32 ∷ b'd' ∷ b'o'
    ∷ b'n' ∷ 39 ∷ b't' ∷ 32 ∷ b'w' ∷ b'o' ∷ b'r' ∷ b'r' ∷ b'y' ∷ []

module _ (fs : FileSystem) where
  open fs use {Files, getenv, join, write_file, remove, stat, is_not_exist}

  -- `getPath`
  abbrev pub get_path : Bytes
  get_path =
      let base = getenv toychain_path in join (if base =ᵇ [] then getenv home else base) lock_name

  -- `writeDaemonLock`, with the mode 0440.
  unfoldable pub write_daemon_lock : Exec Files (Unit {0})
  write_daemon_lock = write_file get_path lock_text 288

  -- `removeDaemonLock`: an error is not looked at.
  abbrev pub ignoring : Outcome (Unit {0}) → Outcome (Unit {0})
  ignoring (ok u) = ok u
  ignoring (err e) = ok tt
  ignoring panic = panic

  unfoldable pub remove_daemon_lock : Exec Files (Unit {0})
  remove_daemon_lock files = let (r, files') = remove get_path files in (ignoring r, files')

  abbrev pub running : Outcome (Unit {0}) → Outcome Bool
  running (ok u) = ok true
  running (err e) = if is_not_exist e then ok false else err e
  running panic = panic

  -- `DaemonIsRunning`
  unfoldable pub daemon_is_running : Files → Outcome Bool
  daemon_is_running files = running (stat get_path files)

  -- What the documentation of these packages says of a file that was written, and of one that was
  -- removed.
  pub record IsFileSystem : Type 0 where
    pub stat_written :
        (path data' : Bytes) (mode : ℕ) (files : Files)
        → (write_file path data' mode files).0 ≡ ok tt
        → stat path (write_file path data' mode files).1 ≡ ok tt
    pub stat_removed :
        (path : Bytes) (files : Files)
        → (remove path files).0 ≡ ok tt
        → (e : Error) × (stat path (remove path files).1 ≡ err e) × (is_not_exist e ≡ true)
