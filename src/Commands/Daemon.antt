-- ===== src/Commands/Daemon.antt =====
-- `DaemonCmd` of commands/all_commands_fixme.go: how the daemon starts, and how it ends.
--
-- What go-libp2p, floodsub and the standard library are called for is `Services`; the block store
-- that the daemon makes is the platform's, empty at the start.
use toychain.Prelude.{ℕ, ◌+◌, ◌%◌, List, [], ◌∷◌, Bytes}
use toychain.Outcome
use toychain.Outcome.{Outcome, ok, err, panic}
use toychain.Exec.{Exec, lift, ◌>>=◌, ◌>>◌}
use toychain.Types.Address.{Address}
use toychain.Platform.{Platform}
use toychain.Lookup.{PeerId}
use toychain.Core.Boot.{ToychainNode, Topic, new_toychain_node}
use toychain.Commands.Lock.{FileSystem, write_daemon_lock, remove_daemon_lock}
use toychain.Commands.Swarm.{IpfsAddr, PeerInfo, peer_info}

pub record Services : Type 1 where
  pub Key : Type 0
  pub Multiaddr : Type 0
  pub Host : Type 0
  -- the 64-bit FNV hash, and `crypto.GenerateKeyPairWithReader` from the seed
  pub hash : Bytes → ℕ
  pub generate_key : ℕ → Outcome Key
  -- `ma.NewMultiaddr` of the loopback address with a port
  pub new_multiaddr : ℕ → Outcome Multiaddr
  pub construct : Key → Multiaddr → Outcome Host
  pub peer_of : Host → PeerId
  -- `floodsub.NewFloodSub`, and its `Subscribe`
  pub new_flood_sub : Host → Outcome (Topic → Outcome (Unit {0}))
  pub parse_peer : Bytes → Outcome IpfsAddr
  pub connect : Host → PeerInfo → Outcome (Unit {0})

-- `if err != nil { panic(err) }`
abbrev pub must {ℓ} : {A : Type ℓ} → Outcome A → Outcome A
must (ok a) = ok a
must (err e) = panic
must panic = panic

-- How a daemon that serves comes to an end: by a signal, or because `ListenAndServe` returned.
pub data DaemonEnd : Type 0 where
  interrupted server_failed : DaemonEnd

-- The port on which the daemon listens.
abbrev pub listen_port : ℕ → ℕ
listen_port seed = 1000 + seed % 20000

module _ (p : Platform) (s : Services) where
  -- The connection to the first bootstrap node.
  abbrev pub bootstrap : s.Host → List Bytes → Outcome (Unit {0})
  bootstrap h [] = ok tt
  bootstrap h (text ∷ rest) =
      Outcome.◌>>=◌ (must (s.parse_peer text)) λ a. must (s.connect h (peer_info a))

  -- `daemonRun` up to the lock file, for the fresh address `base`.
  unfoldable pub daemon_start : Address → p.Store → Bytes → List Bytes → Outcome (ToychainNode p)
  unfolding new_toychain_node
  daemon_start base st api args =
      let seed = s.hash api in
      Outcome.◌>>=◌ (must (s.generate_key seed)) λ key.
        Outcome.◌>>=◌ (must (s.new_multiaddr (listen_port seed))) λ laddr.
          Outcome.◌>>=◌ (must (s.construct key laddr)) λ h.
            Outcome.◌>>=◌ (must (s.new_flood_sub h)) λ subscribe.
              Outcome.◌>>=◌ (must (new_toychain_node p subscribe (s.peer_of h) base st))
                λ n. Outcome.◌>>=◌ (bootstrap h args) λ _. ok n

  module _ (fs : FileSystem) where
    abbrev pub must_write : Exec fs.Files (Unit {0})
    must_write files = let (r, files') = write_daemon_lock fs files in (must r, files')

    -- The end of `daemonRun`; the panic of the server's goroutine ends the process.
    abbrev pub served : DaemonEnd → Exec fs.Files (Unit {0})
    served interrupted = remove_daemon_lock fs
    served server_failed = lift panic

    -- `daemonRun`
    unfoldable pub daemon_run :
        Address → p.Store → Bytes → List Bytes → DaemonEnd → Exec fs.Files (Unit {0})
    unfolding daemon_start write_daemon_lock remove_daemon_lock
    daemon_run base st api args end = do
      n ← lift (daemon_start base st api args)
      must_write
      served end
