-- ===== src/Commands/Swarm.antt =====
-- `swarmConnectCmd` of commands/all_commands_fixme.go, with `parseAddresses` and `peersWithAddresses`.
--
-- The parser of go-ipfs-addr, the text of a peer and the host's `Connect` are arguments. The state is
-- the peers that `Connect` was called for, the last first.
use toychain.Prelude.{Bool, false, List, [], ◌∷◌, map, Bytes, if◌then◌else◌}
use toychain.Outcome
use toychain.Outcome.{Outcome, ok, err, panic, Context, wrapping, Message, message}
use toychain.Exec.{Exec, pure, fail, lift, ◌>>=◌, ◌>>◌}
use toychain.Lookup.{PeerId}

-- What is read of an `ipfsaddr.IPFSAddr`.
pub record IpfsAddr : Type 0 where
  pub id : PeerId
  pub transport : Bytes

-- `pstore.PeerInfo`
pub record PeerInfo : Type 0 where
  pub id : PeerId
  pub addrs : List Bytes

-- `connectResult`
pub record ConnectResult : Type 0 where
  pub peer : Bytes
  pub success : Bool

abbrev pub peer_info : IpfsAddr → PeerInfo
peer_info a = record { id = a.id; addrs = a.transport ∷ [] }

module _ (parse : Bytes → Outcome IpfsAddr) where
  -- `parseAddresses`
  unfoldable pub parse_addresses : List Bytes → Outcome (List IpfsAddr)
  parse_addresses [] = ok []
  parse_addresses (text ∷ addrs) =
      Outcome.◌>>=◌ (wrapping Context.invalid_peer_address (parse text))
        λ a. Outcome.◌>>=◌ (parse_addresses addrs) λ iaddrs. ok (a ∷ iaddrs)

  -- `peersWithAddresses`
  unfoldable pub peers_with_addresses : List Bytes → Outcome (List PeerInfo)
  unfolding parse_addresses
  peers_with_addresses addrs =
      Outcome.◌>>=◌ (parse_addresses addrs) λ iaddrs. ok (map peer_info iaddrs)

  module _ (pretty : PeerId → Bytes) (connect : PeerInfo → Outcome (Unit {0})) where
    -- `Host.Connect`
    abbrev pub connect_to : PeerInfo → Exec (List PeerInfo) (Unit {0})
    connect_to info tried = (wrapping Context.connect_failure (connect info), info ∷ tried)

    -- The entry that the loop fills in: `Success` keeps the value that `make` gave it.
    abbrev pub entry : PeerInfo → ConnectResult
    entry info = record { peer = pretty info.id; success = false }

    -- The loop over the peers.
    unfoldable pub connect_all : List PeerInfo → Exec (List PeerInfo) (List ConnectResult)
    connect_all [] = pure []
    connect_all (info ∷ infos) = do
      connect_to info
      output ← connect_all infos
      pure (entry info ∷ output)

    -- `swarmConnectCmd`, on a host whose network is a swarm or not.
    unfoldable pub swarm_connect : Bool → List Bytes → Exec (List PeerInfo) (List ConnectResult)
    unfolding peers_with_addresses connect_all
    swarm_connect is_swarm addrs =
        if is_swarm
        then (do pis ← lift (peers_with_addresses addrs); connect_all pis)
        else fail (message Message.not_swarm)
