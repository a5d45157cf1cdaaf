-- ===== src/Network.antt =====
-- `Config`, `Construct` and `DefaultConfig` of libp2p/libp2p.go.
--
-- What the libraries make of their arguments is a parameter, `Libp2p`. What lies behind their
-- pointers and what the machine has open is its `Net`: the peerstores, the listeners and the hosts. So
-- a peerstore is a pointer here, and two calls with the same arguments may give different swarms. A
-- key is made out of what the random source gives, which is an argument. A multiplexer is the list of
-- its transports, the first one added first.
pub mod Laws
use toychain.Prelude.{Option, none, some, List, [], ◌∷◌, Bytes}
use toychain.Outcome.{Outcome, ok, err, panic}
use toychain.Exec.{Exec, ◌>>=◌}
use toychain.Lookup.{PeerId}

pub record Libp2p : Type 1 where
  pub Transport : Type 0
  pub Multiaddr : Type 0
  pub PrivKey : Type 0
  pub PubKey : Type 0
  pub Peerstore : Type 0
  pub Protector : Type 0
  pub Reporter : Type 0
  pub Random : Type 0
  pub Swarm : Type 0
  pub Host : Type 0
  pub Net : Type 0
  -- `GenerateKeyPairWithReader(RSA, 2048, ...)`, `GetPublic`, `IDFromPublicKey`
  pub generate_key : Random → Outcome PrivKey
  pub get_public : PrivKey → PubKey
  pub id_of : PubKey → Outcome PeerId
  -- `NewPeerstore`, `AddPrivKey`, `AddPubKey`, whose errors the source drops
  pub new_peerstore : Net → Peerstore × Net
  pub add_priv_key : PeerId → PrivKey → Peerstore → Net → Net
  pub add_pub_key : PeerId → PubKey → Peerstore → Net → Net
  -- `NewMultiaddr`, `yamux.DefaultTransport`, `mplex.DefaultTransport`
  pub new_multiaddr : Bytes → Outcome Multiaddr
  pub yamux : Transport
  pub mplex : Transport
  -- `NewSwarmWithProtector`, `bhost.New`
  pub new_swarm :
      List Multiaddr
      → PeerId
      → Peerstore
      → Option Protector
      → Option (List (Bytes × Transport))
      → Option Reporter
      → Exec Net Swarm
  pub new_host : Swarm → Net → Host × Net

-- The bytes of "/ip4/127.0.0.1/tcp/0", "/yamux/1.0.0" and "/mplex/6.3.0".
abbrev pub local_address : Bytes
local_address =
    b'/' ∷ b'i' ∷ b'p' ∷ b'4' ∷ b'/' ∷ b'1' ∷ b'2' ∷ b'7' ∷ b'.' ∷ b'0' ∷ b'.' ∷ b'0' ∷ b'.' ∷ b'1'
    ∷ b'/' ∷ b't' ∷ b'c' ∷ b'p' ∷ b'/' ∷ b'0' ∷ []

abbrev pub yamux_name : Bytes
yamux_name = b'/' ∷ b'y' ∷ b'a' ∷ b'm' ∷ b'u' ∷ b'x' ∷ b'/' ∷ b'1' ∷ b'.' ∷ b'0' ∷ b'.' ∷ b'0' ∷ []

abbrev pub mplex_name : Bytes
mplex_name = b'/' ∷ b'm' ∷ b'p' ∷ b'l' ∷ b'e' ∷ b'x' ∷ b'/' ∷ b'6' ∷ b'.' ∷ b'3' ∷ b'.' ∷ b'0' ∷ []

module _ (l : Libp2p) where
  open l use {
    Transport, Multiaddr, PrivKey, Peerstore, Protector, Reporter, Random, Host, generate_key,
    get_public, id_of, new_peerstore, add_priv_key, add_pub_key, new_multiaddr, yamux, mplex,
    new_swarm, new_host, Swarm, Net,
  }

  -- `Config`; `none` stands for a nil interface. `Transports` is not read anywhere.
  pub record Config : Type 0 where
    pub transports : List Transport
    pub muxer : Option (List (Bytes × Transport))
    pub listen_addrs : List Multiaddr
    pub peer_key : Option PrivKey
    pub peerstore : Option Peerstore
    pub protector : Option Protector
    pub reporter : Option Reporter

  abbrev with_address : Outcome Multiaddr → Exec Net Config
  with_address (ok addr) net =
      let (ps, net') = new_peerstore net in
      (
        ok (record {
          transports = [];
          muxer = some ((yamux_name, yamux) ∷ (mplex_name, mplex) ∷ []);
          listen_addrs = addr ∷ [];
          peer_key = none;
          peerstore = some ps;
          protector = none;
          reporter = none;
        }),
        net',
      )
  with_address (err e) net = (panic, net)
  with_address panic net = (panic, net)

  -- `DefaultConfig`
  unfoldable pub default_config : Exec Net Config
  default_config = with_address (new_multiaddr local_address)

  -- The peerstore that `Construct` uses; one that it made is not stored in the config.
  abbrev pub given : Option Peerstore → Net → Peerstore × Net
  given none net = new_peerstore net
  given (some ps) net = (ps, net)

  -- The peer's keys, put into a peerstore.
  abbrev pub add_keys : PeerId → PrivKey → Peerstore → Net → Net
  add_keys pid key ps net = add_pub_key pid (get_public key) ps (add_priv_key pid key ps net)

  abbrev hosted : Swarm → Exec Net Host
  hosted swarm net = let (host, net') = new_host swarm net in (ok host, net')

  -- `Construct` from the peer's id on.
  unfoldable pub host_of : Config → PrivKey → PeerId → Exec Net Host
  host_of cfg key pid net =
      let (ps, net') = given cfg.peerstore net in
      (new_swarm cfg.listen_addrs pid ps cfg.protector cfg.muxer cfg.reporter >>= hosted)
        (add_keys pid key ps net')

  -- `Construct` once the config has a key. A config is behind a pointer too: its caller sees the key.
  abbrev pub with_id : PrivKey → Outcome PeerId → Exec (Config × Net) Host
  with_id key (ok pid) (cfg, net) =
      let (host, net') = host_of cfg key pid net in (host, (cfg, net'))
  with_id key (err e) s = (err e, s)
  with_id key panic s = (panic, s)

  abbrev pub with_key : Outcome PrivKey → Exec (Config × Net) Host
  with_key (ok key) (cfg, net) =
      with_id key (id_of (get_public key)) (record cfg { peer_key = some key }, net)
  with_key (err e) s = (err e, s)
  with_key panic s = (panic, s)

  abbrev pub key_of : Random → Option PrivKey → Outcome PrivKey
  key_of random none = generate_key random
  key_of random (some key) = ok key

  -- `Construct` on a config.
  unfoldable pub construct_with : Random → Exec (Config × Net) Host
  unfolding host_of
  construct_with random (cfg, net) = with_key (key_of random cfg.peer_key) (cfg, net)

  abbrev forget : Outcome Host × (Config × Net) → Outcome Host × Net
  forget (host, (cfg, net)) = (host, net)

  abbrev remember : Outcome Host × (Config × Net) → Outcome Host × (Option Config × Net)
  remember (host, (cfg, net)) = (host, (some cfg, net))

  -- `Construct`; without a config it makes one, which nobody sees.
  unfoldable pub construct : Random → Exec (Option Config × Net) Host
  unfolding default_config construct_with
  construct random (none, net) =
      let (host, net') =
        (default_config >>= λ cfg net. forget (construct_with random (cfg, net))) net in
      (host, (none, net'))
  construct random (some cfg, net) = remember (construct_with random (cfg, net))
