-- ===== src/Examples/Network.antt =====
-- A network of numbers: keys are numbers, a peerstore is the place of its last keys, and a host is what
-- it was made of and the port that was free.
use toychain.Prelude.{ℕ, ◌+◌, ◌≡◌, refl, none, some, List, [], ◌∷◌, Bytes}
use toychain.Outcome.{Outcome, ok}
use toychain.Lookup.{PeerId}
use toychain.Network.{Libp2p, Config, default_config, construct_with, host_of}
use toychain.Network.Laws.{IsIdentity, construct_with-IsIdentity}

-- The next free port, the number of the peerstores, and the keys that were added.
abbrev pub Wires : Type 0
Wires = ℕ × ℕ × List (ℕ × PeerId × ℕ)

abbrev network : Libp2p
network = record {
  Transport = ℕ;
  Multiaddr = Bytes;
  PrivKey = ℕ;
  PubKey = ℕ;
  Peerstore = ℕ;
  Protector = Unit;
  Reporter = Unit;
  Random = ℕ;
  Swarm = PeerId × ℕ;
  Host = PeerId × ℕ;
  Net = Wires;
  generate_key = λ n. ok n;
  get_public = λ key. key;
  id_of = λ key. ok (key ∷ []);
  new_peerstore = λ net. (net.1, (net.0, net.1 + 1, net.2));
  add_priv_key = λ pid key ps net. (net.0, net.1, (ps, pid, key) ∷ net.2);
  add_pub_key = λ pid key ps net. (net.0, net.1, (ps, pid, key) ∷ net.2);
  new_multiaddr = λ text. ok text;
  yamux = 1;
  mplex = 2;
  new_swarm =
      λ addrs pid ps protector muxer reporter net. (ok (pid, net.0), (net.0 + 1, net.1, net.2));
  new_host = λ swarm net. (swarm, net);
}

abbrev config_of : Outcome (Config network) × Wires → Config network
config_of (ok cfg, net) = cfg
config_of _ = record {
  transports = [];
  muxer = none;
  listen_addrs = [];
  peer_key = none;
  peerstore = none;
  protector = none;
  reporter = none;
}

abbrev wires : Wires
wires = (4001, 0, [])

abbrev cfg : Config network
cfg = config_of (default_config network wires)

abbrev used : Config network
used = record cfg { peer_key = some 5 }

abbrev later_wires : Wires
later_wires = (4002, 0, (0, 5 ∷ [], 5) ∷ (0, 5 ∷ [], 5) ∷ [])

is_made : construct_with network 5 (cfg, wires) ≡ (ok (5 ∷ [], 4001), (used, later_wires))
unfolding construct_with host_of default_config
is_made = refl

construct_with-IsIdentity_example : IsIdentity network 5 cfg used wires (5 ∷ [], 4001) later_wires
construct_with-IsIdentity_example =
    construct_with-IsIdentity network 5 cfg used wires later_wires (5 ∷ [], 4001) is_made
