-- ===== src/Network/Laws.antt =====
-- What `Construct` leaves in the config of its caller.
use mathlib.Core.Path.{subst}
use toychain.Prelude.{◌≡◌, refl, ap, sym, ◌∙◌, some}
use toychain.Outcome.{Outcome, ok, err, panic}
use toychain.Lookup.{PeerId}
use toychain.Network.{Libp2p, Config, host_of, with_id, with_key, key_of, construct_with}

module _ (l : Libp2p) where
  -- The identity of a host that `Construct` made with a config: the config's own key or the one that
  -- the random source gave, and the id of its peer. It is in the config after the call.
  pub record IsIdentity (random : l.Random) (cfg cfg' : Config l) (net : l.Net) (host : l.Host)
      (net' : l.Net) : Type 0 where
    pub key : l.PrivKey
    pub pid : PeerId
    pub is_key : key_of l random cfg.peer_key ≡ ok key
    pub is_id : l.id_of (l.get_public key) ≡ ok pid
    pub is_kept : cfg' ≡ record cfg { peer_key = some key }
    pub is_made : host_of l cfg key pid net ≡ (ok host, net')
    pub again :
        (later : l.Random) (now : l.Net)
        → construct_with l later (cfg', now)
          ≡ ((host_of l cfg key pid now).0, (cfg', (host_of l cfg key pid now).1))

  construct_with-key :
      (random : l.Random) (cfg : Config l) (net : l.Net) (r : Outcome l.PrivKey)
      → key_of l random cfg.peer_key ≡ r
      → construct_with l random (cfg, net) ≡ with_key l r (cfg, net)
  unfolding construct_with
  construct_with-key random cfg net r e = ap (λ k. with_key l k (cfg, net)) e

  -- What is made of a key does not ask the config for it.
  host_of-key :
      (cfg : Config l) (key : l.PrivKey) (pid : PeerId) (net : l.Net)
      → host_of l cfg key pid net ≡ host_of l (record cfg { peer_key = some key }) key pid net
  unfolding host_of
  host_of-key cfg key pid net = refl

  construct_with_again :
      (later : l.Random) (cfg : Config l) (key : l.PrivKey) (pid : PeerId) (now : l.Net)
      → l.id_of (l.get_public key) ≡ ok pid
      → construct_with l later (record cfg { peer_key = some key }, now) ≡ (
        (host_of l cfg key pid now).0,
        (record cfg { peer_key = some key }, (host_of l cfg key pid now).1),
      )
  unfolding construct_with host_of
  construct_with_again later cfg key pid now e = rw (e, with_id)

  -- Where `Construct` made a host with a config, the only change of that config is that it has the
  -- host's key: its own, or else the generated one. Every later call with that config, in whatever
  -- state the network then is and whatever the random source then gives, asks for a swarm of the same
  -- key, the same peer and the same options, ends as that request ends, and changes the config no more.
  pub construct_with-IsIdentity :
      (random : l.Random) (cfg cfg' : Config l) (net net' : l.Net) (host : l.Host)
      → construct_with l random (cfg, net) ≡ (ok host, (cfg', net'))
      → IsIdentity random cfg cfg' net host net'
  construct_with-IsIdentity random cfg cfg' net net' host h =
      by_key (key_of l random cfg.peer_key) refl
    where
      by_id :
          (key : l.PrivKey)
          → key_of l random cfg.peer_key ≡ ok key
          → (r : Outcome PeerId) → l.id_of (l.get_public key) ≡ r
          → with_id l key r (record cfg { peer_key = some key }, net) ≡ (ok host, (cfg', net'))
          → IsIdentity random cfg cfg' net host net'
      by_id key e (ok pid) i run =
          let kept : record cfg { peer_key = some key } ≡ cfg' = ap (λ x. x.1.0) run in
          record {
            key = key;
            pid = pid;
            is_key = e;
            is_id = i;
            is_kept = sym kept;
            is_made = host_of-key cfg key pid net ∙ ap (λ x. (x.0, x.1.1)) run;
            again = λ later now.
                subst
                  (λ c.
                    construct_with l later (c, now)
                    ≡ ((host_of l cfg key pid now).0, (c, (host_of l cfg key pid now).1)))
                  kept (construct_with_again later cfg key pid now i);
          }
      by_id key e (err x) i run = absurd (cc run)
      by_id key e panic i run = absurd (cc run)

      by_key :
          (r : Outcome l.PrivKey)
          → key_of l random cfg.peer_key ≡ r
          → IsIdentity random cfg cfg' net host net'
      by_key (ok key) e =
          by_id key e (l.id_of (l.get_public key)) refl
            (sym (construct_with-key random cfg net (ok key) e) ∙ h)
      by_key (err x) e = absurd (cc (sym (construct_with-key random cfg net (err x) e) ∙ h))
      by_key panic e = absurd (cc (sym (construct_with-key random cfg net panic e) ∙ h))
