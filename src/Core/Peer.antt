-- ===== src/Core/Peer.antt =====
-- `HelloPeer` of core/protocol.go, and the notifiee that calls it for each new connection.
--
-- Opening a stream to a peer, and the JSON form of a message, are arguments. The state is what was
-- written to streams, the last first.
use toychain.Prelude.{List, ◌∷◌, Bytes}
use toychain.Outcome.{Outcome, ok, err, panic}
use toychain.Exec.{Exec}
use toychain.Platform.{Platform}
use toychain.Lookup.{PeerId}
use toychain.Chain.Manager.{Manager}
use toychain.Core.Node.{HelloMessage, hello}

module _ (p : Platform) (new_stream : PeerId → Outcome (Unit {0}))
    (encode : HelloMessage → Outcome Bytes) where
  abbrev pub written : PeerId → Outcome Bytes → Exec (List (PeerId × Bytes)) (Unit {0})
  written peer (ok data') sent = (ok tt, (peer, data') ∷ sent)
  written peer (err e) sent = (ok tt, sent)
  written peer panic sent = (panic, sent)

  abbrev pub opened :
      Manager p → PeerId → Outcome (Unit {0}) → Exec (List (PeerId × Bytes)) (Unit {0})
  opened m peer (ok u) sent = written peer (encode (hello p m)) sent
  opened m peer (err e) sent = (ok tt, sent)
  opened m peer panic sent = (panic, sent)

  -- `HelloPeer`: an error is only logged.
  unfoldable pub hello_peer : Manager p → PeerId → Exec (List (PeerId × Bytes)) (Unit {0})
  unfolding hello
  hello_peer m peer sent = opened m peer (new_stream peer) sent

  -- `Connected`, which starts `HelloPeer` in a goroutine of its own.
  abbrev pub connected : Manager p → PeerId → Exec (List (PeerId × Bytes)) (Unit {0})
  connected m peer sent = hello_peer m peer sent
