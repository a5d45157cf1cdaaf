-- ===== src/Types/Codec.antt =====
-- `Marshal`, `Unmarshal` and `Cid` of a transaction and `DecodeBlock`, of types/types.go.
--
-- What the CBOR library does with the list that a transaction's transform makes, with a block, and
-- what Cid it gives to an object, is a parameter. Commands/Laws/Wallet has this codec between the
-- sender of a transaction and its receiver; elsewhere these calls are the node's codec and the
-- platform's `wrap_tx`.
use toychain.Prelude.{◌≡◌, refl, ◌∙◌, ap, Option, List, map, Bytes}
use toychain.Outcome.{Outcome, ok, err, panic, ◌>>=◌}
use toychain.Types.Value.{Value, Cid}
use toychain.Types.Transaction.{
  Transaction, Signature, Field, to_fields, from_fields, carried, received, IsWire,
  from_fields-to_fields,
}
use toychain.Types.Block.{Block}

pub record Cbor : Type 0 where
  -- `DumpObject`, `DecodeInto` and the Cid of `WrapObject`, of the list that stands for a transaction
  pub dump : List Field → Outcome Bytes
  pub decode : Bytes → Outcome (List Field)
  pub wrap : List Field → Outcome Cid
  -- `DecodeInto` of a block
  pub decode_into_block : Bytes → Outcome Block

module _ (cbor : Cbor) where
  -- `Transaction.Marshal`
  unfoldable pub marshal : Transaction → Outcome Bytes
  unfolding to_fields
  marshal tx = cbor.dump (to_fields tx)

  -- `Transaction.Unmarshal`
  unfoldable pub unmarshal : Bytes → Outcome Transaction
  unfolding from_fields
  unmarshal b = cbor.decode b >>= from_fields

  -- `Transaction.Cid`
  unfoldable pub tx_cid : Transaction → Outcome Cid
  unfolding to_fields
  tx_cid tx = cbor.wrap (to_fields tx)

  -- `DecodeBlock`
  unfoldable pub decode_block : Bytes → Outcome Block
  decode_block b = elim (cbor.decode_into_block b) [
    | ok out ↦ ok out
    | err e ↦ err e
    | panic ↦ panic
  ]

  -- The Cid of a transaction does not depend on its signature.
  pub tx_cid_unsigned :
      (tx : Transaction) (s : Option Signature) → tx_cid (record tx { signature = s }) ≡ tx_cid tx
  unfolding tx_cid to_fields
  tx_cid_unsigned tx s = refl

  -- A codec that decodes what it dumped, up to what it makes of the single values, gives back what is
  -- received of a transaction.
  pub unmarshal-marshal :
      (wire : Value → Value)
      → IsWire wire
      → ((fs : List Field) (b : Bytes)
          → cbor.dump fs ≡ ok b
          → cbor.decode b ≡ ok (map (carried wire) fs))
      → (tx : Transaction) (b : Bytes) → marshal tx ≡ ok b
      → unmarshal b ≡ ok (received wire tx)
  unfolding marshal unmarshal
  unmarshal-marshal wire laws codec tx b h =
      ap (λ r. r >>= from_fields) (codec (to_fields tx) b h) ∙ from_fields-to_fields wire laws tx
