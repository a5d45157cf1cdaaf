-- ===== src/Commands/Reply.antt =====
-- The text forms of the replies, from the encoders of commands/all_commands_fixme.go, and `IdCmd`.
--
-- A text is what is written to a writer that takes all of it. The text of a number and of a Cid,
-- `strings.Replace` and the indented JSON form are arguments.
use toychain.Prelude.{Option, none, some, List, [], ◌∷◌, ◌++◌, map, Bytes}
use toychain.Prelude.Int.{ℤ}
use toychain.Outcome.{Outcome, ok, err, panic}
use toychain.Types.Address.{Address, to_text}
use toychain.Lookup.{PeerId}
use toychain.Commands.Swarm.{ConnectResult}

-- `Fprintln` of a text.
abbrev pub line : Bytes → Bytes
line text = text ++ 10 ∷ []

-- A loop that prints one line for each element.
abbrev pub lines_of : {A : Type 0} → (A → Bytes) → List A → Bytes
lines_of text [] = []
lines_of text (x ∷ xs) = line (text x) ++ lines_of text xs

-- The encoder of `AddrsNewCmd`.
unfoldable pub address_line : Address → Bytes
unfolding to_text
address_line a = line (to_text a)

-- The encoder of `AddrsListCmd`.
unfoldable pub address_lines : List Address → Bytes
unfolding to_text
address_lines addrs = lines_of to_text addrs

-- The encoder of `WalletGetBalanceCmd`.
unfoldable pub balance_line : (ℤ → Bytes) → ℤ → Bytes
balance_line number_text n = line (number_text n)

-- The bytes of "connect " and " success".
abbrev pub connect_word : Bytes
connect_word = b'c' ∷ b'o' ∷ b'n' ∷ b'n' ∷ b'e' ∷ b'c' ∷ b't' ∷ 32 ∷ []

abbrev pub success_word : Bytes
success_word = 32 ∷ b's' ∷ b'u' ∷ b'c' ∷ b'c' ∷ b'e' ∷ b's' ∷ b's' ∷ []

-- The encoder of `swarmConnectCmd`; it does not look at `Success`.
unfoldable pub connect_lines : List ConnectResult → Bytes
connect_lines res = lines_of (λ (a : ConnectResult). connect_word ++ a.peer ++ success_word) res

-- `idOutput`
pub record IdOutput : Type 0 where
  pub addresses : List Bytes
  pub id : Bytes
  pub agent_version : Bytes
  pub protocol_version : Bytes
  pub public_key : Bytes

-- `IdCmd`, on a host with the addresses `addrs`; the other fields keep their zero values.
unfoldable pub id_command :
    {A : Type 0} → (A → Bytes) → (PeerId → Bytes) → List A → PeerId → IdOutput
id_command text pretty addrs self = record {
  addresses = map text addrs;
  id = pretty self;
  agent_version = [];
  protocol_version = [];
  public_key = [];
}

-- `strings.Join` with a line feed.
abbrev pub joined : List Bytes → Bytes
joined [] = []
joined (x ∷ []) = x
joined (x ∷ y ∷ l) = x ++ 10 ∷ joined (y ∷ l)

-- The bytes of "<id>", "<aver>", "<pver>", "<pubkey>", "<addrs>", "\n" and "\t".
abbrev pub id_mark : Bytes
id_mark = b'<' ∷ b'i' ∷ b'd' ∷ b'>' ∷ []

abbrev pub agent_mark : Bytes
agent_mark = b'<' ∷ b'a' ∷ b'v' ∷ b'e' ∷ b'r' ∷ b'>' ∷ []

abbrev pub protocol_mark : Bytes
protocol_mark = b'<' ∷ b'p' ∷ b'v' ∷ b'e' ∷ b'r' ∷ b'>' ∷ []

abbrev pub key_mark : Bytes
key_mark = b'<' ∷ b'p' ∷ b'u' ∷ b'b' ∷ b'k' ∷ b'e' ∷ b'y' ∷ b'>' ∷ []

abbrev pub addrs_mark : Bytes
addrs_mark = b'<' ∷ b'a' ∷ b'd' ∷ b'd' ∷ b'r' ∷ b's' ∷ b'>' ∷ []

abbrev pub feed_mark : Bytes
feed_mark = 92 ∷ b'n' ∷ []

abbrev pub tab_mark : Bytes
tab_mark = 92 ∷ b't' ∷ []

module _ (replace : Bytes → Bytes → Bytes → Bytes) where
  -- The replacements in a format, in the source's order.
  unfoldable pub formatted : Bytes → IdOutput → Bytes
  formatted format val =
      let output = replace format id_mark val.id in
      let output = replace output agent_mark val.agent_version in
      let output = replace output protocol_mark val.protocol_version in
      let output = replace output key_mark val.public_key in
      let output = replace output addrs_mark (joined val.addresses) in
      let output = replace output feed_mark (10 ∷ []) in replace output tab_mark (9 ∷ [])

  -- The encoder of `IdCmd`.
  unfoldable pub id_text : (IdOutput → Outcome Bytes) → Option Bytes → IdOutput → Outcome Bytes
  unfolding formatted
  id_text marshal_indent (some format) val = ok (line (formatted format val))
  id_text marshal_indent none val = elim (marshal_indent val) [
    | ok marshaled ↦ ok (marshaled ++ 10 ∷ [])
    | err e ↦ err e
    | panic ↦ panic
  ]
