-- ===== src/Commands/Dag.antt =====
-- `BitswapWantlistCmd` and `DagGetCmd` of commands/all_commands_fixme.go.
--
-- The exchange's list of wanted Cids, the parser of paths and the resolver are arguments.
use toychain.Prelude.{◌≡◌, refl, Option, List, Bytes}
use toychain.Outcome
use toychain.Outcome.{Outcome, ok, err, Message, message}
use toychain.Types.Value.{Cid}
use toychain.Commands.Reply.{lines_of}

-- A reply as the encoder gets it: a slice of Cid pointers, which the command emits and declares as its
-- type, or a pointer to a slice of Cids, which the encoder asks for.
pub data WantReply : Type 0 where
  cid_pointers : List (Option Cid) → WantReply
  pointer_to_cids : List Cid → WantReply

-- `BitswapWantlistCmd`, where the exchange wants `wants`.
abbrev pub bitswap_wantlist : List (Option Cid) → WantReply
bitswap_wantlist wants = cid_pointers wants

-- The encoder of `BitswapWantlistCmd`.
unfoldable pub want_text : (Cid → Bytes) → WantReply → Outcome Bytes
want_text cid_text (pointer_to_cids wants) = ok (lines_of cid_text wants)
want_text cid_text (cid_pointers wants) = err (message Message.unexpected_reply)

-- The command's own reply has no text form.
pub bitswap_wantlist_untold :
    (cid_text : Cid → Bytes) (wants : List (Option Cid))
    → want_text cid_text (bitswap_wantlist wants) ≡ err (message Message.unexpected_reply)
unfolding want_text
bitswap_wantlist_untold cid_text wants = refl

-- `DagGetCmd`
unfoldable pub dag_get :
    {Ref Node : Type 0} → (Bytes → Outcome Ref) → (Ref → Outcome Node) → Bytes → Outcome Node
dag_get parse_path resolve_path object = Outcome.◌>>=◌ (parse_path object) resolve_path
