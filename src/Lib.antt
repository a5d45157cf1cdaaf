-- ===== src/Lib.antt =====
-- Toychain, a small blockchain node in Go, modelled from its source.
--
-- The parts, and the files that model them:
--
-- * The token contract, contract/contract.go. Contract/Cast has `addressCast`, `numberCast` and
--   `castToAddress`; Contract/Token has `transfer` (`transfer`, with its parts `ensure_actor` and
--   `move`) and `getBalance`; Contract/Call has `Call` and the closures over a method's types.
-- * The contract's state, contract/state.go. Contract/World has `State`, `CallContext` and the
--   accessors of actors and of a contract's memory; Contract/Execute has `ActorExec`, `ActorCall`,
--   `ApplyTransactions` and `Flush`. `ActorExec` is cut into `actor_exec`, `get_sender`,
--   `check_nonce`, `run_contract`, `call_contract`, `finish` and `store_call`, in the source's order.
--   Where a transaction's two addresses are equal the source holds one actor object twice: `bumped`
--   is what the receiver's side of it shows after the increment of the nonce.
-- * The state manager, state/state_manager.go. Chain/Manager has `StateManager` and
--   `acceptNewBlock`; Chain/Validate has `validateBlock`; Chain/Process has `ProcessNewBlock`,
--   `Inform` and `InformTx`; Chain/Notify has `BlockNotifications`. Chain/Valid is the specification of
--   a valid block.
-- * The miner, state/miner.go: Chain/Miner has `getNextBlock` and one round of `Run`.
-- * The data, types/types.go and types/transaction_pool.go: Types/Address, Types/Block,
--   Types/Transaction, Types/Codec, Types/Pool; Types/TxMap is the map that a pool is, as a quotient;
--   Types/Value has the Go values that an `interface{}` holds, and Types/Hex and Types/Decimal the
--   forms of Go's standard library.
-- * The node, core/genesis.go, core/node.go and core/protocol.go. Core/Genesis has
--   `CreateGenesisBlock`; Core/Boot has `NewToychainNode`; Core/Node has `SendNewBlock` and the hello
--   protocol; Core/Peer has `HelloPeer`; Core/Send has `SendNewTransaction` and
--   `SendNewTransactionAndWait`; Core/System is the running node, whose subscription loops, miner and
--   hello handler are the events of a step relation.
-- * The commands, commands/all_commands_fixme.go and commands/lock.go: Commands/Wallet,
--   Commands/Addrs, Commands/Swarm, Commands/Lock and Commands/Daemon, each with the Run functions of
--   its commands; Commands/Dag has `bitswap wantlist` and `dag get`; Commands/Reply has the text forms
--   of the replies and `id`; and main.go: Commands/Entry.
-- * The lookup service, lookup/lookup.go: Lookup.
-- * The host of the network, libp2p/libp2p.go: Network.
--
-- The miner builds a block out of the pool and the manager's store and gives it to the node, which
-- hands it to the manager as it does with blocks of others; the manager executes the block's
-- transactions by the contract's state, and clears them from the pool.
--
-- A call returns an `Outcome`, which is a value, an error or a panic, beside the state that it leaves,
-- since what was written stays written when an error comes back (Outcome, Exec). Pointers that may be
-- nil are options. A uint64 is a natural number, and its increments are taken modulo 2^64; a big
-- integer is an integer, and `Bytes` loses its sign (BigInt).
--
-- The HAMT library and its store, go-cid, the CBOR codec, the JSON form of an actor and the DAG service
-- are a parameter, `Platform`; what the proofs use of them is in Platform/Laws, and Examples/Toy has a
-- concrete one, and Examples/Plain one whose Cids name the states of blocks. What the CBOR library does
-- with a transaction that goes to other nodes is the parameter `Cbor` of Types/Codec, and Examples/Wire
-- has a concrete one. The order in which Go runs through the pool's map is a parameter of the miner;
-- base58 and the printing of a peer are parameters of the lookup service; the file system is a
-- parameter of the lock file, the network of the daemon, and libp2p, with what it keeps behind its
-- pointers, of Network.
--
-- Loops are structural, but for the walk of `validateBlock` down the chain, to which the source sets
-- no limit. It takes fuel and returns none without it; Chain/Laws/Walk is about how much is enough.
--
-- Goroutines take turns: each event of Core/System runs to its end before the next one. A sender on
-- the channel of the miner waits in a list. The source lets the loops run at the same time without a
-- lock on the manager, and a race between them is not modelled.
--
-- Not modelled: seal/, which nothing calls and which does not compile; the tables of options and help
-- texts of the commands; streams; times and time-outs; printing and the log.
pub mod Prelude
pub mod Outcome
pub mod Exec
pub mod BigInt
pub mod Types
pub mod Platform
pub mod Contract
pub mod Chain
pub mod Lookup
pub mod Core
pub mod Commands
pub mod Examples
pub mod Network
