-- ===== src/Lib.antt =====
-- BagsVault: a privacy pool on Solana. This library models the backend's core, the Python package
-- backend/app, and proves what its parts promise.
--
-- A withdrawal is relayed by `WithdrawalService`: it looks for the nullifier among the stored rows, asks
-- `RelayerService` for a relayer, builds the on-chain instruction, has `TxExecutor` simulate, send and
-- confirm it through `SolanaSignerClient` and `SolanaRpcClient`, and stores a row. A deposit is built
-- unsigned for a wallet, confirmed and stored by `DepositService`, and read back from the chain by
-- `MerkleIndexer`. `ZkProofService` makes the proof of a withdrawal, for the path that the endpoint of
-- backend/app/routers/anonymity.py serves. `IdempotencyMiddleware` stands before all endpoints.
--
-- The files:
--   Base        Boolean tests, lists, texts, integers, hex, base64 and byte orders of Python
--   Json        what json.loads gives; Json.Int has `int` and `bytes` of such a value
--   Exceptions  backend/app/exceptions.py; an operation that may raise returns a `Result`
--   Mongo       a collection with a unique index: its operations are arguments with laws, and
--               Mongo.Table is an instance of them; Mongo.Upserts is one that documents are put into
--   Solana      backend/app/clients: Rpc (a call, and the methods in Rpc.Methods) and Classify
--               (errors), Executor (send, Broadcast, Confirm), Signer, Ws (solana_ws.py), and
--               Instruction and Keys for what solders gives
--   Withdraw    backend/app/services/withdrawal_service.py: the builders in Withdraw, `relay` in
--               Withdraw.Relay and Withdraw.Relay.Pipeline, `list_recent` in Withdraw.Recent
--   Zk          backend/app/services/zk_proof_service.py
--   Anonymity   backend/app/routers/anonymity.py
--   Deposits    backend/app/services/deposit_service.py; `register_in` takes the state of the collection
--               at each await, `register` is the run that nothing interrupts
--   DepositTx   backend/app/services/swap_to_deposit_service.py, and deposit_builder.py in
--               DepositTx.Builder and claim_to_deposit_service.py in DepositTx.Claim
--   Bags        backend/app/clients/bags_api.py and backend/app/services/bags_service.py
--   Compliance  backend/app/models/risk_scan.py, and compliance_service.py and range_risk.py in
--               Compliance.Service
--   VerifyingKey  backend/scripts/build_vk.py: the encoders, the Rust source in
--               VerifyingKey.Render, and the commands in VerifyingKey.Ceremony
--   PoolInit    backend/scripts/initialize_pool.py
--   Idempotency backend/app/middleware/idempotency.py
--   Indexer     backend/app/services/merkle_indexer.py, with the subscription in Indexer.Stream;
--               Indexer.Anchor has backend/app/clients/anchor_decoder.py, and Indexer.Account the
--               account of programs/bagsvault/src/state.rs
--   Tokens      backend/app/services/token_service.py
--   Worker      backend/app/services/indexer_worker.py: the polling loop, where `stop` is two steps
--               around its wait, and the WebSocket mode in Worker.Push
--   Auth        backend/app/auth.py: the two patterns are searches written out
--   Relayers    backend/app/services/relayer_service.py
--   Examples    concrete inputs
-- A file below another has the proofs about it, named for what they prove.
--
-- State is passed and returned: the collections, the signer's cursor, and the instructions and
-- payloads that were sent. The node, the clock and the signer answer the executor by the number of
-- the attempt or of the poll, and Bags by the number of the request in an operation. No row of a
-- collection expires. On fuel are the wait for a confirmation, for which two polls a second
-- and one more are enough, because a poll is followed by a sleep of half a second, and the digits of
-- a number, of which there are no more than its value and one. Addresses are 32 bytes, times are
-- seconds, and milliseconds in the executor and Tokens, microseconds in Auth. Texts are lists of code
-- points; `lower` is that of ASCII.
--
-- A WebSocket subscription is run over the list of the connections that it makes, each with what it
-- gives and how it ends, and a stream of roots over the list of the notifications that arrive.
-- Floats are an argument; a float of JSON stands as its text. `int` of a text reads ASCII digits.
--
-- Arguments, not modelled: solders (keys, compiling, signing), SHA-256 and Poseidon, base58, nacl,
-- ISO dates, the MongoDB driver, httpx and websockets, the nargo and bb tools, anchorpy, and
-- what Starlette makes of the headers of a response. Left out: an answer whose JSON is nested so deeply that
-- reading it raises, the details of an error, logging, configuration, the parameters of an RPC request, routers
-- that call one service, the other scripts, the on-chain program and the frontend.
pub mod Base
pub mod Json
pub mod Exceptions
pub mod Mongo
pub mod Solana
pub mod Withdraw
pub mod Zk
pub mod Anonymity
pub mod Deposits
pub mod Idempotency
pub mod Indexer
pub mod Relayers
pub mod DepositTx
pub mod Tokens
pub mod Worker
pub mod Auth
pub mod VerifyingKey
pub mod Compliance
pub mod Bags
pub mod PoolInit
pub mod Examples
