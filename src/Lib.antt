-- ===== src/Lib.antt =====
-- Verification of the Aperture position managers on Terra (terra_contracts/).
--
-- The program. Users hold positions that belong to strategies. `terra_manager` is the contract that
-- users call: it keeps the registry of strategies, numbers positions, remembers their holders, and
-- passes the users' actions and assets to the manager contract of the strategy. It also speaks to
-- Aperture managers on other chains over Wormhole: it processes the instructions that arrive from
-- them, and sends instructions with a token transfer out. `anchor_earn_proxy` is a strategy manager
-- that keeps deposits in Anchor Earn. `delta_neutral_position_manager` is
-- a strategy manager that keeps a contract for each position, `delta_neutral_position`. That contract
-- opens a short position on Mirror and holds as much of the asset; a controller asks it from time to
-- time to rebalance and reinvest. It works through messages to itself, so that each of its steps sees
-- the balances that the step before it has left.
--
-- The files, and the code that each models (paths below terra_contracts/):
--   Prelude, Prelude/Tests, Prelude/Lists   the shared names, Boolean tests and list lemmas
--   Cosmwasm             the vocabulary of cosmwasm_std: StdResult, Addr, Uint128, Env, MessageInfo
--   Common               packages/aperture_common/src/common.rs
--   ByteUtil             packages/aperture_common/src/byte_util.rs; ByteUtil/RoundTrip is about
--                        readers and writers together
--   Instruction          packages/aperture_common/src/instruction.rs: `serialize` and
--                        `deserialize`; Instruction/RoundTrip and Instruction/Layout are about
--                        both together and about the bytes
--   Message              the messages that the contracts send to others
--   Wormhole             packages/aperture_common/src/wormhole.rs
--   Host                 what the contracts ask of the chain and of other libraries
--   TokenUtil            packages/aperture_common/src/token_util.rs; TokenUtil/Transfers is
--                        about what is taken in and passed on
--   TerraManager/State       contracts/terra_manager/src/state.rs
--   TerraManager/TerraChain  contracts/terra_manager/src/terra_chain.rs
--   TerraManager/CrossChain  contracts/terra_manager/src/cross_chain.rs
--   TerraManager/Contract    contracts/terra_manager/src/contract.rs
--   TerraManager/Queries     the queries of contract.rs
--   TerraManager/Effects, Settings, Access, Positions, Replay, Fees, Arrivals
--                        lemmas and theorems: what each handler leaves alone, who may change
--                        settings, who may act on positions, the bookkeeping of positions,
--                        repeated instructions, fees, and what is checked of arrivals
--   AnchorEarnProxy      contracts/anchor_earn_proxy/src/contract.rs and state.rs, with the
--                        query of packages/aperture_common/src/anchor_util.rs (Anchor);
--                        AnchorEarnProxy/Balances, Access and Payout are about
--                        balances, permissions and what closing pays
--   DeltaNeutralManager/State, Settings, Contract
--                        contracts/delta_neutral_position_manager/src/state.rs and contract.rs
--   DeltaNeutralManager/Rebalance
--                        the query by which the controller decides whether to rebalance, in the same
--                        contract.rs, with packages/aperture_common/src/mirror_util.rs
--   DeltaNeutralManager/Queries   the other queries
--   DeltaNeutralManager/Opening, Access, Decision (Tests, Judging)
--                        theorems about these
--   Dex                  contracts/delta_neutral_position/src/dex_util.rs: the search for the least
--                        offer of a swap; Dex/Search and Dex/Offer are about what it finds
--   Chain                what a position's contract asks of the chain and of other contracts
--   DeltaNeutralPosition contracts/delta_neutral_position/src, with child modules Math (math.rs),
--                        State (state.rs), Dex (the rest of dex_util.rs), Spectrum
--                        (spectrum_util.rs), Util and Info (util.rs), Open (open.rs), Rebalance with
--                        Unbonding, NetLong and NetShort (rebalance.rs), and of contract.rs: Opening,
--                        Closing, Safety (collateral ratios), Liquidity, Reinvest (what the
--                        controller sets off) and Contract (the entry points)
--   DeltaNeutralPosition/Search
--                        the two binary searches over Uint128 of open.rs and rebalance.rs;
--                        Search/Scan compares one with a scan
--   DeltaNeutralPosition/Lifecycle
--                        the abstract life of a position: Changes and Handlers say what each handler
--                        does to the storage, Phases what that is in the life of the position,
--                        Reachable, Access, Delayed and Closure what follows from it
--   DeltaNeutralPosition/Spending, Investing, Largest, Payments, Fees, Restoring (Long, Short),
--   Targets
--                        theorems about the uusd that is sent, the fee, rebalancing, and targets
--   Examples             runs of the code, where the theorems are applied; Examples/Pools runs the
--                        tests that the source has in open.rs and rebalance.rs
--
-- How the model corresponds to the code. A handler is a function of the storage, the environment
-- and the message, to a `Result` of the response and the new storage. The storage is a record with
-- a field for each `Item` and a function for each `Map`; an error or a panic leaves no storage,
-- because the chain reverts the call. A response is the list of messages that it sends, each with
-- its payload as the value that the source serialises. Numbers are natural numbers; where the
-- source's additions and subtractions can overflow, the definitions write out the check, and a
-- `Decimal` is the number of its 10^-18 units. Attributes of responses are left out.
--
-- Parameters, as fields of the records `Host`, `Codec`, `Anchor`, `Codes`, `Mirror`,
-- `Decimal256`, `Chain`, `Ranges` and `Directory`: base 64, JSON and protobuf, the address
-- conversions of the chain's API, cw_controllers' `Admin`, the queries to other contracts,
-- ordered ranges of a storage map and the order of a hash set, terraswap's check of sent coins,
-- and the arithmetic of `Decimal`, cosmwasm_bignumber and `Decimal256`. Where a theorem relies
-- on their documented behaviour, it takes it as a named hypothesis (`AdminLaws`, `Base64Laws`,
-- `BignumLaws`, `Decimal256Laws`, `ChainLaws`, `RangesLaws`), and its example shows one for
-- which it holds.
--
-- Loops over lists are structural recursion. The binary search of Dex takes the number of its
-- rounds: 128, which is enough because each halves a range of 2^128 numbers; so do the searches
-- of a position's contract. The loop of util.rs that raises an amount of LP tokens one by one is
-- given 2^128 rounds, as many as a Uint128 can be raised. Where the source repeats an operation
-- as often as a byte says, the count is the argument of the recursion.
--
-- Not modelled: the Solana programs and the Solidity contracts, which run on other chains;
-- deployment scripts and the tests; packages/mirror_protocol and packages/spectrum_protocol are
-- copies of other projects' libraries. The balances that other contracts leave between two
-- messages are whatever the chain answers: the contracts that are called are not modelled, so
-- nothing is said of what they do with the messages.
pub mod Prelude
pub mod Cosmwasm
pub mod Common
pub mod ByteUtil
pub mod Instruction
pub mod Message
pub mod Wormhole
pub mod Host
pub mod TokenUtil
pub mod TerraManager
pub mod Anchor
pub mod AnchorEarnProxy
pub mod DeltaNeutralManager
pub mod Dex
pub mod Chain
pub mod DeltaNeutralPosition
pub mod Examples
