-- ===== src/Examples/Terra.antt =====
-- Runs of the Terra manager: positions, strategies and settings.
use position_managers.Prelude.{
  ℕ, Bool, true, inl, inr, ◌≤◌, Bool-cases, ◌≡◌, ◌⊎◌, refl, false, Option, none, some, List, [],
  ◌∷◌, arith, eq_iff, All,
}
use position_managers.Cosmwasm.{Addr, Result, ok, err, panic, generic_err}
use position_managers.Common.{Asset, native_token, token, Strategy, StrategyLocation, Position}
use position_managers.Message.{CosmosMsg, Response, plain_messages}
use position_managers.Instruction.{
  is_open_position, serialize, deserialize, strategy_bytes, data_bytes,
}
use position_managers.ByteUtil.{
  to_be_bytes, from_be_bytes, split_at, get_u16, get_u256, get_bytes32, get_address,
  extend_terra_address_to_32, get_u8,
}
use position_managers.Host.{AdminLaws}
use position_managers.Wormhole.{deserialize_transfer_info, deserialize_token_bridge_message}
use position_managers.TokenUtil.{forward_assets_direct, validate_and_accept_incoming_asset_transfer}
use position_managers.TerraManager.State.{State, no_state, save}
use position_managers.TerraManager.TerraChain.{
  create_position, execute_strategy, create_execute_strategy_messages, add_strategy,
  remove_strategy,
}
use position_managers.TerraManager.CrossChain.{
  process_cross_chain_instruction, process_token_transfer_message, transfer_to_chain,
  get_parsed_vaa, fulfil_instruction, parse_token_transfer_asset,
}
use position_managers.TerraManager.Contract.{
  InstantiateMsg, instantiate, create_position_msg, remove_strategy_msg, execute,
}
use position_managers.TerraManager.Positions.{
  IsConsistent, execute-IsConsistent, instantiate-IsConsistent,
}
use position_managers.TerraManager.Queries.{
  Ranges, get_terra_positions_by_holder, page_size, Listed, get_terra_positions_by_holder-Listed,
}
use position_managers.TerraManager.Access.{
  GoesToManager, execute_strategy_lem, SameSettings, execute-SameSettings,
}
use position_managers.Examples.Data.{host, env, from, closing, asserted, updated}

-- What the runs compute with.
program : Unit {0}
unfolding execute process_cross_chain_instruction create_position execute_strategy
    create_execute_strategy_messages forward_assets_direct
    validate_and_accept_incoming_asset_transfer instantiate deserialize to_be_bytes from_be_bytes
    process_token_transfer_message parse_token_transfer_asset deserialize_transfer_info
    deserialize_token_bridge_message get_u16 get_u256 get_bytes32 get_address
    extend_terra_address_to_32 get_u8 transfer_to_chain add_strategy split_at get_parsed_vaa
    fulfil_instruction strategy_bytes data_bytes remove_strategy serialize
program = tt

-- The outcome of a run that succeeds.
abbrev pub outcome {ℓ} : {A : Type ℓ} → A → Result A → A
outcome d (ok a) = a
outcome d (err e) = d
outcome d panic = d

-- One strategy, kept by "strategies", and a manager registered for chain 2.
abbrev pub start : State
start = record no_state {
  admin = some "admin";
  wormhole_token_bridge_addr = some "bridge";
  wormhole_core_bridge_addr = some "core";
  next_strategy_id = some 1;
  strategy_id_to_metadata_map =
      save 0 (record { name = "DN"; version = "v0"; manager_addr = "strategies" }) (λ k. none);
  next_position_id = some 0;
  cross_chain_outgoing_fee_config =
      some (record { rate = 1_000_000_000_000_000; fee_collector_addr = "collector" });
  chain_id_to_aperture_manager_address_map = save 2 (to_be_bytes 32 99) (λ k. none);
}

abbrev pub assets : List Asset
assets =
    record { info = native_token "uusd"; amount = 600 }
    ∷ record { info = token "cw20"; amount = 200 }
    ∷ []

abbrev dn : Strategy
dn = record { chain_id = 3; strategy_id = 0 }

abbrev create_run : Result (Response × State)
create_run = execute host start env (from "alice") (create_position_msg dn none assets)

abbrev after_create : Response × State
after_create = outcome ([], start) create_run

create_run_ok : create_run ≡ ok after_create
unfolding program
create_run_ok = refl

-- Alice holds position 0; the coins and the cw20 tokens go to the strategy's manager.
create_run_holder : after_create.1.position_id_to_holder 0 ≡ some "alice"
unfolding program
create_run_holder = refl

abbrev settings : InstantiateMsg
settings = record {
  admin_addr = "admin";
  wormhole_core_bridge_addr = "core";
  wormhole_token_bridge_addr = "bridge";
  cross_chain_outgoing_fee_rate = 0;
  cross_chain_outgoing_fee_collector_addr = "collector";
}

abbrev instantiated : Response × State
instantiated = outcome ([], no_state) (instantiate host settings)

instantiate-IsConsistent_example : IsConsistent instantiated.1 0
unfolding program
instantiate-IsConsistent_example =
    instantiate-IsConsistent host settings instantiated.0 instantiated.1 refl

start-IsConsistent : IsConsistent start 0
start-IsConsistent = record {
  next_is = refl;
  unassigned = λ id below. refl;
  assigned = λ id below. absurd (omega arith);
  mapped = λ id below. absurd (omega arith);
  indexed = λ a id. (λ x. cc, λ x. cc);
}

execute-IsConsistent_example : IsConsistent after_create.1 1
execute-IsConsistent_example =
    execute-IsConsistent host start env (from "alice") (create_position_msg dn none assets)
      after_create.0 after_create.1 0 start-IsConsistent create_run_ok

-- Positions are looked for up to the id 0.
abbrev only_first : Bool → List ℕ
only_first true = 0 ∷ []
only_first false = []

abbrev ranges : Ranges
ranges = record { ascending = λ set start_after. only_first (set 0) }

first-member : (set : ℕ → Bool) → All (λ id. set id ≡ true) (only_first (set 0))
first-member set = elim (Bool-cases (set 0)) [
  | inl there ↦ rw there ((there, tt))
  | inr absent ↦ rw absent tt
]

get_terra_positions_by_holder-Listed_example :
    (answer : List ℕ × List StrategyLocation) × (get_terra_positions_by_holder host ranges
        after_create.1 "alice" none none
      ≡ ok answer)
    × (page_size none ≤ 30)
    × Listed after_create.1 "alice"
        (page_size none)
        (ranges.ascending (after_create.1.holder_position_id_pair_set "alice") none)
        answer
get_terra_positions_by_holder-Listed_example =
    get_terra_positions_by_holder-Listed host ranges after_create.1 1 "alice" none none "alice"
      (record { members = λ set start_after. first-member set })
      (execute-IsConsistent host start env (from "alice") (create_position_msg dn none assets)
        after_create.0 after_create.1 0 start-IsConsistent create_run_ok)
      refl

abbrev position_0 : Position
position_0 = record { chain_id = 3; position_id = 0 }

abbrev closed : Response
closed = outcome [] (execute_strategy host after_create.1 env (from "alice") 0 closing [])

closed_ok : execute_strategy host after_create.1 env (from "alice") 0 closing [] ≡ ok closed
unfolding program
closed_ok = refl

-- Alice may close her position, Bob may not.
execute_strategy_example :
    (after_create.1.position_id_to_holder 0 ≡ some "alice")
    × (is_open_position closing ≡ false)
    × (msgs : List CosmosMsg) × GoesToManager after_create.1 position_0 closing [] msgs
    × (closed ≡ plain_messages msgs)
execute_strategy_example =
    execute_strategy_lem host after_create.1 env (from "alice") 0 closing [] closed closed_ok

bob_unauthorized :
    execute_strategy host after_create.1 env (from "bob") 0 closing []
    ≡ err (generic_err "unauthorized")
unfolding program
bob_unauthorized = refl

asserted-only_admin :
    (admin : Option Addr) (sender : Addr) → asserted admin sender ≡ ok tt → admin ≡ some sender
asserted-only_admin none sender e = cc
asserted-only_admin (some a) sender e = ground (arith, eq_iff a sender)

updated-only_admin :
    (admin : Option Addr) (sender : Addr) (new stored : Option Addr)
    → updated admin sender new ≡ ok stored
    → (admin ≡ some sender) × (stored ≡ new)
updated-only_admin none sender new stored e = cc
updated-only_admin (some a) sender new stored e = ground (arith, eq_iff a sender)

host-AdminLaws : AdminLaws host
host-AdminLaws = record { asserts = asserted-only_admin; updates = updated-only_admin }

abbrev removed : Response × State
removed = outcome ([], start) (execute host start env (from "admin") (remove_strategy_msg 0))

execute-SameSettings_example :
    (◌≡◌ {A = Option Addr} (some "admin") (some "admin")) ⊎ SameSettings start removed.1
unfolding program
execute-SameSettings_example =
    execute-SameSettings host start env (from "admin") (remove_strategy_msg 0) removed.0 removed.1
      host-AdminLaws refl
