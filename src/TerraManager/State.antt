-- ===== src/TerraManager/State.antt =====
-- terra_manager/src/state.rs: the contract's storage. A map is a function; an item not yet saved is
-- `none`.
use position_managers.Prelude.{
  ℕ, Bool, true, false, Option, none, some, [], ◌∷◌, ◌==◌, ◌&&◌, if◌then◌else◌, str_eq,
}
use position_managers.Cosmwasm.{Addr, Bytes}
use position_managers.Common.{StrategyMetadata, StrategyLocation, PositionKey, key_eq}

pub record CrossChainOutgoingFeeConfig : Type 0 where
  pub rate : ℕ
  pub fee_collector_addr : Addr

pub record State : Type 0 where
  pub admin : Option Addr
  pub wormhole_token_bridge_addr : Option Addr
  pub wormhole_core_bridge_addr : Option Addr
  pub next_strategy_id : Option ℕ
  pub strategy_id_to_metadata_map : ℕ → Option StrategyMetadata
  pub next_position_id : Option ℕ
  pub position_to_strategy_location_map : PositionKey → Option StrategyLocation
  pub position_id_to_holder : ℕ → Option Addr
  pub holder_position_id_pair_set : Addr → ℕ → Bool
  pub cross_chain_outgoing_fee_config : Option CrossChainOutgoingFeeConfig
  pub chain_id_to_aperture_manager_address_map : ℕ → Option Bytes
  pub completed_instructions : Bytes → Option Bool

-- Before `instantiate`.
abbrev pub no_state : State
no_state = record {
  admin = none;
  wormhole_token_bridge_addr = none;
  wormhole_core_bridge_addr = none;
  next_strategy_id = none;
  strategy_id_to_metadata_map = λ k. none;
  next_position_id = none;
  position_to_strategy_location_map = λ k. none;
  position_id_to_holder = λ k. none;
  holder_position_id_pair_set = λ a k. false;
  cross_chain_outgoing_fee_config = none;
  chain_id_to_aperture_manager_address_map = λ k. none;
  completed_instructions = λ k. none;
}

-- `Map::save` and `Map::remove` for each kind of key.
abbrev pub save {ℓ} : {V : Type ℓ} → ℕ → V → (ℕ → Option V) → ℕ → Option V
save k v m j = if k == j then some v else m j

abbrev pub remove {ℓ} : {V : Type ℓ} → ℕ → (ℕ → Option V) → ℕ → Option V
remove k m j = if k == j then none else m j

abbrev pub save_position {ℓ} :
    {V : Type ℓ} → PositionKey → V → (PositionKey → Option V) → PositionKey → Option V
save_position k v m j = if key_eq k j then some v else m j

abbrev pub save_pair : Addr → ℕ → (Addr → ℕ → Bool) → Addr → ℕ → Bool
save_pair a k m b j = if str_eq a b && k == j then true else m b j

abbrev pub bytes_eq : Bytes → Bytes → Bool
bytes_eq [] [] = true
bytes_eq (x ∷ xs) (y ∷ ys) = x == y && bytes_eq xs ys
bytes_eq xs ys = false

abbrev pub save_bytes {ℓ} : {V : Type ℓ} → Bytes → V → (Bytes → Option V) → Bytes → Option V
save_bytes k v m j = if bytes_eq k j then some v else m j
