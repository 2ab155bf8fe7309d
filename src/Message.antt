-- ===== src/Message.antt =====
-- The messages that the contracts send. The payload of a message is kept as the value that the
-- source serialises with `to_binary`; gas limits are never set.
use position_managers.Prelude.{ℕ, String, Bool, Option, List, map}
use position_managers.Cosmwasm.{Addr, Bytes, Coin}
use position_managers.Common.{AssetInfo, Asset, Position, Action, Recipient}

-- The `Cw20HookMsg` of Anchor's market, of a Terraswap or Astroport pair, of Mirror's mint and of
-- Spectrum's farm. Spreads and belief prices are never set.
pub data Hook : Type 0 where
  redeem_stable swap withdraw_liquidity : Hook
  mint_open_position : AssetInfo → ℕ → Hook
  mint_deposit : ℕ → Hook
  mint_burn : ℕ → Hook
  farm_bond : Addr → ℕ → Hook

-- `InternalExecuteMsg` of delta_neutral_position.rs
pub data InternalExecuteMsg : Type 0 where
  achieve_safe_collateral_ratio : InternalExecuteMsg
  close_cdp_and_disburse : Recipient → InternalExecuteMsg
  close_cdp_and_deposit : InternalExecuteMsg
  deposit_uusd_balance : InternalExecuteMsg
  withdraw_collateral_and_redeem : ℕ → InternalExecuteMsg
  send_uusd : ℕ → Recipient → InternalExecuteMsg
  pair_uusd_with_mirror_asset : InternalExecuteMsg
  delta_neutral_reinvest : ℕ → InternalExecuteMsg
  sanity_check : InternalExecuteMsg

-- `DeltaNeutralParams` of delta_neutral_position_manager.rs
pub record DeltaNeutralParams : Type 0 where
  pub target_min_collateral_ratio : ℕ
  pub target_max_collateral_ratio : ℕ
  pub mirror_asset_cw20_addr : String
  pub allow_off_market_position_open : Option Bool

pub data ExecuteMsg : Type 0 where
  cw20_transfer : Addr → ℕ → ExecuteMsg
  cw20_transfer_from : Addr → Addr → ℕ → ExecuteMsg
  cw20_increase_allowance : Addr → ℕ → ExecuteMsg
  cw20_send : Addr → ℕ → Hook → ExecuteMsg
  deposit_stable : ExecuteMsg
  post_message : Bytes → ℕ → ExecuteMsg
  deposit_tokens : ExecuteMsg
  initiate_transfer : Asset → ℕ → Bytes → ℕ → ℕ → ExecuteMsg
  submit_vaa : Bytes → ExecuteMsg
  perform_action : Position → Action → List Asset → ExecuteMsg
  initiate_outgoing_token_transfer : List Asset → Recipient → ExecuteMsg
  send_open_position_to_position_contract : Position → DeltaNeutralParams → ℕ → ExecuteMsg
  position_open : DeltaNeutralParams → ExecuteMsg
  position_close : Recipient → ExecuteMsg
  position_internal : InternalExecuteMsg → ExecuteMsg
  mint_withdraw : ℕ → Asset → ExecuteMsg
  mint_mint : ℕ → Asset → ExecuteMsg
  unlock_position_funds : List ℕ → ExecuteMsg
  staking_withdraw : ExecuteMsg
  gov_mint : ExecuteMsg
  farm_withdraw : ExecuteMsg
  farm_unbond : Addr → ℕ → ExecuteMsg
  pair_provide_liquidity : Asset → Asset → ExecuteMsg
  pair_swap : Asset → ExecuteMsg

pub data CosmosMsg : Type 0 where
  wasm_execute : Addr → ExecuteMsg → List Coin → CosmosMsg
  wasm_instantiate : Addr → ℕ → CosmosMsg
  wasm_migrate : Addr → ℕ → CosmosMsg
  bank_send : Addr → List Coin → CosmosMsg

pub data ReplyOn : Type 0 where
  always error success never : ReplyOn

pub record SubMsg : Type 0 where
  pub id : ℕ
  pub msg : CosmosMsg
  pub reply_on : ReplyOn

-- The messages of a `Response`, in order.
abbrev pub Response : Type 0
Response = List SubMsg

-- `response.add_message(m)` wraps a message that asks for no reply.
abbrev pub plain : CosmosMsg → SubMsg
plain m = record { id = 0; msg = m; reply_on = ReplyOn.never }

abbrev pub plain_messages : List CosmosMsg → Response
plain_messages ms = map plain ms
