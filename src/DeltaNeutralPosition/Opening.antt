-- ===== src/DeltaNeutralPosition/Opening.antt =====
-- contracts/delta_neutral_position/src/contract.rs: opening a position, on the market or, while the
-- oracle's price is stale, in Anchor Earn; and the check of what was opened.
use position_managers.Prelude.{
  ℕ, false, ◌&&◌, Option, none, some, List, [], ◌∷◌, ◌++◌, unwrap_or, ltb, ◌==◌, if◌then◌else◌,
}
use position_managers.Cosmwasm.{
  Addr, Result, ok, err, ◌>>=◌, ◌>>◌, fail_if, load, generic_err, sub_128, Env,
}
use position_managers.Message.{
  CosmosMsg, wasm_execute, bank_send, deposit_stable, sanity_check, DeltaNeutralParams, Response,
  plain_messages,
}
use position_managers.AnchorEarnProxy.{uusd_coin}
use position_managers.DeltaNeutralManager.State.{Context, FeeCollectionConfig}
use position_managers.DeltaNeutralManager.Rebalance.{
  TargetCollateralRatioRange, get_mirror_cdp_response, get_mirror_asset_fresh_oracle_uusd_rate,
  is_some,
}
use position_managers.Chain.{Chain}
use position_managers.DeltaNeutralPosition.State.{State}
use position_managers.DeltaNeutralPosition.Util.{
  get_uusd_balance, get_fee_collection_config_from_manager,
}
use position_managers.DeltaNeutralPosition.Open.{delta_neutral_invest}
use position_managers.DeltaNeutralPosition.Closing.{create_internal_execute_message}

-- The long amount has to be the short one.
unfoldable pub open_position_sanity_check : Chain → State → Env → Context → Result Response
open_position_sanity_check c s env context = do
  mirror_asset_cw20_addr ← load s.mirror_asset_cw20_addr
  mirror_asset_balance ← c.anchor.query_token_balance mirror_asset_cw20_addr env.contract_address
  cdp_idx ← load s.cdp_idx
  cdp ← get_mirror_cdp_response c.mirror context cdp_idx
  if cdp.is_short && mirror_asset_balance == cdp.asset_amount
      then ok []
      else err (generic_err "unexpected non-neutral position opened")

-- What is stored before the oracle is asked.
unfoldable pub opened : State → Env → ℕ → Addr → TargetCollateralRatioRange → State
opened s env uusd_balance mirror_asset_cw20_addr range = record s {
  last_fee_collection_position_uusd_value = some uusd_balance;
  position_open_info = some (record {
    height = env.block_height;
    time_nanoseconds = env.block_time_nanos;
    uusd_amount = uusd_balance;
  });
  mirror_asset_cw20_addr = some mirror_asset_cw20_addr;
  target_collateral_ratio_range = some range;
}

-- With a fresh price the debt position that comes next is the position's own.
unfoldable pub open_on_market :
    Chain
    → State
    → Env
    → Context
    → ℕ
    → TargetCollateralRatioRange
    → Addr
    → ℕ
    → Result (Response × State)
unfolding delta_neutral_invest
open_on_market c s env context uusd_balance range mirror_asset_cw20_addr rate = do
  next_position_idx ← c.next_position_idx context.mirror_mint_addr
  messages ← delta_neutral_invest c env context uusd_balance range mirror_asset_cw20_addr rate none
  ok (
    plain_messages (messages ++ (create_internal_execute_message env sanity_check ∷ [])),
    record s { cdp_idx = some next_position_idx },
  )

unfoldable pub service_fee_messages : FeeCollectionConfig → List CosmosMsg
service_fee_messages config =
    if config.off_market_position_open_service_fee_uusd == 0
    then []
    else (bank_send config.collector_addr
          (uusd_coin config.off_market_position_open_service_fee_uusd ∷ [])
        ∷ [])

unfoldable pub open_off_market : Chain → State → Context → ℕ → Result (Response × State)
unfolding get_fee_collection_config_from_manager service_fee_messages
open_off_market c s context uusd_balance = do
  config ← get_fee_collection_config_from_manager c s
  deposit ← sub_128 uusd_balance config.off_market_position_open_service_fee_uusd
  ok (
    plain_messages (
        service_fee_messages config
        ++ (wasm_execute context.anchor_market_addr deposit_stable (uusd_coin deposit ∷ []) ∷ [])),
    s,
  )

unfoldable pub open_with_rate :
    Chain
    → State
    → Env
    → Context
    → DeltaNeutralParams
    → ℕ
    → TargetCollateralRatioRange
    → Addr
    → Option ℕ
    → Result (Response × State)
unfolding open_on_market open_off_market
open_with_rate c s env context params uusd_balance range mirror_asset_cw20_addr (some rate) =
    open_on_market c s env context uusd_balance range mirror_asset_cw20_addr rate
open_with_rate c s env context params uusd_balance range mirror_asset_cw20_addr none =
    if unwrap_or params.allow_off_market_position_open false
    then open_off_market c s context uusd_balance
    else err (generic_err "oracle price stale; off-market position open service not requested")

unfoldable pub open_position :
    Chain → State → Env → Context → DeltaNeutralParams → Result (Response × State)
unfolding get_uusd_balance opened open_with_rate
open_position c s env context params = do
  fail_if (is_some s.position_open_info) (generic_err "position is already open")
  uusd_balance ← get_uusd_balance c env
  fail_if (ltb uusd_balance context.min_open_uusd_amount)
      (generic_err "UST amount too small to open a delta-neutral position")
  mirror_asset_cw20_addr ← c.host.addr_validate params.mirror_asset_cw20_addr
  let range : TargetCollateralRatioRange = record {
    min = params.target_min_collateral_ratio;
    max = params.target_max_collateral_ratio;
  }
  open_with_rate c (opened s env uusd_balance mirror_asset_cw20_addr range) env context params
      uusd_balance range mirror_asset_cw20_addr
      (get_mirror_asset_fresh_oracle_uusd_rate c.mirror context mirror_asset_cw20_addr)
