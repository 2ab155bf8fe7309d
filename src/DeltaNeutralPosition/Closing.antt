-- ===== src/DeltaNeutralPosition/Closing.antt =====
-- contracts/delta_neutral_position/src/contract.rs: closing a position, collecting the protocol's
-- fee, and handing uusd to the recipient or to Anchor Earn.
use position_managers.Prelude.{
  ℕ, ◌-◌, Bool, false, not, ◌||◌, some, List, [], ◌∷◌, ◌++◌, unwrap_or, ltb, ◌==◌, if◌then◌else◌,
}
use position_managers.Cosmwasm.{
  Result, ok, err, panic, ◌>>=◌, ◌>>◌, fail_if, load, generic_err, add_128, sub_128, Env,
}
use position_managers.Common.{Recipient}
use position_managers.Message.{
  CosmosMsg, wasm_execute, bank_send, cw20_send, mint_burn, redeem_stable, deposit_stable,
  position_internal, InternalExecuteMsg, close_cdp_and_disburse, deposit_uusd_balance,
  withdraw_collateral_and_redeem, send_uusd, initiate_outgoing_token_transfer, Response, plain,
  plain_messages,
}
use position_managers.AnchorEarnProxy.{uusd, uusd_coin, decimal_one}
use position_managers.DeltaNeutralManager.State.{Context, FeeCollectionConfig}
use position_managers.DeltaNeutralManager.Rebalance.{
  PositionState, get_mirror_cdp_response, is_some,
}
use position_managers.Chain.{Chain, LockInfo}
use position_managers.DeltaNeutralPosition.Math.{times}
use position_managers.DeltaNeutralPosition.State.{State}
use position_managers.DeltaNeutralPosition.Util.{
  get_uusd_balance, get_cdp_uusd_lock_info_result, get_position_state,
  increase_mirror_asset_balance_from_long_farm, increase_uusd_balance_from_aust_collateral,
  get_fee_collection_config_from_manager,
}
use position_managers.DeltaNeutralPosition.Rebalance.{achieve_delta_neutral}

abbrev pub create_internal_execute_message : Env → InternalExecuteMsg → CosmosMsg
create_internal_execute_message env msg =
    wasm_execute env.contract_address (position_internal msg) []

-- All aUST is redeemed for uusd.
abbrev pub redeem_all : Context → ℕ → CosmosMsg
redeem_all context anchor_ust_balance =
    wasm_execute context.anchor_ust_cw20_addr
      (cw20_send context.anchor_market_addr anchor_ust_balance redeem_stable) []

unfoldable pub is_cdp_inactive : State → Bool
is_cdp_inactive s = not (is_some s.cdp_idx) || unwrap_or s.cdp_preemptively_closed false

unfoldable pub close_position : Chain → State → Env → Context → Recipient → Result Response
unfolding is_cdp_inactive achieve_delta_neutral
close_position c s env context recipient = do
  fail_if (is_some s.position_close_info) (generic_err "position is already closed")
  if is_cdp_inactive s
      then (do
        anchor_ust_balance ←
            c.anchor.query_token_balance context.anchor_ust_cw20_addr env.contract_address
        ok (
            plain_messages (
              redeem_all context anchor_ust_balance
              ∷ create_internal_execute_message env (send_uusd decimal_one recipient)
              ∷ [])))
      else (do
        messages ← achieve_delta_neutral c s env context
        ok (
            plain_messages (
              messages
              ++ (create_internal_execute_message env (close_cdp_and_disburse recipient) ∷ []))))

-- The position counts as closed once everything is sent.
unfoldable pub record_close : State → Env → ℕ → ℕ → State
record_close s env proportion amount =
    if proportion == decimal_one
    then record s {
      position_close_info = some (record {
        height = env.block_height;
        time_nanoseconds = env.block_time_nanos;
        uusd_amount = amount;
      });
    }
    else s

unfoldable pub send_uusd_to_recipient :
    Chain → State → Env → ℕ → Recipient → Result (Response × State)
unfolding get_uusd_balance record_close
send_uusd_to_recipient c s env proportion recipient = do
  uusd_balance ← get_uusd_balance c env
  amount ← times c uusd_balance proportion
  if amount == 0 then ok ([], record_close s env proportion amount) else (do
    manager ← load s.manager
    config ← c.manager_admin_config manager
    ok (
      plain (
            wasm_execute config.terra_manager
              (initiate_outgoing_token_transfer (uusd amount ∷ []) recipient)
              (uusd_coin amount ∷ []))
          ∷ [],
      record_close s env proportion amount,
    ))

unfoldable pub withdraw_collateral_and_redeem_for_uusd :
    Chain → State → Context → ℕ → Result Response
unfolding increase_uusd_balance_from_aust_collateral
withdraw_collateral_and_redeem_for_uusd c s context proportion = do
  cdp_idx ← load s.cdp_idx
  cdp ← get_mirror_cdp_response c.mirror context cdp_idx
  amount ← times c cdp.collateral_amount proportion
  ok (plain_messages (increase_uusd_balance_from_aust_collateral context cdp_idx amount))

-- `if let Ok(info) = .. { position_value += info.locked_amount }`
unfoldable pub with_locked : Result LockInfo → ℕ → Result ℕ
with_locked (ok lock) value = add_128 value lock.locked_amount
with_locked (err e) value = ok value
with_locked panic value = panic

unfoldable pub gain_over : ℕ → ℕ → ℕ
gain_over last_value position_value =
    if ltb last_value position_value then position_value - last_value else 0

-- Nothing is left to burn once the position has been liquidated.
unfoldable pub close_cdp : Chain → State → Env → Context → PositionState → Result (List CosmosMsg)
unfolding increase_mirror_asset_balance_from_long_farm
close_cdp c s env context state = if state.mirror_asset_short_amount == 0 then ok [] else (do
  mirror_asset_cw20_addr ← load s.mirror_asset_cw20_addr
  withdrawal ←
      increase_mirror_asset_balance_from_long_farm c state context.spectrum_mirror_farms_addr
        mirror_asset_cw20_addr state.mirror_asset_short_amount
  cdp_idx ← load s.cdp_idx
  ok (
      withdrawal
      ++ (wasm_execute mirror_asset_cw20_addr
            (cw20_send context.mirror_mint_addr state.mirror_asset_short_amount (mint_burn cdp_idx))
            []
          ∷ create_internal_execute_message env (withdraw_collateral_and_redeem decimal_one)
          ∷ [])))

-- The fee goes to its collector, and what is left becomes the value that a gain counts from.
unfoldable pub collect_fee :
    State → FeeCollectionConfig → ℕ → ℕ → List CosmosMsg → Result (List CosmosMsg × State)
collect_fee s config position_value fee_amount messages =
    if fee_amount == 0 then ok (messages, s) else (do
      value_after_fee ← sub_128 position_value fee_amount
      ok (
        messages ++ (bank_send config.collector_addr (uusd_coin fee_amount ∷ []) ∷ []),
        record s { last_fee_collection_position_uusd_value = some value_after_fee },
      ))

unfoldable pub close_cdp_and_collect_fees :
    Chain → State → Env → Context → Result (List CosmosMsg × State)
unfolding get_position_state with_locked get_cdp_uusd_lock_info_result gain_over
    get_fee_collection_config_from_manager close_cdp collect_fee
close_cdp_and_collect_fees c s env context = do
  state ← get_position_state c s env context
  collateral_and_balance ← add_128 state.collateral_uusd_value state.uusd_balance
  unlocked_value ← add_128 collateral_and_balance state.uusd_long_farm
  position_value ← with_locked (get_cdp_uusd_lock_info_result c s context) unlocked_value
  last_value ← load s.last_fee_collection_position_uusd_value
  config ← get_fee_collection_config_from_manager c s
  fee_amount ← times c (gain_over last_value position_value) config.performance_rate
  messages ← close_cdp c s env context state
  collect_fee s config position_value fee_amount messages

unfoldable pub close_cdp_and_disburse_uusd :
    Chain → State → Env → Context → Recipient → Result (Response × State)
unfolding close_cdp_and_collect_fees
close_cdp_and_disburse_uusd c s env context recipient = do
  (messages, s') ← close_cdp_and_collect_fees c s env context
  ok (
    plain_messages
        (messages ++ (create_internal_execute_message env (send_uusd decimal_one recipient) ∷ [])),
    s',
  )

unfoldable pub close_cdp_and_deposit_to_anchor_earn :
    Chain → State → Env → Context → Result (Response × State)
unfolding close_cdp_and_collect_fees
close_cdp_and_deposit_to_anchor_earn c s env context = do
  (messages, s') ← close_cdp_and_collect_fees c s env context
  ok (
    plain_messages (messages ++ (create_internal_execute_message env deposit_uusd_balance ∷ [])),
    s',
  )

unfoldable pub deposit_uusd_balance_to_anchor_earn : Chain → Env → Context → Result Response
unfolding get_uusd_balance
deposit_uusd_balance_to_anchor_earn c env context = do
  uusd_balance ← get_uusd_balance c env
  ok (
      plain_messages
        (wasm_execute context.anchor_market_addr deposit_stable (uusd_coin uusd_balance ∷ []) ∷ []))
