-- ===== src/DeltaNeutralPosition/Contract.antt =====
-- contracts/delta_neutral_position/src/contract.rs: the entry points of a position's contract, and
-- who may call them.
use position_managers.Prelude.{ℕ, Bool, not, ◌||◌, some, str_eq}
use position_managers.Cosmwasm.{
  Addr, Result, ok, ◌>>=◌, ◌>>◌, fail_if, load, generic_err, Env, MessageInfo,
}
use position_managers.Common.{Recipient}
use position_managers.Message.{DeltaNeutralParams, InternalExecuteMsg, Response}
use position_managers.Message as Message
use position_managers.DeltaNeutralManager.State.{Context}
use position_managers.DeltaNeutralManager.Rebalance.{PositionInfo}
use position_managers.Chain.{Chain}
use position_managers.DeltaNeutralPosition.State.{State, fresh_state}
use position_managers.DeltaNeutralPosition.Spectrum.{check_spectrum_mirror_farm_existence}
use position_managers.DeltaNeutralPosition.Safety.{achieve_safe_collateral_ratios}
use position_managers.DeltaNeutralPosition.Closing.{
  close_position, send_uusd_to_recipient, withdraw_collateral_and_redeem_for_uusd,
  close_cdp_and_disburse_uusd, close_cdp_and_deposit_to_anchor_earn,
  deposit_uusd_balance_to_anchor_earn,
}
use position_managers.DeltaNeutralPosition.Liquidity.{
  pair_uusd_with_mirror_asset_to_provide_liquidity_and_stake,
}
use position_managers.DeltaNeutralPosition.Opening.{open_position, open_position_sanity_check}
use position_managers.DeltaNeutralPosition.Reinvest.{rebalance_and_reinvest, reinvest}
use position_managers.DeltaNeutralPosition.Info.{query_position_info}

unfoldable pub instantiate : MessageInfo → State
instantiate info = fresh_state info.sender

-- `ExecuteMsg` of delta_neutral_position.rs; its `Controller` has one message.
pub data ExecuteMsg : Type 0 where
  open_position_msg : DeltaNeutralParams → ExecuteMsg
  close_position_msg : Recipient → ExecuteMsg
  rebalance_and_reinvest_msg : ExecuteMsg
  internal_msg : InternalExecuteMsg → ExecuteMsg

-- A handler that reads the storage only.
abbrev pub keep_state : State → Result Response → Result (Response × State)
keep_state s outcome = outcome >>= λ r. ok (r, s)

unfoldable pub is_authorized : Env → MessageInfo → Context → Addr → ExecuteMsg → Bool
is_authorized env info context manager_addr (open_position_msg params) =
    str_eq info.sender manager_addr
is_authorized env info context manager_addr (close_position_msg recipient) =
    str_eq info.sender manager_addr
is_authorized env info context manager_addr rebalance_and_reinvest_msg =
    str_eq info.sender context.controller || str_eq info.sender env.contract_address
is_authorized env info context manager_addr (internal_msg m) =
    str_eq info.sender env.contract_address

unfoldable pub run_internal :
    Chain → State → Env → Context → InternalExecuteMsg → Result (Response × State)
unfolding reinvest achieve_safe_collateral_ratios close_cdp_and_disburse_uusd
    close_cdp_and_deposit_to_anchor_earn deposit_uusd_balance_to_anchor_earn
    withdraw_collateral_and_redeem_for_uusd send_uusd_to_recipient
    pair_uusd_with_mirror_asset_to_provide_liquidity_and_stake open_position_sanity_check
run_internal c s env context Message.achieve_safe_collateral_ratio =
    achieve_safe_collateral_ratios c s env context
run_internal c s env context (Message.close_cdp_and_disburse recipient) =
    close_cdp_and_disburse_uusd c s env context recipient
run_internal c s env context Message.close_cdp_and_deposit =
    close_cdp_and_deposit_to_anchor_earn c s env context
run_internal c s env context Message.deposit_uusd_balance =
    keep_state s (deposit_uusd_balance_to_anchor_earn c env context)
run_internal c s env context (Message.withdraw_collateral_and_redeem proportion) =
    keep_state s (withdraw_collateral_and_redeem_for_uusd c s context proportion)
run_internal c s env context (Message.send_uusd proportion recipient) =
    send_uusd_to_recipient c s env proportion recipient
run_internal c s env context Message.pair_uusd_with_mirror_asset =
    keep_state s (pair_uusd_with_mirror_asset_to_provide_liquidity_and_stake c s env context)
run_internal c s env context (Message.delta_neutral_reinvest rate) =
    keep_state s (reinvest c s env context rate)
run_internal c s env context Message.sanity_check =
    keep_state s (open_position_sanity_check c s env context)

unfoldable pub run : Chain → State → Env → Context → ExecuteMsg → Result (Response × State)
unfolding open_position close_position rebalance_and_reinvest run_internal
run c s env context (open_position_msg params) = open_position c s env context params
run c s env context (close_position_msg recipient) =
    keep_state s (close_position c s env context recipient)
run c s env context rebalance_and_reinvest_msg = rebalance_and_reinvest c s env context
run c s env context (internal_msg m) = run_internal c s env context m

unfoldable pub execute : Chain → State → Env → MessageInfo → ExecuteMsg → Result (Response × State)
unfolding is_authorized run
execute c s env info msg = do
  manager_addr ← load s.manager
  context ← c.manager_context manager_addr
  fail_if (not (is_authorized env info context manager_addr msg)) (generic_err "unauthorized")
  run c s env context msg

unfoldable pub query_info : Chain → State → Env → Result PositionInfo
unfolding query_position_info
query_info c s env = do
  manager_addr ← load s.manager
  context ← c.query_manager_context manager_addr
  query_position_info c s env context

unfoldable pub query_farm_existence : Chain → State → Addr → Result Bool
unfolding check_spectrum_mirror_farm_existence
query_farm_existence c s mirror_asset_cw20_addr = do
  manager_addr ← load s.manager
  context ← c.query_manager_context manager_addr
  mirror_asset ← c.host.addr_validate mirror_asset_cw20_addr
  check_spectrum_mirror_farm_existence c context mirror_asset

unfoldable pub migrate : State → ℕ → State
migrate s new_code_id = record s { code_id = some new_code_id }
