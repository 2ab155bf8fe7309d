-- ===== src/DeltaNeutralPosition/Reinvest.antt =====
-- contracts/delta_neutral_position/src/contract.rs: what the controller sets off, from a rebalance to
-- the delayed set-up of a position that was opened off the market.
use position_managers.Prelude.{
  ℕ, Bool, true, false, not, ◌&&◌, ◌||◌, Option, none, some, List, [], ◌∷◌, ◌++◌, unwrap_or, leb,
  ltb, ◌==◌, if◌then◌else◌,
}
use position_managers.Cosmwasm.{Addr, Result, ok, err, panic, ◌>>=◌, load, is_ok, Env}
use position_managers.Message.{
  CosmosMsg, achieve_safe_collateral_ratio, close_cdp_and_deposit, pair_uusd_with_mirror_asset,
  delta_neutral_reinvest, sanity_check, Response, plain_messages,
}
use position_managers.Anchor.{get_anchor_ust_balance_with_uusd_value}
use position_managers.DeltaNeutralManager.State.{Context}
use position_managers.DeltaNeutralManager.Rebalance.{
  get_mirror_cdp_response, get_mirror_asset_fresh_oracle_uusd_rate, is_some,
}
use position_managers.Chain.{Chain, LockInfo}
use position_managers.DeltaNeutralPosition.State.{State}
use position_managers.DeltaNeutralPosition.Util.{
  get_uusd_balance, get_cdp_uusd_lock_info_result, should_close_cdp,
}
use position_managers.DeltaNeutralPosition.Open.{delta_neutral_invest}
use position_managers.DeltaNeutralPosition.Rebalance.{achieve_delta_neutral}
use position_managers.DeltaNeutralPosition.Closing.{create_internal_execute_message, redeem_all}

-- Whether proceeds are locked until a later time.
unfoldable pub is_locked : Env → Result LockInfo → Bool
is_locked env (ok lock) = not (lock.locked_amount == 0) && ltb env.block_time lock.unlock_time
is_locked env (err e) = false
is_locked env panic = false

unfoldable pub get_reinvest_internal_messages : Chain → State → Env → Context → ℕ → List CosmosMsg
unfolding is_locked get_cdp_uusd_lock_info_result
get_reinvest_internal_messages c s env context fresh_oracle_uusd_rate =
    if is_locked env (get_cdp_uusd_lock_info_result c s context)
    then []
    else (create_internal_execute_message env pair_uusd_with_mirror_asset
        ∷ create_internal_execute_message env (delta_neutral_reinvest fresh_oracle_uusd_rate)
        ∷ [])

abbrev pub preemptively_closed : State → State
preemptively_closed s = record s { cdp_preemptively_closed = some true }

-- With a debt position and a fresh price.
unfoldable pub reinvest_active :
    Chain → State → Env → Context → List CosmosMsg → Addr → ℕ → Result (Response × State)
unfolding should_close_cdp get_reinvest_internal_messages
reinvest_active c s env context messages mirror_asset_cw20_addr rate = do
  close ← should_close_cdp c s context.mirror_mint_addr mirror_asset_cw20_addr
  if close
      then ok (
        plain_messages
            (messages ++ (create_internal_execute_message env close_cdp_and_deposit ∷ [])),
        preemptively_closed s,
      )
      else ok (
        plain_messages (
            messages
            ++ (create_internal_execute_message env achieve_safe_collateral_ratio
                ∷ get_reinvest_internal_messages c s env context rate)),
        s,
      )

-- Without a debt position: the set-up that was put off when the position was opened.
unfoldable pub delayed_open : Chain → State → Env → Context → Addr → ℕ → Result (Response × State)
unfolding should_close_cdp delta_neutral_invest get_anchor_ust_balance_with_uusd_value
delayed_open c s env context mirror_asset_cw20_addr rate = do
  close ← should_close_cdp c s context.mirror_mint_addr mirror_asset_cw20_addr
  if close then ok ([], preemptively_closed s) else (do
    range ← load s.target_collateral_ratio_range
    (anchor_ust_balance, uusd_value) ←
        get_anchor_ust_balance_with_uusd_value c.anchor env context.anchor_market_addr
          context.anchor_ust_cw20_addr
    messages ← delta_neutral_invest c env context uusd_value range mirror_asset_cw20_addr rate none
    ok (
      plain_messages (
          redeem_all context anchor_ust_balance
          ∷ (messages ++ (create_internal_execute_message env sanity_check ∷ []))),
      s,
    ))

unfoldable pub rebalance_active : Chain → State → Env → Context → ℕ → Result (Response × State)
unfolding achieve_delta_neutral reinvest_active
rebalance_active c s env context cdp_idx = do
  messages ← achieve_delta_neutral c s env context
  if not (is_ok (get_mirror_cdp_response c.mirror context cdp_idx))
      then ok (
        plain_messages
            (messages ++ (create_internal_execute_message env close_cdp_and_deposit ∷ [])),
        preemptively_closed s,
      )
      else (do
        mirror_asset_cw20_addr ← load s.mirror_asset_cw20_addr
        elim (get_mirror_asset_fresh_oracle_uusd_rate c.mirror context mirror_asset_cw20_addr) [
          | some rate ↦ reinvest_active c s env context messages mirror_asset_cw20_addr rate
          | none ↦ ok (plain_messages messages, s)
        ])

unfoldable pub rebalance_inactive : Chain → State → Env → Context → Result (Response × State)
unfolding delayed_open
rebalance_inactive c s env context = do
  mirror_asset_cw20_addr ← load s.mirror_asset_cw20_addr
  elim (get_mirror_asset_fresh_oracle_uusd_rate c.mirror context mirror_asset_cw20_addr) [
    | some rate ↦ delayed_open c s env context mirror_asset_cw20_addr rate
    | none ↦ ok ([], s)
  ]

unfoldable pub rebalance_open : Chain → State → Env → Context → Option ℕ → Result (Response × State)
unfolding rebalance_active rebalance_inactive
rebalance_open c s env context (some cdp_idx) = rebalance_active c s env context cdp_idx
rebalance_open c s env context none = rebalance_inactive c s env context

unfoldable pub rebalance_and_reinvest : Chain → State → Env → Context → Result (Response × State)
unfolding rebalance_open
rebalance_and_reinvest c s env context =
    if is_some s.position_close_info || unwrap_or s.cdp_preemptively_closed false
    then ok ([], s)
    else rebalance_open c s env context s.cdp_idx

-- The branch `DeltaNeutralReinvest` of `execute`.
unfoldable pub reinvest : Chain → State → Env → Context → ℕ → Result Response
unfolding get_uusd_balance delta_neutral_invest
reinvest c s env context mirror_asset_fresh_oracle_uusd_rate = do
  mirror_asset_cw20_addr ← load s.mirror_asset_cw20_addr
  cdp_idx ← load s.cdp_idx
  range ← load s.target_collateral_ratio_range
  uusd_amount ← get_uusd_balance c env
  if leb context.min_reinvest_uusd_amount uusd_amount
      then (do
        messages ←
            delta_neutral_invest c env context uusd_amount range mirror_asset_cw20_addr
              mirror_asset_fresh_oracle_uusd_rate (some cdp_idx)
        ok (plain_messages messages))
      else ok []
