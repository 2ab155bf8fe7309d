-- ===== src/AnchorEarnProxy.antt =====
-- contracts/anchor_earn_proxy/src/state.rs and contract.rs: positions held in Anchor Earn.
pub mod Payout
pub mod Access
pub mod Balances
use position_managers.Prelude.{
  ℕ, ◌^◌, String, Bool, false, not, ◌&&◌, ◌||◌, Option, none, some, List, [], ◌∷◌, unwrap_or, ltb,
  ◌==◌, str_eq, if◌then◌else◌,
}
use position_managers.Cosmwasm.{
  Addr, Result, ok, err, ◌>>=◌, ◌>>◌, fail_if, load, is_ok, generic_err, Coin, MessageInfo, Env,
}
use position_managers.Common.{
  AssetInfo, native_token, token, Asset, Position, PositionKey, get_position_key, Recipient, Action,
  open_position, close_position, increase_position, decrease_position,
}
use position_managers.Message.{
  wasm_execute, deposit_stable, cw20_send, redeem_stable, initiate_outgoing_token_transfer,
  Response, plain_messages,
}
use position_managers.Host.{Host}
use position_managers.Anchor.{Anchor, get_anchor_ust_exchange_rate}
use position_managers.TerraManager.State.{save_position}

pub record AdminConfig : Type 0 where
  pub admin : Addr
  pub terra_manager : Addr

pub record Environment : Type 0 where
  pub anchor_ust_cw20_addr : Addr
  pub anchor_market_addr : Addr

pub record State : Type 0 where
  pub admin_config : Option AdminConfig
  pub environment : Option Environment
  pub position_to_anchor_ust_amount : PositionKey → Option ℕ

pub record InstantiateMsg : Type 0 where
  pub admin_addr : String
  pub terra_manager_addr : String
  pub anchor_ust_cw20_addr : String
  pub anchor_market_addr : String

unfoldable pub instantiate : Host → InstantiateMsg → Result (Response × State)
instantiate h msg = do
  admin ← h.addr_validate msg.admin_addr
  terra_manager ← h.addr_validate msg.terra_manager_addr
  anchor_ust ← h.addr_validate msg.anchor_ust_cw20_addr
  anchor_market ← h.addr_validate msg.anchor_market_addr
  ok (
    [],
    record {
      admin_config = some (record { admin = admin; terra_manager = terra_manager });
      environment =
          some (record { anchor_ust_cw20_addr = anchor_ust; anchor_market_addr = anchor_market });
      position_to_anchor_ust_amount = λ key. none;
    },
  )

-- An address to store in place of `old`, if one is given.
abbrev pub validated_or : Host → Option String → Addr → Result Addr
validated_or h none old = ok old
validated_or h (some new) old = h.addr_validate new

unfoldable pub update_admin_config :
    Host → State → MessageInfo → Option String → Option String → Result (Response × State)
update_admin_config h s info admin_addr terra_manager_addr = do
  config ← load s.admin_config
  fail_if (not (str_eq info.sender config.admin)) (generic_err "unauthorized")
  admin ← validated_or h admin_addr config.admin
  terra_manager ← validated_or h terra_manager_addr config.terra_manager
  ok (
    [],
    record s { admin_config = some (record { admin = admin; terra_manager = terra_manager }) },
  )

abbrev pub uusd : ℕ → Asset
uusd amount = record { info = native_token "uusd"; amount = amount }

abbrev pub uusd_coin : ℕ → Coin
uusd_coin amount = record { denom = "uusd"; amount = amount }

-- `validate_assets`: exactly one asset, of uusd, more than none of it, and sent along.
unfoldable pub is_uusd_sent : Host → MessageInfo → AssetInfo → ℕ → Bool
is_uusd_sent h info (token contract_addr) amount = false
is_uusd_sent h info (native_token denom) amount =
    str_eq denom "uusd"
    && (ltb 0 amount
        && is_ok (
            h.assert_sent_native_token_balance
              (record { info = native_token denom; amount = amount }) info))

unfoldable pub validate_assets : Host → MessageInfo → List Asset → Result Asset
unfolding is_uusd_sent
validate_assets h info (a ∷ []) =
    if is_uusd_sent h info a.info a.amount then ok a else err (generic_err "invalid assets")
validate_assets h info assets = err (generic_err "invalid assets")

-- The aUST of a position, none if it has no entry.
abbrev pub balance : State → Position → ℕ
balance s position = unwrap_or (s.position_to_anchor_ust_amount (get_position_key position)) 0

abbrev pub set_balance : State → Position → ℕ → State
set_balance s position amount = record s {
  position_to_anchor_ust_amount =
      save_position (get_position_key position) amount s.position_to_anchor_ust_amount;
}

unfoldable pub deposit :
    Host → Anchor → State → Env → MessageInfo → Position → List Asset → Result (Response × State)
deposit h k s env info position assets = do
  uusd_asset ← validate_assets h info assets
  environment ← load s.environment
  exchange_rate ← get_anchor_ust_exchange_rate k env environment.anchor_market_addr
  mint_anchor_ust_amount ← k.div_256 uusd_asset.amount exchange_rate
  new_amount ← k.add_256 (balance s position) mint_anchor_ust_amount
  ok (
    plain_messages (
        wasm_execute environment.anchor_market_addr deposit_stable
          (uusd_coin uusd_asset.amount ∷ [])
        ∷ []),
    set_balance s position new_amount,
  )

-- `Decimal::one()`, which is also a `Decimal`'s denominator.
abbrev pub decimal_one : ℕ
decimal_one = 10 ^ 18

unfoldable pub withdraw :
    Host → Anchor → State → Env → AdminConfig → Position → ℕ → Recipient → Result (Response × State)
withdraw h k s env admin_config position proportion recipient = do
  fail_if (proportion == 0 || ltb decimal_one proportion) (generic_err "invalid proportion")
  anchor_ust_amount ← load (s.position_to_anchor_ust_amount (get_position_key position))
  ratio ← k.from_ratio proportion decimal_one
  redeem_anchor_ust_amount ← k.mul_256 anchor_ust_amount ratio
  fail_if (redeem_anchor_ust_amount == 0 || ltb anchor_ust_amount redeem_anchor_ust_amount)
      (generic_err "invalid redeem_anchor_ust_amount")
  new_amount ← k.sub_256 anchor_ust_amount redeem_anchor_ust_amount
  environment ← load s.environment
  exchange_rate ← get_anchor_ust_exchange_rate k env environment.anchor_market_addr
  value ← k.mul_256 redeem_anchor_ust_amount exchange_rate
  withdrawal_uusd_amount ← k.to_uint128 value
  redeemed ← k.to_uint128 redeem_anchor_ust_amount
  ok (
    plain_messages (
        wasm_execute environment.anchor_ust_cw20_addr
          (cw20_send environment.anchor_market_addr redeemed redeem_stable) []
        ∷ wasm_execute admin_config.terra_manager
            (initiate_outgoing_token_transfer (uusd withdrawal_uusd_amount ∷ []) recipient)
            (uusd_coin withdrawal_uusd_amount ∷ [])
        ∷ []),
    set_balance s position new_amount,
  )

-- What the action of a message from the Terra manager comes to.
unfoldable pub act :
    Host
    → Anchor
    → State
    → Env
    → MessageInfo
    → AdminConfig
    → Position
    → Action
    → List Asset
    → Result (Response × State)
act h k s env info config position (open_position payload) assets =
    deposit h k s env info position assets
act h k s env info config position (increase_position payload) assets =
    deposit h k s env info position assets
act h k s env info config position (decrease_position proportion recipient) assets =
    withdraw h k s env config position proportion recipient
act h k s env info config position (close_position recipient) assets =
    withdraw h k s env config position decimal_one recipient

pub data ExecuteMsg : Type 0 where
  perform_action_msg : Position → Action → List Asset → ExecuteMsg
  update_admin_config_msg : Option String → Option String → ExecuteMsg

unfoldable pub execute :
    Host → Anchor → State → Env → MessageInfo → ExecuteMsg → Result (Response × State)
unfolding act
execute h k s env info (perform_action_msg position action assets) = do
  config ← load s.admin_config
  fail_if (not (str_eq info.sender config.terra_manager)) (generic_err "unauthorized")
  act h k s env info config position action assets
execute h k s env info (update_admin_config_msg admin_addr terra_manager_addr) =
    update_admin_config h s info admin_addr terra_manager_addr

-- The query `GetPositionInfo`: the value of a position in uusd.
unfoldable pub query_position_info : Anchor → State → Env → Position → Result ℕ
query_position_info k s env position = do
  environment ← load s.environment
  exchange_rate ← get_anchor_ust_exchange_rate k env environment.anchor_market_addr
  k.mul_256 (balance s position) exchange_rate
