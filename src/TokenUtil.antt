-- ===== src/TokenUtil.antt =====
-- terra_contracts/packages/aperture_common/src/token_util.rs: taking in the assets that a caller
-- offers, and passing assets on.
pub mod Transfers
use position_managers.Prelude.{ℕ, Bool, true, false, List, [], ◌∷◌, ◌++◌, ltb, if◌then◌else◌}
use position_managers.Cosmwasm.{
  Addr, Result, ok, err, panic, ◌>>=◌, ◌>>◌, generic_err, Coin, MessageInfo, Env,
}
use position_managers.Common.{AssetInfo, native_token, token, Asset}
use position_managers.Message.{CosmosMsg, wasm_execute, cw20_transfer, cw20_transfer_from}
use position_managers.Host.{Host}

abbrev pub transfer_msg : Addr → ℕ → Addr → CosmosMsg
transfer_msg contract_addr amount recipient =
    wasm_execute contract_addr (cw20_transfer recipient amount) []

-- The loop of `forward_assets_direct`, with the coins and messages gathered so far.
forward_step : AssetInfo → ℕ → Addr → List Coin × List CosmosMsg → List Coin × List CosmosMsg
forward_step (native_token denom) amount recipient (funds, msgs) =
    (funds ++ (record { denom = denom; amount = amount } ∷ []), msgs)
forward_step (token contract_addr) amount recipient (funds, msgs) =
    (funds, msgs ++ (transfer_msg contract_addr amount recipient ∷ []))

forward_loop : List Asset → Addr → List Coin × List CosmosMsg → List Coin × List CosmosMsg
forward_loop [] recipient acc = acc
forward_loop (a ∷ assets) recipient acc =
    forward_loop assets recipient (forward_step a.info a.amount recipient acc)

unfoldable pub forward_assets_direct : List Asset → Addr → List Coin × List CosmosMsg
unfolding forward_loop forward_step
forward_assets_direct assets recipient = forward_loop assets recipient ([], [])

-- One round of `validate_and_accept_incoming_asset_transfer`: the messages so far, and whether an
-- allowance was too small.
accept_step :
    Host
    → Env
    → MessageInfo
    → AssetInfo
    → ℕ
    → List CosmosMsg × Bool
    → Result (List CosmosMsg × Bool)
accept_step h env info (native_token denom) amount acc = do
  h.assert_sent_native_token_balance (record { info = native_token denom; amount = amount }) info
  ok acc
accept_step h env info (token contract_addr) amount (msgs, insufficient) = do
  allowance ← h.query_allowance contract_addr info.sender env.contract_address
  ok (
      if ltb allowance amount then (msgs, true) else (
        msgs
            ++ (wasm_execute contract_addr
                  (cw20_transfer_from info.sender env.contract_address amount) []
                ∷ []),
        insufficient,
      ))

accept_loop :
    Host → Env → MessageInfo → List Asset → List CosmosMsg × Bool → Result (List CosmosMsg × Bool)
accept_loop h env info [] acc = ok acc
accept_loop h env info (a ∷ assets) acc =
    accept_step h env info a.info a.amount acc >>= λ acc'. accept_loop h env info assets acc'

unfoldable pub validate_and_accept_incoming_asset_transfer :
    Host → Env → MessageInfo → List Asset → Result (List CosmosMsg)
unfolding accept_loop accept_step
validate_and_accept_incoming_asset_transfer h env info assets = do
  (msgs, insufficient) ← accept_loop h env info assets ([], false)
  if insufficient then err (generic_err "insufficient cw20 token allowance") else ok msgs
