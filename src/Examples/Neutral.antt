-- ===== src/Examples/Neutral.antt =====
-- Runs of the delta-neutral manager: a position is opened with 1000 uusd, and the admin allows a
-- mirror asset.
use position_managers.Prelude.{ℕ, String, ◌≡◌, refl, true, false, none, some, [], ◌∷◌}
use position_managers.Cosmwasm.{Addr, Bytes, Result, ok, err, panic}
use position_managers.Common.{Position, PositionKey, key_eq, get_position_key}
use position_managers.Message.{
  DeltaNeutralParams, wasm_execute, wasm_instantiate, ReplyOn, plain, position_open, Response,
  send_open_position_to_position_contract, plain_messages,
}
use position_managers.AnchorEarnProxy.{uusd, uusd_coin}
use position_managers.DeltaNeutralManager.State.{AdminConfig, Context, State, Codes}
use position_managers.DeltaNeutralManager.Settings.{
  assert_admin, save_allowed, update_position_open_mirror_asset_list,
}
use position_managers.DeltaNeutralManager.Contract.{
  open_new_position, instantiate_reply_id, validate_assets, is_enough_uusd, execute,
  send_open_position_msg, update_position_open_mirror_asset_list_msg, returned, reply, reply_data,
  instantiated_address,
}
use position_managers.DeltaNeutralManager.Opening.{
  Opened, open_new_position-Opened, open-then-reply,
}
use position_managers.DeltaNeutralManager.Access.{Authorised, execute-Authorised}
use position_managers.Examples.Data.{host, env, from}

program : Unit {0}
unfolding open_new_position validate_assets is_enough_uusd execute reply reply_data
    instantiated_address assert_admin save_allowed update_position_open_mirror_asset_list
program = tt

abbrev outcome {ℓ} : {A : Type ℓ} → A → Result A → A
outcome d (ok a) = a
outcome d (err e) = d
outcome d panic = d

abbrev pub params : DeltaNeutralParams
params = record {
  target_min_collateral_ratio = 2_300_000_000_000_000_000;
  target_max_collateral_ratio = 2_700_000_000_000_000_000;
  mirror_asset_cw20_addr = "mAAPL";
  allow_off_market_position_open = none;
}

abbrev codes : Codes
codes = record {
  params_from_binary = λ payload. ok params;
  parse_instantiate_response = λ bytes. some "position_contract";
  query_code_id = λ contract. some 122;
}

abbrev pub context : Context
context = record {
  controller = "controller";
  anchor_ust_cw20_addr = "anchor_ust_cw20";
  mirror_cw20_addr = "mirror_cw20";
  spectrum_cw20_addr = "spectrum_cw20";
  anchor_market_addr = "anchor_market";
  mirror_collateral_oracle_addr = "mirror_collateral_oracle";
  mirror_lock_addr = "mirror_lock";
  mirror_mint_addr = "mirror_mint";
  mirror_oracle_addr = "mirror_oracle";
  mirror_staking_addr = "mirror_staking";
  spectrum_gov_addr = "spectrum_gov";
  spectrum_mirror_farms_addr = "spectrum_mirror_farms";
  spectrum_staker_addr = "spectrum_staker";
  terraswap_factory_addr = "terraswap_factory";
  astroport_factory_addr = "astroport_factory";
  collateral_ratio_safety_margin = 300_000_000_000_000_000;
  min_open_uusd_amount = 500;
  min_reinvest_uusd_amount = 10;
}

abbrev pub start : State
start = record {
  context = some context;
  fee_collection_config = none;
  admin_config =
      some (record {
        admin = "admin";
        terra_manager = "manager";
        delta_neutral_position_code_id = 123;
      });
  tmp_position = none;
  position_to_contract_addr = λ key. none;
  position_open_allowed_mirror_assets = λ mirror_asset. some true;
  should_preemptively_close_cdp_mirror_assets = λ mirror_asset. none;
}

abbrev pub position : Position
position = record { chain_id = 3; position_id = 4 }

abbrev opened : Response × State
opened =
    outcome ([], start)
      (open_new_position host start env (from "manager") position params (uusd 1000 ∷ []))

abbrev replied : Response × State
replied = outcome ([], start) (reply host codes opened.1 (returned (some [])))

replied_contract :
    replied.1.position_to_contract_addr (get_position_key position) ≡ some "position_contract"
unfolding program
replied_contract = refl

open_new_position-Opened_example :
    Opened start env position params (uusd 1000 ∷ []) opened.0 opened.1
unfolding program
open_new_position-Opened_example =
    open_new_position-Opened host start env (from "manager") position params (uusd 1000 ∷ [])
      opened.0 opened.1 refl

open-then-reply_example :
    (config : AdminConfig) × (bytes : Bytes) × (address : String) × (contract_addr : Addr)
    × (amount : ℕ) × (uusd 1000 ∷ [] ≡ uusd amount ∷ [])
    × (start.admin_config ≡ some config)
    × (reply_data (returned (some [])) ≡ ok bytes)
    × (instantiated_address codes bytes ≡ ok address)
    × (host.addr_validate address ≡ ok contract_addr)
    × (opened.0
        ≡ record {
          id = instantiate_reply_id;
          msg = wasm_instantiate env.contract_address config.delta_neutral_position_code_id;
          reply_on = ReplyOn.success;
        }
          ∷ plain (
              wasm_execute env.contract_address
                (send_open_position_to_position_contract position params amount)
                [])
          ∷ [])
    × (replied.1.position_to_contract_addr (get_position_key position) ≡ some contract_addr)
    × ((key : PositionKey)
        → key_eq (get_position_key position) key ≡ false
        → replied.1.position_to_contract_addr key ≡ start.position_to_contract_addr key)
    × (execute host codes replied.1 env
          (record { sender = env.contract_address; funds = [] })
          (send_open_position_msg position params amount)
        ≡ ok (
          plain_messages
              (wasm_execute contract_addr (position_open params) (uusd_coin amount ∷ []) ∷ []),
          replied.1,
        ))
unfolding program
open-then-reply_example =
    open-then-reply host codes start env (from "manager") position params (uusd 1000 ∷ [])
      (returned (some [])) opened.0 replied.0 opened.1 replied.1 refl refl

abbrev allowed : Response × State
allowed =
    outcome ([], start)
      (execute host codes start env (from "admin")
        (update_position_open_mirror_asset_list_msg ("mGOOG" ∷ "mTSLA" ∷ []) false))

execute-Authorised_example :
    Authorised start env
      (from "admin")
      (update_position_open_mirror_asset_list_msg ("mGOOG" ∷ "mTSLA" ∷ []) false)
      allowed.1
unfolding program
execute-Authorised_example =
    execute-Authorised host codes start env (from "admin")
      (update_position_open_mirror_asset_list_msg ("mGOOG" ∷ "mTSLA" ∷ []) false) allowed.0
      allowed.1 refl
