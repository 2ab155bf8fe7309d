-- ===== src/DeltaNeutralManager/Settings.antt =====
-- contracts/delta_neutral_position_manager/src/contract.rs: instantiation, migration, and the
-- operations with which the admin changes settings.
use position_managers.Prelude.{
  ℕ, String, Bool, true, not, Option, none, some, List, [], ◌∷◌, unwrap_or, str_eq,
}
use position_managers.Cosmwasm.{
  Addr, Result, ok, ◌>>=◌, ◌>>◌, fail_if, load, generic_err, MessageInfo,
}
use position_managers.Message.{Response}
use position_managers.Host.{Host}
use position_managers.AnchorEarnProxy.{validated_or}
use position_managers.DeltaNeutralManager.State.{
  AdminConfig, Context, FeeCollectionConfig, State, save_text,
}

pub record InstantiateMsg : Type 0 where
  pub admin_addr : String
  pub terra_manager_addr : String
  pub delta_neutral_position_code_id : ℕ
  pub controller : String
  pub anchor_ust_cw20_addr : String
  pub mirror_cw20_addr : String
  pub spectrum_cw20_addr : String
  pub anchor_market_addr : String
  pub mirror_collateral_oracle_addr : String
  pub mirror_lock_addr : String
  pub mirror_mint_addr : String
  pub mirror_oracle_addr : String
  pub mirror_staking_addr : String
  pub spectrum_gov_addr : String
  pub spectrum_mirror_farms_addr : String
  pub spectrum_staker_addr : String
  pub terraswap_factory_addr : String
  pub astroport_factory_addr : String
  pub collateral_ratio_safety_margin : ℕ
  pub min_open_uusd_amount : ℕ
  pub min_reinvest_uusd_amount : ℕ
  pub fee_collection_config : FeeCollectionConfig

-- The context, with every address validated.
unfoldable pub context_of : Host → InstantiateMsg → Result Context
context_of h msg = do
  controller ← h.addr_validate msg.controller
  anchor_ust ← h.addr_validate msg.anchor_ust_cw20_addr
  mirror ← h.addr_validate msg.mirror_cw20_addr
  spectrum ← h.addr_validate msg.spectrum_cw20_addr
  anchor_market ← h.addr_validate msg.anchor_market_addr
  collateral_oracle ← h.addr_validate msg.mirror_collateral_oracle_addr
  lock ← h.addr_validate msg.mirror_lock_addr
  mint ← h.addr_validate msg.mirror_mint_addr
  oracle ← h.addr_validate msg.mirror_oracle_addr
  staking ← h.addr_validate msg.mirror_staking_addr
  gov ← h.addr_validate msg.spectrum_gov_addr
  farms ← h.addr_validate msg.spectrum_mirror_farms_addr
  staker ← h.addr_validate msg.spectrum_staker_addr
  terraswap ← h.addr_validate msg.terraswap_factory_addr
  astroport ← h.addr_validate msg.astroport_factory_addr
  ok (record {
    controller = controller;
    anchor_ust_cw20_addr = anchor_ust;
    mirror_cw20_addr = mirror;
    spectrum_cw20_addr = spectrum;
    anchor_market_addr = anchor_market;
    mirror_collateral_oracle_addr = collateral_oracle;
    mirror_lock_addr = lock;
    mirror_mint_addr = mint;
    mirror_oracle_addr = oracle;
    mirror_staking_addr = staking;
    spectrum_gov_addr = gov;
    spectrum_mirror_farms_addr = farms;
    spectrum_staker_addr = staker;
    terraswap_factory_addr = terraswap;
    astroport_factory_addr = astroport;
    collateral_ratio_safety_margin = msg.collateral_ratio_safety_margin;
    min_open_uusd_amount = msg.min_open_uusd_amount;
    min_reinvest_uusd_amount = msg.min_reinvest_uusd_amount;
  })

unfoldable pub instantiate : Host → InstantiateMsg → Result (Response × State)
instantiate h msg = do
  admin ← h.addr_validate msg.admin_addr
  terra_manager ← h.addr_validate msg.terra_manager_addr
  context ← context_of h msg
  ok (
    [],
    record {
      context = some context;
      fee_collection_config = some msg.fee_collection_config;
      admin_config = some (record {
        admin = admin;
        terra_manager = terra_manager;
        delta_neutral_position_code_id = msg.delta_neutral_position_code_id;
      });
      tmp_position = none;
      position_to_contract_addr = λ key. none;
      position_open_allowed_mirror_assets = λ mirror_asset. none;
      should_preemptively_close_cdp_mirror_assets = λ mirror_asset. none;
    },
  )

-- The check with which every operation of the admin begins.
unfoldable pub assert_admin : State → MessageInfo → Result AdminConfig
assert_admin s info = do
  config ← load s.admin_config
  fail_if (not (str_eq info.sender config.admin)) (generic_err "unauthorized")
  ok config

unfoldable pub update_admin_config :
    Host
    → State
    → MessageInfo
    → Option String
    → Option String
    → Option ℕ
    → Result (Response × State)
update_admin_config h s info admin_addr terra_manager_addr code_id = do
  config ← assert_admin s info
  admin ← validated_or h admin_addr config.admin
  terra_manager ← validated_or h terra_manager_addr config.terra_manager
  ok (
    [],
    record s {
      admin_config = some (record {
        admin = admin;
        terra_manager = terra_manager;
        delta_neutral_position_code_id = unwrap_or code_id config.delta_neutral_position_code_id;
      });
    },
  )

unfoldable pub update_fee_collection_config :
    State → MessageInfo → FeeCollectionConfig → Result (Response × State)
update_fee_collection_config s info fee_collection_config = do
  assert_admin s info >>= λ config. ok tt
  ok ([], record s { fee_collection_config = some fee_collection_config })

-- Each of some mirror assets is marked as allowed, or as not allowed.
unfoldable pub save_allowed : List String → Bool → (String → Option Bool) → String → Option Bool
save_allowed [] allowed m = m
save_allowed (mirror_asset ∷ mirror_assets) allowed m =
    save_allowed mirror_assets allowed (save_text mirror_asset allowed m)

unfoldable pub update_position_open_mirror_asset_list :
    State → MessageInfo → List String → Bool → Result (Response × State)
update_position_open_mirror_asset_list s info mirror_assets allowed = do
  assert_admin s info >>= λ config. ok tt
  ok (
    [],
    record s {
      position_open_allowed_mirror_assets =
          save_allowed mirror_assets allowed s.position_open_allowed_mirror_assets;
    },
  )

unfoldable pub save_validated :
    Host → List String → (Addr → Option Bool) → Result (Addr → Option Bool)
save_validated h [] m = ok m
save_validated h (mirror_asset ∷ mirror_assets) m =
    h.addr_validate mirror_asset >>= λ addr. save_validated h mirror_assets (save_text addr true m)

unfoldable pub add_should_preemptively_close_cdp_mirror_asset_list :
    Host → State → MessageInfo → List String → Result (Response × State)
add_should_preemptively_close_cdp_mirror_asset_list h s info mirror_assets = do
  assert_admin s info >>= λ config. ok tt
  closing ← save_validated h mirror_assets s.should_preemptively_close_cdp_mirror_assets
  ok ([], record s { should_preemptively_close_cdp_mirror_assets = closing })

-- The optional fields of `UpdateContext`.
pub record ContextUpdate : Type 0 where
  pub controller : Option String
  pub mirror_collateral_oracle_addr : Option String
  pub mirror_oracle_addr : Option String
  pub collateral_ratio_safety_margin : Option ℕ
  pub min_open_uusd_amount : Option ℕ
  pub min_reinvest_uusd_amount : Option ℕ

unfoldable pub update_context :
    Host → State → MessageInfo → ContextUpdate → Result (Response × State)
update_context h s info u = do
  assert_admin s info >>= λ config. ok tt
  context ← load s.context
  controller ← validated_or h u.controller context.controller
  collateral_oracle ←
      validated_or h u.mirror_collateral_oracle_addr context.mirror_collateral_oracle_addr
  oracle ← validated_or h u.mirror_oracle_addr context.mirror_oracle_addr
  ok (
    [],
    record s {
      context = some (record context {
        controller = controller;
        mirror_collateral_oracle_addr = collateral_oracle;
        mirror_oracle_addr = oracle;
        collateral_ratio_safety_margin =
            unwrap_or u.collateral_ratio_safety_margin context.collateral_ratio_safety_margin;
        min_open_uusd_amount = unwrap_or u.min_open_uusd_amount context.min_open_uusd_amount;
        min_reinvest_uusd_amount =
            unwrap_or u.min_reinvest_uusd_amount context.min_reinvest_uusd_amount;
      });
    },
  )

-- `migrate` overwrites the fee configuration and allows more mirror assets.
unfoldable pub migrate : State → FeeCollectionConfig → List String → Response × State
migrate s fee_collection_config position_open_allowed_mirror_assets = (
  [],
  record s {
    fee_collection_config = some fee_collection_config;
    position_open_allowed_mirror_assets =
        save_allowed position_open_allowed_mirror_assets true s.position_open_allowed_mirror_assets;
  },
)
