-- ===== src/DeltaNeutralPosition/Payments.antt =====
-- What the handlers of contracts/delta_neutral_position/src/contract.rs pay, against the balances.
use native.Mathlib.Nat.{div-mul-le_self, mul-le-mul_left, mul_comm}
use position_managers.Prelude.{
  ℕ, ◌+◌, ◌*◌, ◌/◌, ◌^◌, ◌≤◌, ◌≡◌, ◌≢◌, refl, sym, ap, ◌⊎◌, inl, inr, false, Option, none, some,
  List, [], ◌∷◌, ◌++◌, unwrap_or, leb, ltb, ◌==◌, ==_iff, Bool-cases, arith, if◌then◌else◌,
}
use position_managers.Cosmwasm.{
  Addr, ok, ok-injective, chain, branch, guarded-elim, load, load-eq-ok, sub_128, sub_128-eq, Env,
}
use position_managers.Common.{Recipient}
use position_managers.Message.{
  CosmosMsg, wasm_execute, wasm_instantiate, wasm_migrate, bank_send, DeltaNeutralParams,
  sanity_check, initiate_outgoing_token_transfer, Response, plain_messages,
}
use position_managers.AnchorEarnProxy.{decimal_one, uusd, uusd_coin}
use position_managers.DeltaNeutralManager.State.{AdminConfig, Context, FeeCollectionConfig}
use position_managers.DeltaNeutralManager.Rebalance.{
  PositionState, TargetCollateralRatioRange, is_some,
}
use position_managers.Chain.{Chain, ChainLaws}
use position_managers.DeltaNeutralPosition.Math.{times}
use position_managers.DeltaNeutralPosition.State.{State}
use position_managers.DeltaNeutralPosition.Util.{
  get_uusd_balance, get_fee_collection_config_from_manager,
}
use position_managers.DeltaNeutralPosition.Open.{delta_neutral_invest}
use position_managers.DeltaNeutralPosition.Closing.{
  create_internal_execute_message, record_close, send_uusd_to_recipient,
}
use position_managers.DeltaNeutralPosition.Liquidity.{provide_amounts}
use position_managers.DeltaNeutralPosition.Opening.{
  service_fee_messages, open_on_market, open_off_market, open_with_rate, open_position,
}
use position_managers.DeltaNeutralPosition.Spending.{total, spent}
use position_managers.DeltaNeutralPosition.Investing.{delta_neutral_invest-Invested}

spent-++ : (ms ns : List CosmosMsg) → spent (ms ++ ns) ≡ spent ms + spent ns
unfolding spent
spent-++ [] ns = omega arith
spent-++ (wasm_execute contract_addr msg funds ∷ ms) ns = let h = spent-++ ms ns in omega arith
spent-++ (bank_send to_address amount ∷ ms) ns = let h = spent-++ ms ns in omega arith
spent-++ (wasm_instantiate admin code_id ∷ ms) ns = spent-++ ms ns
spent-++ (wasm_migrate contract_addr code_id ∷ ms) ns = spent-++ ms ns

-- The messages of a response send no more than a balance.
abbrev pub WithinBalance : ℕ → Response → Type 0
WithinBalance balance r =
    (messages : List CosmosMsg) × (r ≡ plain_messages messages) × (spent messages ≤ balance)

service_fee-spent :
    (config : FeeCollectionConfig)
    → spent (service_fee_messages config) ≡ config.off_market_position_open_service_fee_uusd
unfolding service_fee_messages spent total
service_fee-spent config =
    elim (Bool-cases (config.off_market_position_open_service_fee_uusd == 0)) [
      | inl free ↦ rw free (ground arith)
      | inr due ↦ rw due (omega arith)
    ]

open_with_rate-WithinBalance :
    (c : Chain) (s : State) (env : Env) (context : Context) (params : DeltaNeutralParams)
    (balance : ℕ) (range : TargetCollateralRatioRange) (mirror_asset : Addr) (rate : Option ℕ)
    (r : Response) (t : State)
    → ChainLaws c
    → open_with_rate c s env context params balance range mirror_asset rate ≡ ok (r, t)
    → WithinBalance balance r
unfolding open_with_rate open_on_market open_off_market spent total
open_with_rate-WithinBalance c s env context params balance range mirror_asset (some rate) r t laws
      e =
    chain (c.next_position_idx context.mirror_mint_addr) _ e λ idx e₁ e.
      chain (delta_neutral_invest c env context balance range mirror_asset rate none) _ e
        λ messages e₂ e.
          let checking = create_internal_execute_message env sanity_check ∷ [] in
          (
            messages ++ checking,
            sym (ap (λ (p : Response × State). p.0) (ok-injective e)),
            rw (spent-++ messages checking) (
                let h =
                  (delta_neutral_invest-Invested c env context balance range mirror_asset rate none
                    messages laws e₂).within_budget in
                omega arith),
          )
open_with_rate-WithinBalance c s env context params balance range mirror_asset none r t laws e =
    branch (unwrap_or params.allow_off_market_position_open false) _ _ e
      (λ allowed e. chain (get_fee_collection_config_from_manager c s) _ e λ config e₁ e.
        chain (sub_128 balance config.off_market_position_open_service_fee_uusd) _ e λ deposit e₂ e.
          (
            _,
            sym (ap (λ (p : Response × State). p.0) (ok-injective e)),
            rw (spent-++ (service_fee_messages config) _, service_fee-spent config)
                (let h =
                    sub_128-eq balance config.off_market_position_open_service_fee_uusd deposit
                      e₂ in
                  omega arith),
          ))
      (λ refused e. absurd (cc))

-- Opening a position sends no more uusd than the contract holds, on the market and off it, the fee
-- for an opening off the market included. The arithmetic is as documented.
pub open_position-WithinBalance :
    (c : Chain) (s : State) (env : Env) (context : Context) (params : DeltaNeutralParams)
    (balance : ℕ) (r : Response) (t : State)
    → ChainLaws c
    → get_uusd_balance c env ≡ ok balance
    → open_position c s env context params ≡ ok (r, t)
    → WithinBalance balance r
unfolding open_position
open_position-WithinBalance c s env context params balance r t laws holds e =
    guarded-elim (is_some s.position_open_info) _ _ e λ fresh e.
      guarded-elim (ltb balance context.min_open_uusd_amount) _ _ (rw holds at e) λ enough e.
        chain (c.host.addr_validate params.mirror_asset_cw20_addr) _ e λ mirror_asset e₁ e.
          open_with_rate-WithinBalance c _ env context params balance _ mirror_asset _ r t laws e

part_le : (balance proportion : ℕ) → proportion ≤ 10 ^ 18 → balance * proportion / 10 ^ 18 ≤ balance
part_le balance proportion h = let q = mul-le-mul_left balance h in omega arith

-- What the storage is after some uusd was sent: closed, with the block and the amount, if the
-- proportion is one, and as it was if it is not.
abbrev pub ClosedIfAll : State → Env → ℕ → ℕ → State → Type 0
ClosedIfAll s env proportion amount t =
    ((proportion ≡ decimal_one)
      × (t ≡ record s {
        position_close_info = some (record {
          height = env.block_height;
          time_nanoseconds = env.block_time_nanos;
          uusd_amount = amount;
        });
      }))
    ⊎ ((proportion ≢ decimal_one) × (t ≡ s))

record_close-ClosedIfAll :
    (s : State) (env : Env) (proportion amount : ℕ)
    → ClosedIfAll s env proportion amount (record_close s env proportion amount)
unfolding record_close
record_close-ClosedIfAll s env proportion amount = elim (Bool-cases (proportion == decimal_one)) [
  | inl all ↦ inl ((==_iff proportion decimal_one).0 all, rw all refl)
  | inr part ↦
      inr ((λ all. absurd (let yes = (==_iff proportion decimal_one).1 all in cc)), rw part refl)
]

-- What is sent: nothing, or one message that hands the amount to the Terra manager for the recipient.
abbrev pub Handed : Chain → State → Recipient → ℕ → Response → Type 0
Handed c s recipient amount r =
    ((amount ≡ 0) × (r ≡ []))
    ⊎ ((manager : Addr) × (config : AdminConfig) × (s.manager ≡ some manager)
        × (c.manager_admin_config manager ≡ ok config)
        × (r
            ≡ plain_messages (
                wasm_execute config.terra_manager
                  (initiate_outgoing_token_transfer (uusd amount ∷ []) recipient)
                  (uusd_coin amount ∷ [])
                ∷ [])))

-- Sending a proportion of the uusd, at most all of it, hands that part of the balance, rounded down
-- and so no more than there is, to the Terra manager for the recipient, in one message, or in none
-- if it is zero. It closes the position, with the block and the amount, if the proportion is one;
-- otherwise the storage stays as it was. The arithmetic is as documented.
pub send_uusd_to_recipient-WithinBalance :
    (c : Chain) (s : State) (env : Env) (proportion : ℕ) (recipient : Recipient) (balance : ℕ)
    (r : Response) (t : State)
    → ChainLaws c
    → proportion ≤ decimal_one
    → get_uusd_balance c env ≡ ok balance
    → send_uusd_to_recipient c s env proportion recipient ≡ ok (r, t)
    → (amount : ℕ) × (amount ≡ balance * proportion / 10 ^ 18)
      × (amount ≤ balance)
      × WithinBalance balance r
      × Handed c s recipient amount r
      × ClosedIfAll s env proportion amount t
unfolding send_uusd_to_recipient spent total
send_uusd_to_recipient-WithinBalance c s env proportion recipient balance r t laws small holds e =
    chain (times c balance proportion) _ (rw holds at e) λ amount e₁ e.
      let part = laws.multiplies balance proportion amount e₁ in
      let amount_le : amount ≤ balance = rw part (part_le balance proportion small) in
      let closes = record_close-ClosedIfAll s env proportion amount in
      branch (amount == 0) _ _ e
        (λ nothing e.
          let is_r = sym (ap (λ (p : Response × State). p.0) (ok-injective e)) in
          let is_t = sym (ap (λ (p : Response × State). p.1) (ok-injective e)) in
          (
            amount,
            part,
            amount_le,
            ([], is_r, omega arith),
            inl ((==_iff amount 0).0 nothing, is_r),
            rw is_t closes,
          ))
        (λ some_amount e. chain (load s.manager) _ e λ manager e₂ e.
          chain (c.manager_admin_config manager) _ e λ config e₃ e.
            let is_r = sym (ap (λ (p : Response × State). p.0) (ok-injective e)) in
            let is_t = sym (ap (λ (p : Response × State). p.1) (ok-injective e)) in
            (
              amount,
              part,
              amount_le,
              (_ ∷ [], is_r, omega arith),
              inr (manager, config, load-eq-ok _ e₂, e₃, is_r),
              rw is_t closes,
            ))

least_left : (a b : ℕ) → (if leb a b then a else b) ≤ a
least_left a b = ground arith

least_right : (a b : ℕ) → (if leb a b then a else b) ≤ b
least_right a b = ground arith

covered :
    (balance pool own ratio : ℕ)
    → own ≡ balance * 10 ^ 18 / pool
    → ratio ≤ own
    → pool * ratio / 10 ^ 18 ≤ balance
covered balance pool own ratio is_own le =
    let product : pool * ratio ≤ pool * own = mul-le-mul_left pool le in
    let fits : own * pool ≤ balance * 10 ^ 18 =
      rw is_own (div-mul-le_self (balance * 10 ^ 18) pool) in
    let turned : pool * own ≡ own * pool = mul_comm pool own in omega arith

-- What is paired for liquidity is no more than the position holds, of uusd and of the mirror asset.
-- The arithmetic is as documented.
pub provide_amounts-bounded :
    (c : Chain) (state : PositionState) (uusd_amount mirror_asset_amount : ℕ)
    → ChainLaws c
    → provide_amounts c state ≡ ok (uusd_amount, mirror_asset_amount)
    → (uusd_amount ≤ state.uusd_balance) × (mirror_asset_amount ≤ state.mirror_asset_balance)
unfolding provide_amounts
provide_amounts-bounded c state uusd_amount mirror_asset_amount laws e =
    let info = state.terraswap_pool_info in
    chain (c.from_ratio state.uusd_balance info.terraswap_pool_uusd_amount) _ e λ uusd_ratio e₁ e.
      chain (c.from_ratio state.mirror_asset_balance info.terraswap_pool_mirror_asset_amount) _ e
        λ mirror_ratio e₂ e.
          let ratio = if leb uusd_ratio mirror_ratio then uusd_ratio else mirror_ratio in
          chain (times c info.terraswap_pool_uusd_amount ratio) _ e λ uusd e₃ e.
            chain (times c info.terraswap_pool_mirror_asset_amount ratio) _ e λ mirror_asset e₄ e. (
              rw
                  (
                    sym (ap (λ (p : ℕ × ℕ). p.0) (ok-injective e)),
                    laws.multiplies info.terraswap_pool_uusd_amount ratio uusd e₃,
                  )
                  (covered state.uusd_balance info.terraswap_pool_uusd_amount uusd_ratio ratio
                    (laws.ratio state.uusd_balance info.terraswap_pool_uusd_amount uusd_ratio e₁)
                    (least_left uusd_ratio mirror_ratio)),
              rw
                  (
                    sym (ap (λ (p : ℕ × ℕ). p.1) (ok-injective e)),
                    laws.multiplies info.terraswap_pool_mirror_asset_amount ratio mirror_asset e₄,
                  )
                  (covered state.mirror_asset_balance info.terraswap_pool_mirror_asset_amount
                    mirror_ratio ratio
                    (laws.ratio state.mirror_asset_balance info.terraswap_pool_mirror_asset_amount
                      mirror_ratio e₂)
                    (least_right uusd_ratio mirror_ratio)),
            )
