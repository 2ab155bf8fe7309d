-- ===== src/DeltaNeutralManager/Decision/Judging.antt =====
-- The rebalance query, from its last test to its first.
use position_managers.Prelude.{
  ℕ, ◌≡◌, refl, sym, inl, inr, false, not, ◌&&◌, ◌||◌, some, unwrap_or, ltb, ltb-eq-false,
}
use position_managers.Cosmwasm.{
  Addr, ok, load, unwrap, chain, branch, load-eq-ok, add_128, add_128-eq,
}
use position_managers.Common.{Position, get_position_key}
use position_managers.Host.{Host}
use position_managers.DeltaNeutralManager.State.{Context, State}
use position_managers.DeltaNeutralManager.Rebalance.{
  DetailedPositionInfo, PositionInfo, AssetConfig, Mirror, get_mirror_asset_fresh_oracle_uusd_rate,
  is_some, is_mirror_asset_delisted, ShouldCall, is_liquidated, is_pending_unlock, difference,
  liquid_uusd, judge_amounts, judge_ratio, judge_asset, judge_position, judge,
  query_should_call_rebalance_and_reinvest,
}
use position_managers.DeltaNeutralManager.Decision.{IsBalanced, IsInRange, InGoodShape, MayRest}
use position_managers.DeltaNeutralManager.Decision.Tests.{
  passed, unwrap-eq-ok, is_some-eq-false, is_some-eq-true, not-is_some, rate_of-eq-none,
  is_liquidated-eq-false, or-eq-false, unwrap_or-eq-false, within-IsLocked, difference-le,
  liquid_uusd-eq,
}

module _ (h : Host) (m : Mirror) (tolerance threshold : ℕ) (contract : Addr) where
  judge_amounts-IsBalanced :
      (detailed : DetailedPositionInfo) (a : ShouldCall)
      → judge_amounts h m tolerance threshold contract detailed ≡ ok a
      → a.should_call ≡ false
      → IsBalanced h tolerance threshold detailed
  unfolding judge_amounts
  judge_amounts-IsBalanced detailed a e alone = chain (unwrap detailed.state) _ e λ state e₁ e.
      let long = state.mirror_asset_long_amount in
      let short = state.mirror_asset_short_amount in
      chain (h.mul_decimal long tolerance) _ e λ tolerated e₂ e.
        passed (ltb tolerated (difference long short)) _ _ alone refl e λ balanced e.
          chain (liquid_uusd detailed state) _ e λ liquid e₃ e.
            chain (h.mul_decimal detailed.uusd_value threshold) _ e λ limit e₄ e.
              passed (ltb limit liquid && not (is_pending_unlock detailed)) _ _ alone refl e
                λ invested e.
                  let (not_long, not_short) =
                    difference-le long short tolerated (ltb-eq-false _ _ balanced) in
                  record {
                    state = state;
                    tolerated = tolerated;
                    limit = limit;
                    state_is = unwrap-eq-ok _ e₁;
                    tolerated_is = e₂;
                    not_long = not_long;
                    not_short = not_short;
                    limit_is = e₄;
                    invested =
                        rw (sym (liquid_uusd-eq detailed state liquid e₃))
                          (within-IsLocked limit liquid detailed invested);
                  }

  judge_ratio-IsInRange :
      (context : Context) (config : AssetConfig) (detailed : DetailedPositionInfo) (a : ShouldCall)
      → judge_ratio h m tolerance threshold contract context config detailed ≡ ok a
      → a.should_call ≡ false
      → IsInRange context config detailed × IsBalanced h tolerance threshold detailed
  unfolding judge_ratio
  judge_ratio-IsInRange context config detailed a e alone =
      let range = detailed.target_collateral_ratio_range in
      chain (add_128 config.min_collateral_ratio context.collateral_ratio_safety_margin) _ e
        λ required e₁ e. passed (ltb range.min required) _ _ alone refl e λ safe e.
          chain (unwrap detailed.collateral_ratio) _ e λ ratio e₂ e.
            passed (ltb ratio range.min) _ _ alone refl e λ not_below e.
              passed (ltb range.max ratio && not (is_pending_unlock detailed)) _ _ alone refl e
                λ not_above e. (
                  record {
                    ratio = ratio;
                    ratio_is = unwrap-eq-ok _ e₂;
                    safe_target =
                        rw
                          (sym (
                            add_128-eq config.min_collateral_ratio
                              context.collateral_ratio_safety_margin required e₁))
                          (ltb-eq-false _ _ safe);
                    not_below = ltb-eq-false _ _ not_below;
                    not_above = within-IsLocked range.max ratio detailed not_above;
                  },
                  judge_amounts-IsBalanced detailed a e alone,
                )

  judge_asset-InGoodShape :
      (s : State) (context : Context) (info : PositionInfo) (detailed : DetailedPositionInfo)
      (cdp_idx : ℕ) (a : ShouldCall)
      → info.cdp_idx ≡ some cdp_idx
      → is_liquidated m context info.cdp_idx ≡ false
      → judge_asset h m tolerance threshold contract s context info detailed ≡ ok a
      → a.should_call ≡ false
      → InGoodShape h m s context info tolerance threshold detailed
  unfolding judge_asset
  judge_asset-InGoodShape s context info detailed cdp_idx a cdp_is known e alone =
      chain (m.query_asset_config context.mirror_mint_addr info.mirror_asset_cw20_addr) _ e
        λ config e₁ e.
          passed
            (unwrap_or (s.should_preemptively_close_cdp_mirror_assets info.mirror_asset_cw20_addr)
                false
              || is_mirror_asset_delisted config)
            _ _ alone refl e
            λ keep e.
              let (not_to_be_closed, listed) = or-eq-false _ _ keep in
              let (in_range, balanced) = judge_ratio-IsInRange context config detailed a e alone in
              let (cdp, cdp_known) =
                is_liquidated-eq-false m context info.cdp_idx cdp_idx known cdp_is in
              record {
                cdp_idx = cdp_idx;
                cdp = cdp;
                config = config;
                cdp_is = cdp_is;
                cdp_known = cdp_known;
                config_is = e₁;
                not_to_be_closed = unwrap_or-eq-false _ not_to_be_closed;
                listed = is_some-eq-false _ listed;
                in_range = in_range;
                balanced = balanced;
              }

  judge-MayRest :
      (s : State) (info : PositionInfo) (a : ShouldCall)
      → judge h m tolerance threshold contract s info ≡ ok a
      → a.should_call ≡ false
      → MayRest h m s tolerance threshold info
  unfolding judge judge_position
  judge-MayRest s info a e alone =
      branch (is_some info.position_close_info) _ _ e (λ closed e. inl (is_some-eq-true _ closed))
        (λ not_closed e. chain (unwrap info.detailed_info) _ e λ detailed e₁ e. inr (
          detailed,
          unwrap-eq-ok _ e₁,
          branch detailed.cdp_preemptively_closed _ _ e (λ kept e. inl kept)
              (λ not_kept e. chain (load s.context) _ e λ context e₂ e. inr (
                context,
                load-eq-ok _ e₂,
                passed (is_liquidated m context info.cdp_idx) _ _ alone refl e λ known e.
                    branch
                      (not (
                        is_some (
                          get_mirror_asset_fresh_oracle_uusd_rate m context
                            info.mirror_asset_cw20_addr)))
                      _ _ e (λ stale e. inl (rate_of-eq-none _ stale))
                      (λ fresh e. passed (not (is_some info.cdp_idx)) _ _ alone refl e λ has_cdp e.
                        let (cdp_idx, cdp_is) = not-is_some info.cdp_idx has_cdp in
                        inr (
                          judge_asset-InGoodShape s context info detailed cdp_idx a cdp_is known e
                            alone)),
              )),
        ))

-- The query leaves a position alone only if it has a contract, and the position is closed, or its
-- debt position was closed ahead of time, or its mirror asset has no price of the last minute, or it
-- is in good shape: Mirror knows its debt position, its mirror asset is listed and not to be closed,
-- its target range keeps the safety margin, its collateral ratio is in the range, the long and the
-- short side differ by no more than is tolerated, and no more uusd than the threshold is idle. Of the
-- ratio's upper bound and the idle uusd, short proceeds that are still locked excuse a breach.
pub query-MayRest :
    (h : Host) (m : Mirror) (s : State) (position : Position) (tolerance threshold : ℕ)
    (a : ShouldCall)
    → query_should_call_rebalance_and_reinvest h m s position tolerance threshold ≡ ok a
    → a.should_call ≡ false
    → (contract : Addr) × (info : PositionInfo) × (s.position_to_contract_addr
          (get_position_key position)
        ≡ some contract)
      × (m.query_position_info contract ≡ ok info)
      × MayRest h m s tolerance threshold info
unfolding query_should_call_rebalance_and_reinvest
query-MayRest h m s position tolerance threshold a e alone =
    chain (load (s.position_to_contract_addr (get_position_key position))) _ e λ contract e₁ e.
      chain (m.query_position_info contract) _ e λ info e₂ e. (
        contract,
        info,
        load-eq-ok _ e₁,
        e₂,
        judge-MayRest h m tolerance threshold contract s info a e alone,
      )
