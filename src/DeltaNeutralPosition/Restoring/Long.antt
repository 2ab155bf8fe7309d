-- ===== src/DeltaNeutralPosition/Restoring/Long.antt =====
-- A net long position in contracts/delta_neutral_position/src/rebalance.rs.
use position_managers.Prelude.{
  ℕ, ◌+◌, ◌-◌, ◌*◌, ◌/◌, ◌^◌, ◌≤◌, ◌<◌, ◌≡◌, refl, sym, ap, ◌∙◌, ◌⊎◌, inl, inr, Bool, true, false,
  List, [], ◌∷◌, ◌++◌, ltb, ltb→lt, ltb-eq-false, leb, leb→le, arith,
}
use position_managers.Cosmwasm.{
  Addr, ok, ok-injective, chain, branch, add_128, add_128-eq, sub_128, sub_128-eq,
}
use position_managers.Message.{CosmosMsg}
use position_managers.DeltaNeutralManager.State.{Context}
use position_managers.DeltaNeutralManager.Rebalance.{PositionState}
use position_managers.Chain.{Chain, ChainLaws}
use position_managers.DeltaNeutralPosition.Math.{times}
use position_managers.DeltaNeutralPosition.Dex.{swap_cw20_token_for_uusd}
use position_managers.DeltaNeutralPosition.Rebalance.Unbonding.{
  Farm, rounds, lp_token_amount_after_withdrawal,
}
use position_managers.DeltaNeutralPosition.Rebalance.NetLong.{
  Holdings, stays_long, is_not_short, withdrawal_of_long, withdraw_from_long, first_short_offer,
  rebalance_net_long,
}
use position_managers.DeltaNeutralPosition.Restoring.{
  Turns, search_leftmost-Turns, search_leftmost-Splits, share_grows, share_le, leb-eq-false,
  search_leftmost-le,
}

-- The mirror assets of the LP tokens that are left after a withdrawal, once all liquid mirror assets
-- are in the pool.
abbrev pub LongAfter : Chain → Farm → PositionState → ℕ → ℕ → Type 0
LongAfter c farm state withdrawn long_amount =
    let info = state.terraswap_pool_info in
    (lp_after : ℕ) × (lp_token_amount_after_withdrawal c farm info withdrawn ≡ ok lp_after)
    × (withdrawn ≤ info.lp_token_total_supply)
    × (long_amount
        ≡ (info.terraswap_pool_mirror_asset_amount + state.mirror_asset_balance)
          * (lp_after * 10 ^ 18 / (info.lp_token_total_supply - withdrawn))
          / 10 ^ 18)

abbrev pub StillLong : Chain → Farm → PositionState → ℕ → Type 0
StillLong c farm state withdrawn =
    (long_amount : ℕ) × LongAfter c farm state withdrawn long_amount
    × (state.mirror_asset_short_amount < long_amount)

abbrev pub NotLong : Chain → Farm → PositionState → ℕ → Type 0
NotLong c farm state withdrawn =
    (long_amount : ℕ) × LongAfter c farm state withdrawn long_amount
    × (long_amount ≤ state.mirror_asset_short_amount)

stays_long-LongAfter :
    (c : Chain) (farm : Farm) (state : PositionState) (withdrawn : ℕ) (long : Bool)
    → ChainLaws c
    → stays_long c farm state withdrawn ≡ ok long
    → (long_amount : ℕ) × LongAfter c farm state withdrawn long_amount
      × (ltb state.mirror_asset_short_amount long_amount ≡ long)
unfolding stays_long
stays_long-LongAfter c farm state withdrawn long laws e =
    let info = state.terraswap_pool_info in
    let supply = info.lp_token_total_supply in
    chain (add_128 info.terraswap_pool_mirror_asset_amount state.mirror_asset_balance) _ e
      λ pool e₁ e.
        chain (lp_token_amount_after_withdrawal c farm info withdrawn) _ e λ lp_after e₂ e.
          chain (sub_128 supply withdrawn) _ e λ left e₃ e.
            chain (c.from_ratio lp_after left) _ e λ ratio e₄ e.
              chain (times c pool ratio) _ e λ amount e₅ e.
                let (left_is, fits) = sub_128-eq supply withdrawn left e₃ in
                (
                  amount,
                  (
                    lp_after,
                    e₂,
                    fits,
                    laws.multiplies pool ratio amount e₅
                        ∙ rw
                            (
                              laws.ratio lp_after left ratio e₄,
                              left_is,
                              add_128-eq info.terraswap_pool_mirror_asset_amount
                                  state.mirror_asset_balance pool e₁,
                            )
                            refl,
                  ),
                  ok-injective e,
                )

-- The mirror assets of a position that has offered some of them: those kept, and its part of the
-- pool.
abbrev pub long_after_offer : Holdings → ℕ → ℕ
long_after_offer holdings offer =
    holdings.mirror_asset_balance
    - offer
    + (holdings.pool_mirror_asset_amount + offer)
      * (holdings.lp_token_amount * 10 ^ 18 / holdings.lp_token_total_supply)
      / 10 ^ 18

is_not_short-eq-ok :
    (c : Chain) (short : ℕ) (holdings : Holdings) (ratio offer : ℕ) (kept : Bool)
    → ChainLaws c
    → c.from_ratio holdings.lp_token_amount holdings.lp_token_total_supply ≡ ok ratio
    → is_not_short c short holdings ratio offer ≡ ok kept
    → leb short (long_after_offer holdings offer) ≡ kept
unfolding is_not_short
is_not_short-eq-ok c short holdings ratio offer kept laws is_ratio e =
    chain (add_128 holdings.pool_mirror_asset_amount offer) _ e λ pool e₁ e.
      chain (sub_128 holdings.mirror_asset_balance offer) _ e λ rest e₂ e.
        chain (times c pool ratio) _ e λ farm e₃ e. chain (add_128 rest farm) _ e λ sum e₄ e.
          let value : sum ≡ long_after_offer holdings offer =
            rw
              (
                add_128-eq rest farm sum e₄,
                laws.multiplies pool ratio farm e₃,
                (sub_128-eq holdings.mirror_asset_balance offer rest e₂).0,
                add_128-eq holdings.pool_mirror_asset_amount offer pool e₁,
                laws.ratio holdings.lp_token_amount holdings.lp_token_total_supply ratio is_ratio,
              )
              refl in
          rw (sym value) (ok-injective e)

-- Offering more leaves no more.
long_after_offer-antitone :
    (holdings : Holdings) (x y : ℕ)
    → holdings.lp_token_amount ≤ holdings.lp_token_total_supply
    → x ≤ y
    → y ≤ holdings.mirror_asset_balance
    → long_after_offer holdings y ≤ long_after_offer holdings x
long_after_offer-antitone holdings x y part le fits =
    let share = holdings.lp_token_amount * 10 ^ 18 / holdings.lp_token_total_supply in
    let grown =
      share_grows (holdings.pool_mirror_asset_amount + x) (y - x) share
        (share_le holdings.lp_token_amount holdings.lp_token_total_supply part) in
    let same : holdings.pool_mirror_asset_amount + x + (y - x)
        ≡ holdings.pool_mirror_asset_amount + y =
      omega arith in
    let grown' = rw same at grown in omega arith

-- The first offer that leaves a position net short: no smaller one does, and every larger one.
abbrev pub TurnsShort : ℕ → Holdings → ℕ → Type 0
TurnsShort short holdings first_short =
    ((offer : ℕ) → offer < first_short → short ≤ long_after_offer holdings offer)
    × ((offer : ℕ)
        → first_short ≤ offer
        → offer ≤ holdings.mirror_asset_balance
        → long_after_offer holdings offer < short)
    × (first_short ≤ holdings.mirror_asset_balance + 1)

first_short_offer-TurnsShort :
    (c : Chain) (short : ℕ) (holdings : Holdings) (first_short : ℕ)
    → ChainLaws c
    → holdings.lp_token_amount ≤ holdings.lp_token_total_supply
    → first_short_offer c short holdings ≡ ok first_short
    → TurnsShort short holdings first_short
unfolding first_short_offer
first_short_offer-TurnsShort c short holdings first_short laws part e =
    chain (add_128 holdings.mirror_asset_balance 1) _ e λ top e₃ e₄.
      chain (c.from_ratio holdings.lp_token_amount holdings.lp_token_total_supply) _ e₄
        λ ratio e₅ turned.
          let top_is = add_128-eq holdings.mirror_asset_balance 1 top e₃ in
          let (before, from) =
            search_leftmost-Splits (is_not_short c short holdings ratio)
              (λ x. short ≤ long_after_offer holdings x) (λ x. long_after_offer holdings x < short)
              top (λ x h. leb→le _ _ (is_not_short-eq-ok c short holdings ratio x true laws e₅ h))
              (λ x h.
                leb-eq-false _ _ (is_not_short-eq-ok c short holdings ratio x false laws e₅ h))
              rounds first_short
              (λ x y le lt h.
                let a = long_after_offer-antitone holdings x y part le (omega arith) in omega arith)
              (λ x y le lt h.
                let a = long_after_offer-antitone holdings x y part le (omega arith) in omega arith)
              turned in
          (
            before,
            (λ x le fits. from x le (omega arith)),
            rw (sym top_is) (
                search_leftmost-le (is_not_short c short holdings ratio) rounds top first_short
                  turned),
          )

-- What the withdrawal turns.
abbrev pub WithdrawalTurns : Chain → Farm → PositionState → ℕ → Type 0
WithdrawalTurns c farm state withdrawn =
    Turns (StillLong c farm state) (NotLong c farm state)
      (state.terraswap_pool_info.lp_token_amount + 1) withdrawn

withdrawal_of_long-Turns :
    (c : Chain) (farm : Farm) (state : PositionState) (withdrawn : ℕ)
    → ChainLaws c
    → withdrawal_of_long c farm state ≡ ok withdrawn
    → WithdrawalTurns c farm state withdrawn
unfolding withdrawal_of_long
withdrawal_of_long-Turns c farm state withdrawn laws e =
    chain (add_128 state.terraswap_pool_info.lp_token_amount 1) _ e λ end e₁ found.
      rw (sym (add_128-eq state.terraswap_pool_info.lp_token_amount 1 end e₁)) (
        search_leftmost-Turns (stays_long c farm state) (StillLong c farm state)
          (NotLong c farm state) end
          (λ x h.
            let (amount, is_after, test) = stays_long-LongAfter c farm state x true laws h in
            (amount, is_after, ltb→lt state.mirror_asset_short_amount amount test))
          (λ x h.
            let (amount, is_after, test) = stays_long-LongAfter c farm state x false laws h in
            (amount, is_after, ltb-eq-false state.mirror_asset_short_amount amount test))
          rounds withdrawn found)

-- The plan for a net long position: what it sells, and the messages.
pub record LongPlan (c : Chain) (context : Context) (mirror_asset : Addr) (farm : Farm)
    (state : PositionState) (withdrawn : ℕ) (holdings : Holdings) (messages : List CosmosMsg)
    : Type 0 where
  pub withdrawal_turns : WithdrawalTurns c farm state withdrawn
  pub first_short : ℕ
  pub turns_short : TurnsShort state.mirror_asset_short_amount holdings first_short
  pub sent :
      ((first_short ≤ 1) × (messages ≡ holdings.messages))
      ⊎ ((swap_message : CosmosMsg) × (returned : ℕ) × (swap_cw20_token_for_uusd c
              context.terraswap_factory_addr context.astroport_factory_addr mirror_asset
              (first_short - 1)
            ≡ ok (swap_message, returned))
          × (messages ≡ holdings.messages ++ (swap_message ∷ [])))

-- A rebalance of a net long position that succeeds withdraws an amount of LP tokens at which the
-- mirror assets of what is left, with all liquid ones in the pool, turn from more than the short
-- amount to no more: with one LP token less there would be more, unless nothing is withdrawn, and
-- with the amount there are no more, unless it is one more than all LP tokens. Of what is held then,
-- no more LP tokens than there are, it offers one less than the least offer that leaves the position
-- net short, the mirror assets kept and its part of the pool counted: no smaller offer does, and
-- every larger one of what is held does. So the most that leaves it not net short is swapped, and
-- nothing is swapped if that is zero or if the position is net short as it is. The arithmetic is as
-- documented.
pub rebalance_net_long-LongPlan :
    (c : Chain) (context : Context) (mirror_asset : Addr) (farm : Farm) (state : PositionState)
    (withdrawn : ℕ) (holdings : Holdings) (messages : List CosmosMsg)
    → ChainLaws c
    → withdrawal_of_long c farm state ≡ ok withdrawn
    → withdraw_from_long c context mirror_asset farm state withdrawn ≡ ok holdings
    → holdings.lp_token_amount ≤ holdings.lp_token_total_supply
    → rebalance_net_long c context mirror_asset farm state ≡ ok messages
    → LongPlan c context mirror_asset farm state withdrawn holdings messages
unfolding rebalance_net_long
rebalance_net_long-LongPlan c context mirror_asset farm state withdrawn holdings messages laws
      is_withdrawn are_holdings part e =
    chain (withdrawal_of_long c farm state) _ e λ found e₁ e.
      let same : withdrawn ≡ found = ok-injective (sym is_withdrawn ∙ e₁) in
      chain (withdraw_from_long c context mirror_asset farm state found) _ e λ held e₂ e.
        let same_held : holdings ≡ held = ok-injective (
          sym are_holdings
          ∙ ap (λ n. withdraw_from_long c context mirror_asset farm state n) same
          ∙ e₂) in
        chain (first_short_offer c state.mirror_asset_short_amount held) _ e λ first_short e₃ e.
          rw (same, same_held)
            (record {
              withdrawal_turns = withdrawal_of_long-Turns c farm state found laws e₁;
              first_short = first_short;
              turns_short =
                  first_short_offer-TurnsShort c state.mirror_asset_short_amount held first_short
                    laws (rw same_held at part) e₃;
              sent =
                  branch (ltb 1 first_short) _ _ e
                    (λ swaps e.
                      chain
                        (swap_cw20_token_for_uusd c context.terraswap_factory_addr
                          context.astroport_factory_addr mirror_asset (first_short - 1))
                        _ e λ p e₆ e. inr (p.0, p.1, e₆, sym (ok-injective e)))
                    (λ keeps e. inl (ltb-eq-false 1 first_short keeps, sym (ok-injective e)));
            })
