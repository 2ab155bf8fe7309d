-- ===== src/DeltaNeutralPosition/Rebalance/Unbonding.antt =====
-- contracts/delta_neutral_position/src/rebalance.rs: what is left in Spectrum's farm after a
-- withdrawal of LP tokens.
use position_managers.Prelude.{ℕ, Option, ◌==◌, if◌then◌else◌}
use position_managers.Cosmwasm.{Result, ok, ◌>>=◌, unwrap}
use position_managers.DeltaNeutralManager.Rebalance.{TerraswapPoolInfo}
use position_managers.Chain.{Chain, SpectrumPool}
use position_managers.DeltaNeutralPosition.Spectrum.{simulate_spectrum_mirror_farm_unbond}

pub record Farm : Type 0 where
  pub spectrum_pool_info : Option SpectrumPool
  pub spectrum_mirror_pool_lp_balance : ℕ

-- `simulate_spectrum_mirror_farm_unbond(.., spectrum_pool_info.unwrap(), ..)`
unfoldable pub unbond : Chain → Farm → TerraswapPoolInfo → ℕ → Result ℕ
unfolding simulate_spectrum_mirror_farm_unbond
unbond c farm info withdraw_lp_token_amount = do
  pool ← unwrap farm.spectrum_pool_info
  simulate_spectrum_mirror_farm_unbond c farm.spectrum_mirror_pool_lp_balance pool
      info.spectrum_auto_compound_share_amount withdraw_lp_token_amount

unfoldable pub lp_token_amount_after_withdrawal : Chain → Farm → TerraswapPoolInfo → ℕ → Result ℕ
unfolding unbond
lp_token_amount_after_withdrawal c farm info withdraw_lp_token_amount =
    if withdraw_lp_token_amount == 0
    then ok info.lp_token_amount
    else unbond c farm info withdraw_lp_token_amount

-- As many rounds as the bits of a Uint128.
abbrev pub rounds : ℕ
rounds = 128
