-- ===== src/AnchorEarnProxy/Payout.antt =====
-- What closing a position pays out, against what was deposited.
use native.Mathlib.Nat.{div-mul-le_self}
use position_managers.Prelude.{
  some-eq, ℕ, ◌+◌, ◌*◌, ◌/◌, ◌^◌, ◌≤◌, ◌≡◌, refl, sym, ap, ◌∙◌, some, List, [], ◌∷◌, unwrap_or,
  arith,
}
use position_managers.Cosmwasm.{ok, ok-injective, Addr, MessageInfo, Env}
use position_managers.Common.{key_eq_refl, Asset, Position, get_position_key, Recipient}
use position_managers.Message.{
  wasm_execute, initiate_outgoing_token_transfer, SubMsg, plain, Response,
}
use position_managers.Host.{Host}
use position_managers.Anchor.{Anchor, BignumLaws}
use position_managers.AnchorEarnProxy.{
  AdminConfig, Environment, State, balance, set_balance, decimal_one, deposit, withdraw, uusd,
  uusd_coin,
}
use position_managers.AnchorEarnProxy.Balances.{
  Deposited, deposit-Deposited, Withdrawn, withdraw-Withdrawn,
}

-- The message that hands an amount of uusd to the Terra manager for a recipient.
abbrev pub hand_over : Addr → Recipient → ℕ → SubMsg
hand_over terra_manager recipient amount = plain (
    wasm_execute terra_manager (initiate_outgoing_token_transfer (uusd amount ∷ []) recipient)
      (uusd_coin amount ∷ []))

pub set_balance-same :
    (s : State) (position : Position) (n : ℕ)
    → (set_balance s position n).position_to_anchor_ust_amount (get_position_key position) ≡ some n
set_balance-same s position n = rw (key_eq_refl (get_position_key position)) refl

-- Rounding down twice never pays more than was put in.
rounded_value : (a r : ℕ) → a * 10 ^ 18 / r * r / 10 ^ 18 ≤ a
rounded_value a r = let h = div-mul-le_self (a * 10 ^ 18) r in omega arith

all_of : (b : ℕ) → b * decimal_one / decimal_one ≡ b
all_of b = omega arith

first_amount : List Asset → ℕ
first_amount [] = 0
first_amount (a ∷ rest) = a.amount

module _ (h : Host) (k : Anchor) (s : State) (env : Env) (info : MessageInfo) (config : AdminConfig)
    (position : Position) (amount : ℕ) (recipient : Recipient) (r r' : Response) (t u : State) where
  same_market :
      (d : Deposited k s env position (uusd amount ∷ []) r t)
      (w : Withdrawn k t env config position decimal_one recipient r' u)
      → w.rate ≡ d.rate
  same_market d w =
      let env_same : w.environment ≡ d.environment =
        some-eq (
          sym w.environment_is ∙ ap (λ (x : State). x.environment) d.credited ∙ d.environment_is) in
      ok-injective (
        sym w.rate_is
        ∙ ap (λ (e : Environment). k.epoch_exchange_rate e.anchor_market_addr env.block_height)
            env_same
        ∙ d.rate_is)

  minted_is :
      (d : Deposited k s env position (uusd amount ∷ []) r t)
      (w : Withdrawn k t env config position decimal_one recipient r' u)
      → balance s position ≡ 0
      → w.redeemed ≡ amount * 10 ^ 18 / d.rate
  unfolding first_amount
  minted_is d w empty =
      let before_is : w.before ≡ balance s position + d.amount * 10 ^ 18 / d.rate = some-eq (
        sym w.before_is
        ∙ ap (λ (x : State). x.position_to_anchor_ust_amount (get_position_key position)) d.credited
        ∙ set_balance-same s position (balance s position + d.amount * 10 ^ 18 / d.rate)) in
      let amount_is : amount ≡ d.amount = ap first_amount d.assets_are in
      w.redeemed_is ∙ all_of w.before ∙ before_is ∙ rw (empty, sym amount_is) (omega arith)

  -- A position without a balance that takes a deposit and is closed at the same exchange rate is
  -- left with nothing, and no more uusd than was deposited goes to its recipient, by a message of
  -- the amount to the Terra manager. The bignum arithmetic is as documented.
  pub withdraw-deposit :
      BignumLaws k
      → balance s position ≡ 0
      → deposit h k s env info position (uusd amount ∷ []) ≡ ok (r, t)
      → withdraw h k t env config position decimal_one recipient ≡ ok (r', u)
      → (balance u position ≡ 0)
        × (value : ℕ) × (value ≤ amount)
        × (redeem : SubMsg) × (r' ≡ redeem ∷ hand_over config.terra_manager recipient value ∷ [])
  withdraw-deposit laws empty e e' =
      let d = deposit-Deposited h k s env info position (uusd amount ∷ []) r t laws e in
      let w = withdraw-Withdrawn h k t env config position decimal_one recipient r' u laws e' in
      let left_is : w.left ≡ 0 =
        (let all = w.redeemed_is ∙ all_of w.before in let sum = w.conserved in omega arith) in
      let value_is : w.redeemed * w.rate ≡ amount * 10 ^ 18 / d.rate * d.rate =
        rw (same_market d w, minted_is d w empty) refl in
      let bounded : w.redeemed * w.rate / 10 ^ 18 ≤ amount =
        rw value_is (rounded_value amount d.rate) in
      (
        ap (λ (x : State). balance x position) w.debited
            ∙ ap (λ o. unwrap_or o 0) (set_balance-same t position w.left)
            ∙ left_is,
        w.redeemed * w.rate / 10 ^ 18,
        bounded,
        _,
        w.sent,
      )
