-- ===== src/Examples/Earn.antt =====
-- Runs of the Anchor Earn proxy: 110 uusd deposited at a rate of 1.1, as in the contract's own test,
-- 40% of it withdrawn, and the position closed.
use position_managers.Prelude.{
  ℕ, ◌+◌, ◌-◌, ◌*◌, ◌/◌, ◌^◌, ◌≤◌, ◌≡◌, refl, none, some, [], ◌∷◌, arith, leb, if◌then◌else◌,
}
use position_managers.Cosmwasm.{Result, ok, err, panic, MessageInfo}
use position_managers.Common.{Position, Recipient, terra_recipient, decrease_position}
use position_managers.Message.{SubMsg, Response}
use position_managers.Anchor.{Anchor, BignumLaws, get_anchor_ust_exchange_rate}
use position_managers.AnchorEarnProxy.{
  AdminConfig, State, uusd, uusd_coin, balance, decimal_one, deposit, withdraw, execute,
  perform_action_msg, validate_assets, is_uusd_sent,
}
use position_managers.AnchorEarnProxy.Balances.{
  Deposited, deposit-Deposited, Withdrawn, withdraw-Withdrawn,
}
use position_managers.AnchorEarnProxy.Access.{Permitted, execute-Permitted}
use position_managers.AnchorEarnProxy.Payout.{hand_over, withdraw-deposit}
use position_managers.Examples.Data.{host, env}

program : Unit {0}
unfolding execute deposit withdraw validate_assets is_uusd_sent get_anchor_ust_exchange_rate
program = tt

abbrev outcome {ℓ} : {A : Type ℓ} → A → Result A → A
outcome d (ok a) = a
outcome d (err e) = d
outcome d panic = d

-- Exact sums, differences that exist, and rounding down.
abbrev pub anchor : Anchor
anchor = record {
  epoch_exchange_rate = λ market height. ok 1_100_000_000_000_000_000;
  query_token_balance = λ contract owner. ok 0;
  add_256 = λ a b. ok (a + b);
  sub_256 = λ a b. if leb b a then ok (a - b) else panic;
  mul_256 = λ a r. ok (a * r / 10 ^ 18);
  div_256 = λ a r. ok (a * 10 ^ 18 / r);
  from_ratio = λ a b. ok (a * 10 ^ 18 / b);
  to_uint128 = λ a. ok a;
}

exact : {a b : ℕ} → ◌≡◌ {A = Result ℕ} (ok a) (ok b) → b ≡ a
exact e = cc

difference : (a b c : ℕ) → anchor.sub_256 a b ≡ ok c → c + b ≡ a
difference a b c e = ground arith

pub anchor-BignumLaws : BignumLaws anchor
anchor-BignumLaws = record {
  adds = λ a b c e. exact e;
  subtracts = difference;
  multiplies = λ a r c e. exact e;
  divides = λ a r c e. exact e;
  ratio = λ a b c e. exact e;
  converts = λ a c e. exact e;
}

abbrev config : AdminConfig
config = record { admin = "admin"; terra_manager = "manager" }

abbrev start : State
start = record {
  admin_config = some config;
  environment =
      some
        (record { anchor_ust_cw20_addr = "anchor_ust_cw20"; anchor_market_addr = "anchor_market" });
  position_to_anchor_ust_amount = λ key. none;
}

abbrev position : Position
position = record { chain_id = 0; position_id = 0 }

abbrev sender : MessageInfo
sender = record { sender = "manager"; funds = uusd_coin 110 ∷ [] }

abbrev recipient : Recipient
recipient = terra_recipient "terra1recipient"

abbrev deposited : Response × State
deposited = outcome ([], start) (deposit host anchor start env sender position (uusd 110 ∷ []))

deposited_balance : balance deposited.1 position ≡ 100
unfolding program
deposited_balance = refl

abbrev withdrawn : Response × State
withdrawn =
    outcome ([], start)
      (withdraw host anchor deposited.1 env config position 400_000_000_000_000_000 recipient)

withdrawn_balance : balance withdrawn.1 position ≡ 60
unfolding program
withdrawn_balance = refl

abbrev closed : Response × State
closed =
    outcome ([], start) (withdraw host anchor deposited.1 env config position decimal_one recipient)

deposit-Deposited_example :
    Deposited anchor start env position (uusd 110 ∷ []) deposited.0 deposited.1
unfolding program
deposit-Deposited_example =
    deposit-Deposited host anchor start env sender position (uusd 110 ∷ []) deposited.0 deposited.1
      anchor-BignumLaws refl

withdraw-Withdrawn_example :
    Withdrawn anchor deposited.1 env config position 400_000_000_000_000_000 recipient withdrawn.0
      withdrawn.1
unfolding program
withdraw-Withdrawn_example =
    withdraw-Withdrawn host anchor deposited.1 env config position 400_000_000_000_000_000 recipient
      withdrawn.0 withdrawn.1 anchor-BignumLaws refl

execute-Permitted_example :
    Permitted deposited.1 sender
      (perform_action_msg position (decrease_position 400_000_000_000_000_000 recipient) [])
      withdrawn.1
unfolding program
execute-Permitted_example =
    execute-Permitted host anchor deposited.1 env sender
      (perform_action_msg position (decrease_position 400_000_000_000_000_000 recipient) [])
      withdrawn.0 withdrawn.1 anchor-BignumLaws refl

withdraw-deposit_example :
    (balance closed.1 position ≡ 0)
    × (value : ℕ) × (value ≤ 110)
    × (redeem : SubMsg) × (closed.0 ≡ redeem ∷ hand_over "manager" recipient value ∷ [])
unfolding program
withdraw-deposit_example =
    withdraw-deposit host anchor start env sender config position 110 recipient deposited.0 closed.0
      deposited.1 closed.1 anchor-BignumLaws refl refl refl
