-- ===== src/Examples/Life.antt =====
-- Runs of a position's contract: opened while the price is stale, asked to rebalance, and closed.
use position_managers.Prelude.{
  ℕ, ◌*◌, ◌/◌, ◌^◌, ◌≤◌, ◌≡◌, ◌≢◌, ◌⊎◌, refl, true, false, some, [], ◌∷◌, arith,
}
use position_managers.Cosmwasm.{Addr, Result, ok, err, panic, MessageInfo}
use position_managers.Common.{Recipient, terra_recipient}
use position_managers.Message.{DeltaNeutralParams, send_uusd, Response, plain_messages}
use position_managers.Anchor.{get_anchor_ust_redemption_uusd_value}
use position_managers.AnchorEarnProxy.{decimal_one}
use position_managers.Dex.{search}
use position_managers.DeltaNeutralManager.State.{Context}
use position_managers.DeltaNeutralPosition.State.{State, fresh_state}
use position_managers.DeltaNeutralPosition.Closing.{
  create_internal_execute_message, redeem_all, is_cdp_inactive, close_position,
  send_uusd_to_recipient,
}
use position_managers.DeltaNeutralPosition.Opening.{open_position}
use position_managers.DeltaNeutralPosition.Contract.{
  open_position_msg, close_position_msg, internal_msg, is_authorized, run, run_internal, execute,
}
use position_managers.DeltaNeutralPosition.Reinvest.{rebalance_and_reinvest}
use position_managers.DeltaNeutralPosition.Lifecycle.Phases.{
  phase_of, active, closed, off_market, Transition, IsWellFormed, execute-Transition,
}
use position_managers.DeltaNeutralPosition.Lifecycle.Reachable.{
  Later, unchanged, after, Later-never_active, Later-closed,
}
use position_managers.DeltaNeutralPosition.Lifecycle.Access.{Sender, execute-Sender}
use position_managers.DeltaNeutralPosition.Lifecycle.Delayed.{
  EndsInFailure, rebalance_and_reinvest-EndsInFailure,
}
use position_managers.DeltaNeutralPosition.Lifecycle.Closure.{close-then-send}
use position_managers.DeltaNeutralPosition.Payments.{
  WithinBalance, Handed, ClosedIfAll, open_position-WithinBalance,
  send_uusd_to_recipient-WithinBalance,
}
use position_managers.Examples.Data.{env, from}
use position_managers.Examples.Neutral.{context, params}
use position_managers.Examples.Ledger.{chain, chain-ChainLaws}

program : Unit {0}
unfolding execute is_authorized run run_internal open_position send_uusd_to_recipient phase_of
    close_position is_cdp_inactive rebalance_and_reinvest
program = tt

abbrev outcome {ℓ} : {A : Type ℓ} → A → Result A → A
outcome d (ok a) = a
outcome d (err e) = d
outcome d panic = d

abbrev off_market_params : DeltaNeutralParams
off_market_params = record params { allow_off_market_position_open = some true }

abbrev start : State
start = fresh_state "position_manager"

start-IsWellFormed : IsWellFormed start
start-IsWellFormed = record {
  asset_follows = λ h. absurd (cc);
  cdp_follows = λ h. absurd (cc);
  preemption_follows = λ h. absurd (cc);
}

abbrev opening : Response × State
opening =
    outcome ([], start)
      (execute (chain false) start env (from "position_manager")
        (open_position_msg off_market_params))

abbrev itself : MessageInfo
itself = from env.contract_address

abbrev bob : Recipient
bob = terra_recipient "bob"

abbrev sending : Response × State
sending =
    outcome ([], start)
      (execute (chain true) opening.1 env itself (internal_msg (send_uusd decimal_one bob)))

opened_off_market : phase_of opening.1 ≡ off_market
unfolding program
opened_off_market = refl

closed_by_sending : phase_of sending.1 ≡ closed
unfolding program
closed_by_sending = refl

opening-IsWellFormed : IsWellFormed opening.1
unfolding program
opening-IsWellFormed =
    (execute-Transition (chain false) start env (from "position_manager")
      (open_position_msg off_market_params) opening.0 opening.1 start-IsWellFormed refl).0

execute-Transition_example :
    IsWellFormed opening.1 × Transition (phase_of start) (phase_of opening.1)
unfolding program
execute-Transition_example =
    execute-Transition (chain false) start env (from "position_manager")
      (open_position_msg off_market_params) opening.0 opening.1 start-IsWellFormed refl

after_sending : Later opening.1 sending.1
unfolding program
after_sending =
    after (chain true) env itself (internal_msg (send_uusd decimal_one bob)) sending.0 unchanged
      refl

Later-never_active_example : phase_of sending.1 ≢ active
Later-never_active_example =
    Later-never_active opening.1 sending.1 opening-IsWellFormed opened_off_market after_sending

abbrev resent : Response × State
resent =
    outcome ([], start)
      (execute (chain true) sending.1 env itself (internal_msg (send_uusd decimal_one bob)))

sending-IsWellFormed : IsWellFormed sending.1
unfolding program
sending-IsWellFormed =
    (execute-Transition (chain true) opening.1 env itself (internal_msg (send_uusd decimal_one bob))
      sending.0 sending.1 opening-IsWellFormed refl).0

sent_again : Later sending.1 resent.1
unfolding program
sent_again =
    after (chain true) env itself (internal_msg (send_uusd decimal_one bob)) resent.0 unchanged refl

Later-closed_example : phase_of resent.1 ≡ closed
Later-closed_example =
    Later-closed sending.1 resent.1 sending-IsWellFormed closed_by_sending sent_again

execute-Sender_example :
    (manager : Addr) × (c : Context) × (start.manager ≡ some manager)
    × ((chain false).manager_context manager ≡ ok c)
    × Sender env (from "position_manager") c manager (open_position_msg off_market_params)
unfolding program
execute-Sender_example =
    execute-Sender (chain false) start env (from "position_manager")
      (open_position_msg off_market_params) opening.0 opening.1 refl

open_position-WithinBalance_example : WithinBalance 1000 opening.0
unfolding program
open_position-WithinBalance_example =
    open_position-WithinBalance (chain false) start env context off_market_params 1000 opening.0
      opening.1 (chain-ChainLaws false) refl refl

send_uusd_to_recipient-WithinBalance_example :
    (amount : ℕ) × (amount ≡ 1000 * decimal_one / 10 ^ 18)
    × (amount ≤ 1000)
    × WithinBalance 1000 sending.0
    × Handed (chain true) opening.1 bob amount sending.0
    × ClosedIfAll opening.1 env decimal_one amount sending.1
unfolding program
send_uusd_to_recipient-WithinBalance_example =
    send_uusd_to_recipient-WithinBalance (chain true) opening.1 env decimal_one bob 1000 sending.0
      sending.1 (chain-ChainLaws true) (omega arith) refl refl

close-then-send_example :
    (execute (chain false) opening.1 env (from "position_manager") (close_position_msg bob)
      ≡ ok (
        plain_messages (
            redeem_all context 100
            ∷ create_internal_execute_message env (send_uusd decimal_one bob)
            ∷ []),
        opening.1,
      ))
    × (r : Response) × (t : State) × (execute
          (chain true)
          opening.1
          env
          itself
          (internal_msg (send_uusd decimal_one bob))
        ≡ ok (r, t))
    × (phase_of t ≡ closed)
unfolding program
close-then-send_example =
    close-then-send (chain false) (chain true) opening.1 env (from "position_manager") itself
      context context "position_manager"
      (record {
        admin = "admin";
        terra_manager = "terra_manager";
        delta_neutral_position_code_id = 1;
      })
      bob 100 1000 1000 refl refl refl refl refl refl refl refl refl refl refl

-- With a fresh price the set-up is tried.
abbrev trying : Response × State
trying = outcome ([], start) (rebalance_and_reinvest (chain true) opening.1 env context)

rebalance_and_reinvest-EndsInFailure_example : (trying.0 ≡ []) ⊎ EndsInFailure env trying.0 trying.1
unfolding program get_anchor_ust_redemption_uusd_value search
rebalance_and_reinvest-EndsInFailure_example =
    rebalance_and_reinvest-EndsInFailure (chain true) opening.1 env context trying.0 trying.1 refl
      refl
