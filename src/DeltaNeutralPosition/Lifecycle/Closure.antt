-- ===== src/DeltaNeutralPosition/Lifecycle/Closure.antt =====
-- Closing a position without a usable debt position, from the manager's message to the last transfer,
-- in contracts/delta_neutral_position/src/contract.rs.
use position_managers.Prelude.{
  ℕ, ◌≡◌, refl, ap, ◌∙◌, inl, inr, true, false, not, ◌==◌, some, [], ◌∷◌, ◌++◌, if◌then◌else◌,
  Bool-cases, eq_iff, str_eq,
}
use position_managers.Cosmwasm.{Addr, ok, ◌>>=◌, ◌>>◌, fail_if, generic_err, load, Env, MessageInfo}
use position_managers.Common.{Recipient}
use position_managers.Message.{
  close_cdp_and_disburse, wasm_execute, initiate_outgoing_token_transfer, send_uusd, Response,
  plain, plain_messages,
}
use position_managers.AnchorEarnProxy.{decimal_one, uusd, uusd_coin}
use position_managers.DeltaNeutralManager.State.{AdminConfig, Context}
use position_managers.DeltaNeutralManager.Rebalance.{is_some}
use position_managers.Chain.{Chain}
use position_managers.DeltaNeutralPosition.Math.{times}
use position_managers.DeltaNeutralPosition.State.{State}
use position_managers.DeltaNeutralPosition.Rebalance.{achieve_delta_neutral}
use position_managers.DeltaNeutralPosition.Util.{get_uusd_balance}
use position_managers.DeltaNeutralPosition.Closing.{
  create_internal_execute_message, redeem_all, is_cdp_inactive, close_position, record_close,
  send_uusd_to_recipient,
}
use position_managers.DeltaNeutralPosition.Contract.{
  keep_state, ExecuteMsg, close_position_msg, internal_msg, is_authorized, run_internal, run,
  execute,
}
use position_managers.DeltaNeutralPosition.Lifecycle.Phases.{closed, phase, phase_of}

same_text : (a : Addr) → str_eq a a ≡ true
same_text a = (eq_iff a a).1 refl

-- A message from the one that may send it is handled.
handled :
    (c : Chain) (s : State) (env : Env) (info : MessageInfo) (context : Context) (manager : Addr)
    (msg : ExecuteMsg)
    → s.manager ≡ some manager
    → c.manager_context manager ≡ ok context
    → is_authorized env info context manager msg ≡ true
    → execute c s env info msg ≡ run c s env context msg
unfolding execute
handled c s env info context manager msg managed known allowed =
    ap
      (λ o. load o >>= λ m. c.manager_context m >>= λ x.
        fail_if (not (is_authorized env info x m msg)) (generic_err "unauthorized")
        >> run c s env x msg)
      managed
    ∙ ap
        (λ o. o >>= λ x.
          fail_if (not (is_authorized env info x manager msg)) (generic_err "unauthorized")
          >> run c s env x msg)
        known
    ∙ ap (λ b. fail_if (not b) (generic_err "unauthorized") >> run c s env context msg) allowed

abbrev closing_messages : Env → Context → Recipient → ℕ → Response
closing_messages env context recipient anchor_ust_balance = plain_messages (
    redeem_all context anchor_ust_balance
    ∷ create_internal_execute_message env (send_uusd decimal_one recipient)
    ∷ [])

close_inactive :
    (c : Chain) (s : State) (env : Env) (context : Context) (recipient : Recipient) (balance : ℕ)
    → is_some s.position_close_info ≡ false
    → is_cdp_inactive s ≡ true
    → c.anchor.query_token_balance context.anchor_ust_cw20_addr env.contract_address ≡ ok balance
    → close_position c s env context recipient ≡ ok (closing_messages env context recipient balance)
unfolding close_position
close_inactive c s env context recipient balance still_open inactive holds =
    let redeem =
      c.anchor.query_token_balance context.anchor_ust_cw20_addr env.contract_address >>= λ held.
      ok (closing_messages env context recipient held) in
    let unwind = achieve_delta_neutral c s env context >>= λ messages. ok (
      plain_messages (
        messages
        ++ (create_internal_execute_message env (close_cdp_and_disburse recipient) ∷ []))) in
    ap
      (λ b.
        fail_if b (generic_err "position is already closed")
        >> (if is_cdp_inactive s then redeem else unwind))
      still_open
    ∙ ap (λ b. if b then redeem else unwind) inactive
    ∙ ap (λ o. o >>= λ held. ok (closing_messages env context recipient held)) holds

closing_sent :
    (c : Chain) (s : State) (env : Env) (info : MessageInfo) (context : Context) (manager : Addr)
    (recipient : Recipient) (balance : ℕ)
    → s.manager ≡ some manager
    → c.manager_context manager ≡ ok context
    → info.sender ≡ manager
    → is_some s.position_close_info ≡ false
    → is_cdp_inactive s ≡ true
    → c.anchor.query_token_balance context.anchor_ust_cw20_addr env.contract_address ≡ ok balance
    → execute c s env info (close_position_msg recipient)
      ≡ ok (closing_messages env context recipient balance, s)
unfolding run is_authorized
closing_sent c s env info context manager recipient balance managed known sender still_open inactive
      holds =
    handled c s env info context manager (close_position_msg recipient) managed known
      (rw sender (same_text manager))
    ∙ ap (λ o. keep_state s o)
        (close_inactive c s env context recipient balance still_open inactive holds)

sent_all :
    (c : Chain) (s : State) (env : Env) (manager : Addr) (config : AdminConfig)
    (recipient : Recipient) (uusd_balance amount : ℕ)
    → s.manager ≡ some manager
    → get_uusd_balance c env ≡ ok uusd_balance
    → times c uusd_balance decimal_one ≡ ok amount
    → c.manager_admin_config manager ≡ ok config
    → (r : Response) × (send_uusd_to_recipient c s env decimal_one recipient
        ≡ ok (r, record_close s env decimal_one amount))
unfolding send_uusd_to_recipient
sent_all c s env manager config recipient uusd_balance amount managed holds part configured =
    elim (Bool-cases (amount == 0)) [
      | inl nothing ↦ ([], rw (holds, part, nothing) refl)
      | inr some_amount ↦ (
        plain (
              wasm_execute config.terra_manager
                (initiate_outgoing_token_transfer (uusd amount ∷ []) recipient)
                (uusd_coin amount ∷ []))
            ∷ [],
        rw (holds, part, some_amount) (rw (ap (λ o. load o) managed) (rw configured refl)),
      )
    ]

closing_done :
    (c : Chain) (s : State) (env : Env) (info : MessageInfo) (context : Context) (manager : Addr)
    (config : AdminConfig) (recipient : Recipient) (uusd_balance amount : ℕ)
    → s.manager ≡ some manager
    → c.manager_context manager ≡ ok context
    → info.sender ≡ env.contract_address
    → get_uusd_balance c env ≡ ok uusd_balance
    → times c uusd_balance decimal_one ≡ ok amount
    → c.manager_admin_config manager ≡ ok config
    → (r : Response) × (t : State) × (execute c s env info
          (internal_msg (send_uusd decimal_one recipient))
        ≡ ok (r, t))
      × (phase_of t ≡ closed)
unfolding run run_internal is_authorized phase_of phase record_close
closing_done c s env info context manager config recipient uusd_balance amount managed known sender
      holds part configured =
    let (r, done) =
      sent_all c s env manager config recipient uusd_balance amount managed holds part configured in
    (
      r,
      record_close s env decimal_one amount,
      handled c s env info context manager (internal_msg (send_uusd decimal_one recipient)) managed
            known (rw sender (same_text env.contract_address))
          ∙ done,
      refl,
    )

-- An open position without a usable debt position can be closed: the manager's message to close it
-- succeeds, with messages that redeem all aUST and then ask the contract itself to send all uusd to
-- the recipient; and that last message succeeds on whatever chain there is by then and leaves the
-- position closed. For this the queries for the manager's data and the balances have to be answered.
pub close-then-send :
    (c d : Chain) (s : State) (env : Env) (info self : MessageInfo) (context context' : Context)
    (manager : Addr) (config : AdminConfig) (recipient : Recipient)
    (anchor_ust_balance uusd_balance amount : ℕ)
    → s.manager ≡ some manager
    → c.manager_context manager ≡ ok context
    → info.sender ≡ manager
    → is_some s.position_close_info ≡ false
    → is_cdp_inactive s ≡ true
    → c.anchor.query_token_balance context.anchor_ust_cw20_addr env.contract_address
      ≡ ok anchor_ust_balance
    → d.manager_context manager ≡ ok context'
    → self.sender ≡ env.contract_address
    → get_uusd_balance d env ≡ ok uusd_balance
    → times d uusd_balance decimal_one ≡ ok amount
    → d.manager_admin_config manager ≡ ok config
    → (execute c s env info (close_position_msg recipient)
        ≡ ok (
          plain_messages (
              redeem_all context anchor_ust_balance
              ∷ create_internal_execute_message env (send_uusd decimal_one recipient)
              ∷ []),
          s,
        ))
      × (r : Response) × (t : State) × (execute d s env self
            (internal_msg (send_uusd decimal_one recipient))
          ≡ ok (r, t))
      × (phase_of t ≡ closed)
close-then-send c d s env info self context context' manager config recipient anchor_ust_balance
      uusd_balance amount managed known sender still_open inactive holds known' itself held part
      configured =
    let (r, t, done, is_closed) =
      closing_done d s env self context' manager config recipient uusd_balance amount managed known'
        itself held part configured in
    (
      closing_sent c s env info context manager recipient anchor_ust_balance managed known sender
          still_open inactive holds,
      r,
      t,
      done,
      is_closed,
    )
