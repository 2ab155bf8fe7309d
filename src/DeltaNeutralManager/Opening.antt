-- ===== src/DeltaNeutralManager/Opening.antt =====
-- Opening a position: what is checked, and how the three calls that it takes fit together.
use position_managers.Prelude.{
  some-eq, ℕ, String, ◌≤◌, ◌≡◌, refl, sym, ap, ◌∙◌, inl, inr, true, false, not, some, List, [], ◌∷◌,
  leb, leb→le, str_eq, eq_iff, Bool-cases, and-eq-true,
}
use position_managers.Cosmwasm.{
  Addr, Bytes, ok, load, chain, guarded-elim, ok-injective, load-eq-ok, not-eq-false, MessageInfo,
  Env,
}
use position_managers.Common.{
  key_eq_refl, AssetInfo, native_token, token, Asset, Position, PositionKey, key_eq,
  get_position_key,
}
use position_managers.Message.{
  DeltaNeutralParams, wasm_execute, wasm_instantiate, send_open_position_to_position_contract,
  position_open, ReplyOn, Response, plain, plain_messages,
}
use position_managers.Host.{Host}
use position_managers.AnchorEarnProxy.{uusd, uusd_coin}
use position_managers.DeltaNeutralManager.State.{AdminConfig, Context, State, Codes}
use position_managers.DeltaNeutralManager.Contract.{
  is_enough_uusd, validate_assets, instantiate_reply_id, open_new_position,
  send_execute_message_to_position_contract, keep_state, execute, send_open_position_msg,
  SubMsgResult, reply_data, instantiated_address, reply,
}

is_enough_uusd-eq-true :
    (h : Host) (info : MessageInfo) (context : Context) (kind : AssetInfo) (amount : ℕ)
    → is_enough_uusd h info context kind amount ≡ true
    → (kind ≡ native_token "uusd") × (context.min_open_uusd_amount ≤ amount)
unfolding is_enough_uusd
is_enough_uusd-eq-true h info context (token a) amount e = cc
is_enough_uusd-eq-true h info context (native_token d) amount e =
    let t = and-eq-true (str_eq d "uusd") _ e in
    (
      ap native_token ((eq_iff d "uusd").0 t.0),
      leb→le context.min_open_uusd_amount amount
          (and-eq-true (leb context.min_open_uusd_amount amount) _ t.1).0,
    )

validate_assets-eq-ok :
    (h : Host) (info : MessageInfo) (context : Context) (assets : List Asset) (amount : ℕ)
    → validate_assets h info context assets ≡ ok amount
    → (assets ≡ uusd amount ∷ []) × (context.min_open_uusd_amount ≤ amount)
unfolding validate_assets
validate_assets-eq-ok h info context [] amount e = cc
validate_assets-eq-ok h info context (b ∷ c ∷ assets) amount e = cc
validate_assets-eq-ok h info context (b ∷ []) amount e =
    elim (Bool-cases (is_enough_uusd h info context b.info b.amount)) [
      | inl sent ↦
          let (kind, enough) = is_enough_uusd-eq-true h info context b.info b.amount sent in
          let same : b.amount ≡ amount = ok-injective (rw sent at e) in
          rw (sym same) (ap (λ i. record { info = i; amount = b.amount } ∷ []) kind, enough)
      | inr unsent ↦ absurd (cc)
    ]

-- A position that may be opened, and what is sent for it: the instantiation of its contract, and a
-- message of the manager to itself.
pub record Opened (s : State) (env : Env) (position : Position) (params : DeltaNeutralParams)
    (assets : List Asset) (r : Response) (t : State) : Type 0 where
  pub context : Context
  pub config : AdminConfig
  pub amount : ℕ
  pub context_is : s.context ≡ some context
  pub config_is : s.admin_config ≡ some config
  pub assets_are : assets ≡ uusd amount ∷ []
  pub enough : context.min_open_uusd_amount ≤ amount
  pub allowed : s.position_open_allowed_mirror_assets params.mirror_asset_cw20_addr ≡ some true
  pub remembered : t ≡ record s { tmp_position = some position }
  pub sent :
      r
      ≡ record {
        id = instantiate_reply_id;
        msg = wasm_instantiate env.contract_address config.delta_neutral_position_code_id;
        reply_on = ReplyOn.success;
      }
        ∷ plain (
            wasm_execute env.contract_address
              (send_open_position_to_position_contract position params amount)
              [])
        ∷ []

-- A position is opened only with one asset, of no less uusd than the least amount, and for a mirror
-- asset on the allow list. The storage only remembers the position; the messages instantiate a
-- contract of the configured code, asking for a reply on success, and call the manager back.
pub open_new_position-Opened :
    (h : Host) (s : State) (env : Env) (info : MessageInfo) (position : Position)
    (params : DeltaNeutralParams) (assets : List Asset) (r : Response) (t : State)
    → open_new_position h s env info position params assets ≡ ok (r, t)
    → Opened s env position params assets r t
unfolding open_new_position
open_new_position-Opened h s env info position params assets r t e =
    chain (load s.context) _ e λ context e₁ e₂.
      chain (validate_assets h info context assets) _ e₂ λ amount e₃ e₄.
        chain (load (s.position_open_allowed_mirror_assets params.mirror_asset_cw20_addr)) _ e₄
          λ allowed e₅ e₆. guarded-elim (not allowed) _ _ e₆ λ yes_allowed e₇.
            chain (load s.admin_config) _ e₇ λ config e₈ e₉.
              let valid = validate_assets-eq-ok h info context assets amount e₃ in
              let result = ok-injective e₉ in
              record {
                context = context;
                config = config;
                amount = amount;
                context_is = load-eq-ok _ e₁;
                config_is = load-eq-ok _ e₈;
                assets_are = valid.0;
                enough = valid.1;
                allowed = load-eq-ok _ e₅ ∙ ap some (not-eq-false allowed yes_allowed);
                remembered = sym (ap (λ (p : Response × State). p.1) result);
                sent = sym (ap (λ (p : Response × State). p.0) result);
              }

-- A reply stores an address for the position that was remembered, and changes nothing else.
pub reply-eq-ok :
    (h : Host) (codes : Codes) (t : State) (result : SubMsgResult) (r : Response) (u : State)
    (position : Position)
    → t.tmp_position ≡ some position
    → reply h codes t result ≡ ok (r, u)
    → (bytes : Bytes) × (address : String) × (contract_addr : Addr) × (reply_data result ≡ ok bytes)
      × (instantiated_address codes bytes ≡ ok address)
      × (h.addr_validate address ≡ ok contract_addr)
      × (u.position_to_contract_addr (get_position_key position) ≡ some contract_addr)
      × ((key : PositionKey)
          → key_eq (get_position_key position) key ≡ false
          → u.position_to_contract_addr key ≡ t.position_to_contract_addr key)
unfolding reply
reply-eq-ok h codes t result r u position tmp e = chain (reply_data result) _ e λ bytes e₁ e₂.
    chain (instantiated_address codes bytes) _ e₂ λ address e₃ e₄.
      chain (h.addr_validate address) _ e₄ λ contract_addr e₅ e₆.
        chain (load t.tmp_position) _ e₆ λ remembered e₇ e₈.
          let same : remembered ≡ position = some-eq (sym (load-eq-ok _ e₇) ∙ tmp) in
          let stored =
            ap (λ (p : Response × State). p.1.position_to_contract_addr) (ok-injective e₈) in
          (
            bytes,
            address,
            contract_addr,
            e₁,
            e₃,
            e₅,
            rw (sym stored, same, key_eq_refl (get_position_key position)) refl,
            λ key other. rw (sym stored, same, other) refl,
          )

-- Opening a position answers with the instantiation of its contract, which asks for a reply, and a
-- message of the manager to itself. After the reply the position has the contract whose address the
-- reply's data gives, and no other position's contract has changed; executing then the very message
-- that the opening addressed to the manager makes it send that contract the open message, with
-- exactly the uusd that came in.
pub open-then-reply :
    (h : Host) (codes : Codes) (s : State) (env : Env) (info : MessageInfo) (position : Position)
    (params : DeltaNeutralParams) (assets : List Asset) (result : SubMsgResult) (r r' : Response)
    (t u : State)
    → open_new_position h s env info position params assets ≡ ok (r, t)
    → reply h codes t result ≡ ok (r', u)
    → (config : AdminConfig) × (bytes : Bytes) × (address : String) × (contract_addr : Addr)
      × (amount : ℕ) × (assets ≡ uusd amount ∷ [])
      × (s.admin_config ≡ some config)
      × (reply_data result ≡ ok bytes)
      × (instantiated_address codes bytes ≡ ok address)
      × (h.addr_validate address ≡ ok contract_addr)
      × (r
          ≡ record {
            id = instantiate_reply_id;
            msg = wasm_instantiate env.contract_address config.delta_neutral_position_code_id;
            reply_on = ReplyOn.success;
          }
            ∷ plain (
                wasm_execute env.contract_address
                  (send_open_position_to_position_contract position params amount)
                  [])
            ∷ [])
      × (u.position_to_contract_addr (get_position_key position) ≡ some contract_addr)
      × ((key : PositionKey)
          → key_eq (get_position_key position) key ≡ false
          → u.position_to_contract_addr key ≡ s.position_to_contract_addr key)
      × (execute h codes u env
            (record { sender = env.contract_address; funds = [] })
            (send_open_position_msg position params amount)
          ≡ ok (
            plain_messages
                (wasm_execute contract_addr (position_open params) (uusd_coin amount ∷ []) ∷ []),
            u,
          ))
unfolding execute send_execute_message_to_position_contract keep_state
open-then-reply h codes s env info position params assets result r r' t u e e' =
    let o = open_new_position-Opened h s env info position params assets r t e in
    let (bytes, address, contract_addr, data_is, address_is, valid, stored, others) =
      reply-eq-ok h codes t result r' u position (ap (λ (x : State). x.tmp_position) o.remembered)
        e' in
    let own : str_eq env.contract_address env.contract_address ≡ true =
      (eq_iff env.contract_address env.contract_address).1 refl in
    (
      o.config,
      bytes,
      address,
      contract_addr,
      o.amount,
      o.assets_are,
      o.config_is,
      data_is,
      address_is,
      valid,
      o.sent,
      stored,
      (λ key other.
          others key other ∙ ap (λ (x : State). x.position_to_contract_addr key) o.remembered),
      rw (own, stored) refl,
    )
