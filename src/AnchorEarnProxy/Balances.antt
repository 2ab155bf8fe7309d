-- ===== src/AnchorEarnProxy/Balances.antt =====
-- What deposits and withdrawals do to the balances of positions, and what they send.
use position_managers.Prelude.{
  ℕ, ◌+◌, ◌*◌, ◌/◌, ◌^◌, ◌≤◌, ◌<◌, ◌≡◌, sym, ap, ◌∙◌, inl, inr, true, false, ◌||◌, some, List, [],
  ◌∷◌, ltb, ◌==◌, arith, eq_iff, Bool-cases, and-eq-true, str_eq, ltb→lt,
}
use position_managers.Cosmwasm.{
  ok, load, chain, guarded-elim, ok-injective, load-eq-ok, MessageInfo, Env,
}
use position_managers.Common.{
  AssetInfo, native_token, token, Asset, Position, get_position_key, Recipient,
}
use position_managers.Message.{
  wasm_execute, deposit_stable, cw20_send, redeem_stable, initiate_outgoing_token_transfer,
  Response, plain_messages,
}
use position_managers.Host.{Host}
use position_managers.Anchor.{Anchor, BignumLaws, get_anchor_ust_exchange_rate}
use position_managers.AnchorEarnProxy.{
  AdminConfig, Environment, State, uusd, uusd_coin, is_uusd_sent, validate_assets, balance,
  set_balance, deposit, decimal_one, withdraw,
}

is_uusd_sent-eq-true :
    (h : Host) (info : MessageInfo) (kind : AssetInfo) (amount : ℕ)
    → is_uusd_sent h info kind amount ≡ true
    → (kind ≡ native_token "uusd") × (0 < amount)
unfolding is_uusd_sent
is_uusd_sent-eq-true h info (token a) amount e = cc
is_uusd_sent-eq-true h info (native_token d) amount e =
    let t = and-eq-true (str_eq d "uusd") _ e in
    (
      (ap native_token ((eq_iff d "uusd").0 t.0)),
      ltb→lt 0 amount (and-eq-true (ltb 0 amount) _ t.1).0,
    )

validate_assets-eq-ok :
    (h : Host) (info : MessageInfo) (assets : List Asset) (a : Asset)
    → validate_assets h info assets ≡ ok a
    → (assets ≡ uusd a.amount ∷ []) × (0 < a.amount)
unfolding validate_assets
validate_assets-eq-ok h info [] a e = cc
validate_assets-eq-ok h info (b ∷ c ∷ assets) a e = cc
validate_assets-eq-ok h info (b ∷ []) a e =
    elim (Bool-cases (is_uusd_sent h info b.info b.amount)) [
      | inl sent ↦
          let (kind, positive) = is_uusd_sent-eq-true h info b.info b.amount sent in
          let same : b ≡ a = ok-injective (rw sent at e) in
          rw (sym same) (ap (λ i. record { info = i; amount = b.amount } ∷ []) kind, positive)
      | inr unsent ↦ absurd (cc)
    ]

-- A deposit that succeeds: of some uusd, credited to the position in aUST at the market's rate, and
-- passed on to the market whole.
pub record Deposited (k : Anchor) (s : State) (env : Env) (position : Position)
    (assets : List Asset) (r : Response) (t : State) : Type 0 where
  pub environment : Environment
  pub rate : ℕ
  pub amount : ℕ
  pub environment_is : s.environment ≡ some environment
  pub rate_is : k.epoch_exchange_rate environment.anchor_market_addr env.block_height ≡ ok rate
  pub assets_are : assets ≡ uusd amount ∷ []
  pub positive : 0 < amount
  pub credited : t ≡ set_balance s position (balance s position + amount * 10 ^ 18 / rate)
  pub sent :
      r
      ≡ plain_messages
          (wasm_execute environment.anchor_market_addr deposit_stable (uusd_coin amount ∷ []) ∷ [])

-- A deposit succeeds only with a positive amount of uusd as its one asset. It adds to the
-- position's aUST the amount divided by the market's exchange rate, rounded down, leaves the rest
-- of the storage as it was, and sends the market the uusd. The bignum arithmetic is as documented.
pub deposit-Deposited :
    (h : Host) (k : Anchor) (s : State) (env : Env) (info : MessageInfo) (position : Position)
    (assets : List Asset) (r : Response) (t : State)
    → BignumLaws k
    → deposit h k s env info position assets ≡ ok (r, t)
    → Deposited k s env position assets r t
unfolding deposit get_anchor_ust_exchange_rate
deposit-Deposited h k s env info position assets r t laws e =
    chain (validate_assets h info assets) _ e λ a e₁ e₂.
      chain (load s.environment) _ e₂ λ environment e₃ e₄.
        chain (k.epoch_exchange_rate environment.anchor_market_addr env.block_height) _ e₄
          λ rate e₅ e₆. chain (k.div_256 a.amount rate) _ e₆ λ minted e₇ e₈.
            chain (k.add_256 (balance s position) minted) _ e₈ λ new e₉ e₁₀.
              let new_is : new ≡ balance s position + a.amount * 10 ^ 18 / rate =
                laws.adds _ _ _ e₉ ∙ ap (λ x. balance s position + x) (laws.divides _ _ _ e₇) in
              let valid = validate_assets-eq-ok h info assets a e₁ in
              let result = ok-injective e₁₀ in
              record {
                environment = environment;
                rate = rate;
                amount = a.amount;
                environment_is = load-eq-ok _ e₃;
                rate_is = e₅;
                assets_are = valid.0;
                positive = valid.1;
                credited =
                    sym (ap (λ (p : Response × State). p.1) result)
                    ∙ ap (set_balance s position) new_is;
                sent = sym (ap (λ (p : Response × State). p.0) result);
              }

-- A withdrawal that succeeds.
pub record Withdrawn (k : Anchor) (s : State) (env : Env) (config : AdminConfig)
    (position : Position) (proportion : ℕ) (recipient : Recipient) (r : Response) (t : State)
    : Type 0 where
  pub environment : Environment
  pub rate : ℕ
  pub before : ℕ
  pub left : ℕ
  pub redeemed : ℕ
  pub environment_is : s.environment ≡ some environment
  pub rate_is : k.epoch_exchange_rate environment.anchor_market_addr env.block_height ≡ ok rate
  pub before_is : s.position_to_anchor_ust_amount (get_position_key position) ≡ some before
  pub some_share : 0 < proportion
  pub at_most_all : proportion ≤ decimal_one
  pub redeemed_is : redeemed ≡ before * proportion / decimal_one
  pub some_redeemed : 0 < redeemed
  pub conserved : left + redeemed ≡ before
  pub debited : t ≡ set_balance s position left
  pub sent :
      r
      ≡ plain_messages (
          wasm_execute environment.anchor_ust_cw20_addr
            (cw20_send environment.anchor_market_addr redeemed redeem_stable)
            []
          ∷ wasm_execute config.terra_manager
              (initiate_outgoing_token_transfer (uusd (redeemed * rate / 10 ^ 18) ∷ []) recipient)
              (uusd_coin (redeemed * rate / 10 ^ 18) ∷ [])
          ∷ [])

proportion_ok : (p : ℕ) → (p == 0 || ltb decimal_one p) ≡ false → (0 < p) × (p ≤ decimal_one)
proportion_ok p e = ground arith

redeemed_ok : (n m : ℕ) → (n == 0 || ltb m n) ≡ false → 0 < n
redeemed_ok n m e = ground arith

ratio_of_one : (p : ℕ) → p * 10 ^ 18 / 10 ^ 18 ≡ p
ratio_of_one p = omega arith

-- A withdrawal succeeds only for a proportion above 0 and at most 1 of a position with an entry.
-- It takes that share of the position's aUST, rounded down and not 0, from the position, leaves the
-- rest of the storage as it was, redeems exactly that aUST, and hands its uusd value at the market's
-- rate to the Terra manager for the recipient. The bignum arithmetic is as documented.
pub withdraw-Withdrawn :
    (h : Host) (k : Anchor) (s : State) (env : Env) (config : AdminConfig) (position : Position)
    (proportion : ℕ) (recipient : Recipient) (r : Response) (t : State)
    → BignumLaws k
    → withdraw h k s env config position proportion recipient ≡ ok (r, t)
    → Withdrawn k s env config position proportion recipient r t
unfolding withdraw get_anchor_ust_exchange_rate
withdraw-Withdrawn h k s env config position proportion recipient r t laws e =
    guarded-elim (proportion == 0 || ltb decimal_one proportion) _ _ e λ share e₀.
      chain (load (s.position_to_anchor_ust_amount (get_position_key position))) _ e₀
        λ before e₁ e₂. chain (k.from_ratio proportion decimal_one) _ e₂ λ ratio e₃ e₄.
          chain (k.mul_256 before ratio) _ e₄ λ redeemed e₅ e₆.
            guarded-elim (redeemed == 0 || ltb before redeemed) _ _ e₆ λ enough e₇.
              chain (k.sub_256 before redeemed) _ e₇ λ left e₈ e₉.
                chain (load s.environment) _ e₉ λ environment e₁₀ e₁₁.
                  chain (k.epoch_exchange_rate environment.anchor_market_addr env.block_height) _
                    e₁₁
                    λ rate e₁₂ e₁₃. chain (k.mul_256 redeemed rate) _ e₁₃ λ value e₁₄ e₁₅.
                      chain (k.to_uint128 value) _ e₁₅ λ amount e₁₆ e₁₇.
                        chain (k.to_uint128 redeemed) _ e₁₇ λ sent e₁₈ e₁₉.
                          let amount_is : amount ≡ redeemed * rate / 10 ^ 18 =
                            laws.converts _ _ e₁₆ ∙ laws.multiplies _ _ _ e₁₄ in
                          let sent_is : sent ≡ redeemed = laws.converts _ _ e₁₈ in
                          let ratio_is : ratio ≡ proportion =
                            laws.ratio _ _ _ e₃ ∙ ratio_of_one proportion in
                          let range = proportion_ok proportion share in
                          let result = ok-injective e₁₉ in
                          record {
                            environment = environment;
                            rate = rate;
                            before = before;
                            left = left;
                            redeemed = redeemed;
                            environment_is = load-eq-ok _ e₁₀;
                            rate_is = e₁₂;
                            before_is = load-eq-ok _ e₁;
                            some_share = range.0;
                            at_most_all = range.1;
                            redeemed_is =
                                laws.multiplies _ _ _ e₅
                                ∙ ap (λ x. before * x / decimal_one) ratio_is;
                            some_redeemed = redeemed_ok redeemed before enough;
                            conserved = laws.subtracts _ _ _ e₈;
                            debited = sym (ap (λ (p : Response × State). p.1) result);
                            sent =
                                rw (sym amount_is, sym sent_is)
                                  (sym (ap (λ (p : Response × State). p.0) result));
                          }
