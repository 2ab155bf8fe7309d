-- ===== src/TokenUtil/Transfers.antt =====
-- What the token helpers send, counted by kind of asset, and what they check.
use position_managers.Prelude.{
  ℕ, String, ◌+◌, ◌≤◌, ◌≡◌, ◌↔◌, sym, ap, ◌∙◌, inl, inr, Bool, false, List, [], ◌∷◌, ◌++◌, arith,
  ltb, if◌then◌else◌, str_eq, All, Bool-cases,
}
use position_managers.Cosmwasm.{Addr, ok, chain, ok-injective, Coin, MessageInfo, Env}
use position_managers.Common.{AssetInfo, native_token, token, Asset}
use position_managers.Message.{CosmosMsg, wasm_execute, cw20_transfer, cw20_transfer_from}
use position_managers.Host.{Host}
use position_managers.TokenUtil.{
  forward_assets_direct, forward_loop, forward_step, transfer_msg,
  validate_and_accept_incoming_asset_transfer, accept_loop, accept_step,
}
use mathlib.Core.List.{append_assoc, append-nil}
use text.Mathlib.TextPositions.{eq_refl}

abbrev pub same_info : AssetInfo → AssetInfo → Bool
same_info (native_token d) (native_token e) = str_eq d e
same_info (token a) (token b) = str_eq a b
same_info _ _ = false

-- The amount of one kind among some assets.
unfoldable pub asset_total : AssetInfo → List Asset → ℕ
asset_total kind [] = 0
asset_total kind (a ∷ assets) =
    (if same_info kind a.info then a.amount else 0) + asset_total kind assets

unfoldable pub coin_total : String → List Coin → ℕ
coin_total denom [] = 0
coin_total denom (c ∷ coins) =
    (if str_eq denom c.denom then c.amount else 0) + coin_total denom coins

-- The amount of a cw20 token that a message transfers to a recipient.
unfoldable pub transferred : Addr → Addr → CosmosMsg → ℕ
transferred contract_addr recipient (wasm_execute a (cw20_transfer to amount) funds) =
    if str_eq contract_addr a then (if str_eq recipient to then amount else 0) else 0
transferred contract_addr recipient _ = 0

unfoldable pub transfer_total : Addr → Addr → List CosmosMsg → ℕ
transfer_total contract_addr recipient [] = 0
transfer_total contract_addr recipient (m ∷ msgs) =
    transferred contract_addr recipient m + transfer_total contract_addr recipient msgs

-- What coins and messages together pass on of one kind of asset.
unfoldable pub passed_on : AssetInfo → Addr → List Coin → List CosmosMsg → ℕ
passed_on (native_token denom) recipient funds msgs = coin_total denom funds
passed_on (token contract_addr) recipient funds msgs = transfer_total contract_addr recipient msgs

coin_total-append :
    (d : String) (xs ys : List Coin) → coin_total d (xs ++ ys) ≡ coin_total d xs + coin_total d ys
unfolding coin_total
coin_total-append d [] ys = omega arith
coin_total-append d (x ∷ xs) ys = omega (arith, coin_total-append d xs ys)

transfer_total-append :
    (a recipient : Addr) (xs ys : List CosmosMsg)
    → transfer_total a recipient (xs ++ ys)
      ≡ transfer_total a recipient xs + transfer_total a recipient ys
unfolding transfer_total
transfer_total-append a recipient [] ys = omega arith
transfer_total-append a recipient (x ∷ xs) ys =
    omega (arith, transfer_total-append a recipient xs ys)

forward_step-passed_on :
    (kind info : AssetInfo) (amount : ℕ) (recipient : Addr) (funds : List Coin)
    (msgs : List CosmosMsg)
    → let acc = forward_step info amount recipient (funds, msgs) in
      passed_on kind recipient acc.0 acc.1
      ≡ passed_on kind recipient funds msgs + (if same_info kind info then amount else 0)
unfolding forward_step passed_on transfer_total transferred coin_total
forward_step-passed_on (native_token d) (native_token e) amount recipient funds msgs =
    ground (arith, coin_total-append d funds (record { denom = e; amount = amount } ∷ []))
forward_step-passed_on (native_token d) (token b) amount recipient funds msgs = omega arith
forward_step-passed_on (token a) (native_token e) amount recipient funds msgs = omega arith
forward_step-passed_on (token a) (token b) amount recipient funds msgs = ground (
  arith,
  transfer_total-append a recipient msgs (transfer_msg b amount recipient ∷ []),
  eq_refl recipient,
)

forward_loop-passed_on :
    (kind : AssetInfo) (assets : List Asset) (recipient : Addr) (funds : List Coin)
    (msgs : List CosmosMsg)
    → let acc = forward_loop assets recipient (funds, msgs) in
      passed_on kind recipient acc.0 acc.1
      ≡ passed_on kind recipient funds msgs + asset_total kind assets
unfolding forward_loop asset_total
forward_loop-passed_on kind [] recipient funds msgs = omega arith
forward_loop-passed_on kind (a ∷ assets) recipient funds msgs =
    let acc = forward_step a.info a.amount recipient (funds, msgs) in
    omega (
      arith,
      forward_loop-passed_on kind assets recipient acc.0 acc.1,
      forward_step-passed_on kind a.info a.amount recipient funds msgs,
    )

-- Of every native coin and every cw20 token, the coins and messages pass on to the recipient
-- exactly what the assets hold.
pub forward_assets_direct-passed_on :
    (kind : AssetInfo) (assets : List Asset) (recipient : Addr)
    → let forwarded = forward_assets_direct assets recipient in
      passed_on kind recipient forwarded.0 forwarded.1 ≡ asset_total kind assets
unfolding forward_assets_direct passed_on coin_total transfer_total
forward_assets_direct-passed_on (native_token d) assets recipient =
    omega (arith, forward_loop-passed_on (native_token d) assets recipient [] [])
forward_assets_direct-passed_on (token a) assets recipient =
    omega (arith, forward_loop-passed_on (token a) assets recipient [] [])

pub asset_total-append :
    (kind : AssetInfo) (xs ys : List Asset)
    → asset_total kind (xs ++ ys) ≡ asset_total kind xs + asset_total kind ys
unfolding asset_total
asset_total-append kind [] ys = omega arith
asset_total-append kind (x ∷ xs) ys = omega (arith, asset_total-append kind xs ys)

-- An asset that may be taken in: the coins were sent along, or the allowance covers the amount.
abbrev pub IsCovered : Host → Env → MessageInfo → AssetInfo → ℕ → Type 0
IsCovered h env info (native_token denom) amount =
    h.assert_sent_native_token_balance (record { info = native_token denom; amount = amount }) info
    ≡ ok tt
IsCovered h env info (token contract_addr) amount =
    (allowance : ℕ) × (h.query_allowance contract_addr info.sender env.contract_address
      ≡ ok allowance)
    × (amount ≤ allowance)

-- The transfers that take the cw20 tokens in.
unfoldable pub taken_in : Env → MessageInfo → AssetInfo → ℕ → List CosmosMsg
taken_in env info (native_token denom) amount = []
taken_in env info (token contract_addr) amount =
    wasm_execute contract_addr (cw20_transfer_from info.sender env.contract_address amount) [] ∷ []

unfoldable pub all_taken_in : Env → MessageInfo → List Asset → List CosmosMsg
unfolding taken_in
all_taken_in env info [] = []
all_taken_in env info (a ∷ assets) =
    taken_in env info a.info a.amount ++ all_taken_in env info assets

module _ (h : Host) (env : Env) (info : MessageInfo) where
  accept_step-IsCovered :
      (i : AssetInfo) (amount : ℕ) (msgs : List CosmosMsg) (flag : Bool)
      (acc : List CosmosMsg × Bool)
      → accept_step h env info i amount (msgs, flag) ≡ ok acc
      → acc.1 ≡ false
      → (flag ≡ false)
        × IsCovered h env info i amount
        × (acc.0 ≡ msgs ++ taken_in env info i amount)
  unfolding accept_step taken_in
  accept_step-IsCovered (native_token denom) amount msgs flag acc e clear =
      chain
        (h.assert_sent_native_token_balance (record { info = native_token denom; amount = amount })
          info)
        _ e
        λ _ e₁ e₂. (
          ap (λ (p : List CosmosMsg × Bool). p.1) (ok-injective e₂) ∙ clear,
          e₁,
          sym (ap (λ (p : List CosmosMsg × Bool). p.0) (ok-injective e₂)) ∙ sym (append-nil msgs),
        )
  accept_step-IsCovered (token a) amount msgs flag acc e clear =
      chain (h.query_allowance a info.sender env.contract_address) _ e λ allowance e₁ e₂.
        elim (Bool-cases (ltb allowance amount)) [
          | inl short ↦ ground arith
          | inr enough ↦ (ground arith, (allowance, e₁, ground arith), ground arith)
        ]

  accept_loop-IsCovered :
      (assets : List Asset) (msgs : List CosmosMsg) (flag : Bool) (acc : List CosmosMsg × Bool)
      → accept_loop h env info assets (msgs, flag) ≡ ok acc
      → acc.1 ≡ false
      → (flag ≡ false)
        × All (λ a. IsCovered h env info a.info a.amount) assets
        × (acc.0 ≡ msgs ++ all_taken_in env info assets)
  unfolding accept_loop all_taken_in
  accept_loop-IsCovered [] msgs flag acc e clear = (
    ap (λ (p : List CosmosMsg × Bool). p.1) (ok-injective e) ∙ clear,
    tt,
    sym (ap (λ (p : List CosmosMsg × Bool). p.0) (ok-injective e)) ∙ sym (append-nil msgs),
  )
  accept_loop-IsCovered (a ∷ assets) msgs flag acc e clear =
      chain (accept_step h env info a.info a.amount (msgs, flag)) _ e λ step e₁ e₂.
        let (clear', rest, eq) = accept_loop-IsCovered assets step.0 step.1 acc e₂ clear in
        let (clear'', covered, eq') =
          accept_step-IsCovered a.info a.amount msgs flag step e₁ clear' in
        (clear'', (covered, rest), eq ∙ rw eq' (append_assoc msgs _ _))

  validate-IsCovered :
      (assets : List Asset) (msgs : List CosmosMsg)
      → validate_and_accept_incoming_asset_transfer h env info assets ≡ ok msgs
      → All (λ a. IsCovered h env info a.info a.amount) assets
        × (msgs ≡ all_taken_in env info assets)
  unfolding validate_and_accept_incoming_asset_transfer
  validate-IsCovered assets msgs e =
      chain (accept_loop h env info assets ([], false)) _ e λ acc e₁ e₂. elim (Bool-cases acc.1) [
        | inl short ↦ ground arith
        | inr clear ↦
            let (_, covered, eq) = accept_loop-IsCovered assets [] false acc e₁ clear in
            (covered, ok-injective (sym (rw clear at e₂)) ∙ eq)
      ]

  accept_step_ok :
      (i : AssetInfo) (amount : ℕ) (msgs : List CosmosMsg) (flag : Bool)
      → IsCovered h env info i amount
      → accept_step h env info i amount (msgs, flag) ≡ ok (msgs ++ taken_in env info i amount, flag)
  unfolding accept_step taken_in
  accept_step_ok (native_token denom) amount msgs flag covered = rw (covered, append-nil)
  accept_step_ok (token a) amount msgs flag (allowance, asked, enough) = rw asked (ground arith)

  accept_loop_ok :
      (assets : List Asset) (msgs : List CosmosMsg) (flag : Bool)
      → All (λ a. IsCovered h env info a.info a.amount) assets
      → accept_loop h env info assets (msgs, flag) ≡ ok (msgs ++ all_taken_in env info assets, flag)
  unfolding accept_loop all_taken_in
  accept_loop_ok [] msgs flag covered = rw append-nil
  accept_loop_ok (a ∷ assets) msgs flag covered = rw (
    accept_step_ok a.info a.amount msgs flag covered.0,
    accept_loop_ok assets (msgs ++ taken_in env info a.info a.amount) flag covered.1,
    append_assoc,
  )

  -- Assets are taken in exactly when every one of them is covered: its coins were sent along, or
  -- its allowance is large enough. The messages are then the transfers of the cw20 tokens, in order.
  pub validate_and_accept_incoming_asset_transfer_iff :
      (assets : List Asset) (msgs : List CosmosMsg)
      → (validate_and_accept_incoming_asset_transfer h env info assets ≡ ok msgs) ↔ (
          All (λ a. IsCovered h env info a.info a.amount) assets
          × (msgs ≡ all_taken_in env info assets))
  unfolding validate_and_accept_incoming_asset_transfer
  validate_and_accept_incoming_asset_transfer_iff assets msgs = (
    validate-IsCovered assets msgs,
    λ (covered, eq). rw (accept_loop_ok assets [] false covered, eq),
  )
