-- ===== src/TerraManager/Fees.antt =====
-- Tokens sent to another chain: the fee, and what goes on.
use position_managers.Prelude.{
  ℕ, ◌+◌, ◌≡◌, refl, ◌∙◌, ◌==◌, ==_iff, length, sym, ap, Option, some, List, [], ◌∷◌, ◌++◌, arith,
  if◌then◌else◌,
}
use position_managers.Cosmwasm.{
  load-eq-ok, Addr, Bytes, ok, load, sub_128, chain, branch, ok-injective,
}
use position_managers.Common.{AssetInfo, Asset, SwapAndDisburseInfo}
use position_managers.Message.{CosmosMsg, wasm_execute, post_message, initiate_transfer}
use position_managers.Host.{Host}
use position_managers.Instruction.{single_token_disbursement_instruction, serialize}
use position_managers.TokenUtil.{forward_assets_direct}
use position_managers.TokenUtil.Transfers.{same_info, asset_total, asset_total-append}
use position_managers.TerraManager.State.{State, CrossChainOutgoingFeeConfig}
use position_managers.TerraManager.CrossChain.{
  push_nonzero, split_fees, transfer_to_chain, only_asset, send_funds, hand_to_bridge, to_array_32,
  get_next_sequence, wormhole_nonce,
}

abbrev amount_if : AssetInfo → AssetInfo → ℕ → ℕ
amount_if kind info amount = if same_info kind info then amount else 0

-- An amount of zero is left out, and counts for nothing.
push_nonzero-total :
    (kind info : AssetInfo) (assets : List Asset) (amount : ℕ)
    → asset_total kind (push_nonzero assets info amount)
      ≡ asset_total kind assets + amount_if kind info amount
unfolding asset_total
push_nonzero-total kind info assets amount =
    ground (arith, asset_total-append kind assets (record { info = info; amount = amount } ∷ []))

sub_128-eq-ok : (a b c : ℕ) → sub_128 a b ≡ ok c → a ≡ b + c
sub_128-eq-ok a b c e = ground arith

amount_if-add :
    (kind info : AssetInfo) (a b c : ℕ)
    → a ≡ b + c
    → amount_if kind info a ≡ amount_if kind info b + amount_if kind info c
amount_if-add kind info a b c e = ground arith

-- Of every kind of asset, fees and cross-chain amounts make up the whole.
pub split_fees-total :
    (h : Host) (rate : ℕ) (kind : AssetInfo) (assets fees cross : List Asset)
    (out : List Asset × List Asset)
    → split_fees h rate assets (fees, cross) ≡ ok out
    → asset_total kind out.0 + asset_total kind out.1
      ≡ asset_total kind fees + asset_total kind cross + asset_total kind assets
unfolding split_fees asset_total
split_fees-total h rate kind [] fees cross out e = rw (sym (ok-injective e)) (omega arith)
split_fees-total h rate kind (a ∷ assets) fees cross out e =
    chain (h.mul_decimal a.amount rate) _ e λ fee e₁ e₂.
      chain (sub_128 a.amount fee) _ e₂ λ rest e₃ e₄. omega (
        arith,
        split_fees-total h rate kind assets (push_nonzero fees a.info fee)
            (push_nonzero cross a.info rest) out e₄,
        push_nonzero-total kind a.info fees fee,
        push_nonzero-total kind a.info cross rest,
        amount_if-add kind a.info a.amount fee rest (sub_128-eq-ok a.amount fee rest e₃),
      )

-- The fee that the rate takes of each asset.
abbrev pub Charges : Host → ℕ → List Asset → List Asset → Type 0
Charges h rate [] [] = Unit
Charges h rate (a ∷ assets) (fee ∷ charged) =
    (fee.info ≡ a.info)
    × (h.mul_decimal a.amount rate ≡ ok fee.amount)
    × Charges h rate assets charged
Charges h rate assets charged = ⊥

-- Of every kind of asset, the fees are what the rate takes.
split_fees-Charges :
    (h : Host) (rate : ℕ) (assets fees cross : List Asset) (out : List Asset × List Asset)
    → split_fees h rate assets (fees, cross) ≡ ok out
    → (charged : List Asset) × Charges h rate assets charged
      × ((kind : AssetInfo)
          → asset_total kind out.0 ≡ asset_total kind fees + asset_total kind charged)
unfolding split_fees asset_total
split_fees-Charges h rate [] fees cross out e =
    ([], tt, λ kind. rw (sym (ok-injective e)) (omega arith))
split_fees-Charges h rate (a ∷ assets) fees cross out e =
    chain (h.mul_decimal a.amount rate) _ e λ fee e₁ e₂.
      chain (sub_128 a.amount fee) _ e₂ λ rest e₃ e₄.
        let (charged, charges, totals) =
          split_fees-Charges h rate assets (push_nonzero fees a.info fee)
            (push_nonzero cross a.info rest) out e₄ in
        (
          record { info = a.info; amount = fee } ∷ charged,
          (refl, e₁, charges),
          λ kind. omega (arith, totals kind, push_nonzero-total kind a.info fees fee),
        )

-- A transfer to another chain that goes out: what is paid as fees, the one asset that is handed to
-- the bridge, the instruction that is posted for its sequence, and the last message, which asks the
-- bridge to send the asset to the Aperture manager of the recipient's chain.
pub record SentAbroad (h : Host) (s : State) (assets : List Asset) (recipient_chain_id : ℕ)
    (recipient_addr : Bytes) (swap_info : Option SwapAndDisburseInfo) (msgs : List CosmosMsg)
    : Type 0 where
  pub config : CrossChainOutgoingFeeConfig
  pub bridge : Addr
  pub core : Addr
  pub manager : Bytes
  pub fees : List Asset
  pub asset : Asset
  pub charged : List Asset
  pub sequence : ℕ
  pub instruction_bytes : Bytes
  pub config_is : s.cross_chain_outgoing_fee_config ≡ some config
  pub bridge_is : s.wormhole_token_bridge_addr ≡ some bridge
  pub core_is : s.wormhole_core_bridge_addr ≡ some core
  pub manager_is : s.chain_id_to_aperture_manager_address_map recipient_chain_id ≡ some manager
  pub sequence_is : get_next_sequence h s bridge ≡ ok sequence
  pub recipient_fits : length recipient_addr ≡ 32
  pub instruction_is :
      serialize h.codec
        (single_token_disbursement_instruction sequence recipient_chain_id recipient_addr swap_info)
      ≡ ok instruction_bytes
  pub charges : Charges h config.rate assets charged
  pub fees_are : (kind : AssetInfo) → asset_total kind fees ≡ asset_total kind charged
  pub conserved :
      (kind : AssetInfo)
      → asset_total kind fees + asset_total kind (asset ∷ []) ≡ asset_total kind assets
  pub sent :
      let forwarded = forward_assets_direct fees config.fee_collector_addr in
      msgs
      ≡ forwarded.1
        ++ (send_funds config.fee_collector_addr forwarded.0
            ++ (wasm_execute core (post_message instruction_bytes wormhole_nonce) []
                ∷ hand_to_bridge bridge asset.info asset.amount
                ∷ wasm_execute bridge
                    (initiate_transfer asset recipient_chain_id manager 0 wormhole_nonce)
                    []
                ∷ []))

only_asset-eq-ok :
    (assets : List Asset) (asset : Asset) → only_asset assets ≡ ok asset → assets ≡ asset ∷ []
unfolding only_asset
only_asset-eq-ok [] asset e = cc
only_asset-eq-ok (a ∷ []) asset e = ap (λ (x : Asset). x ∷ []) (ok-injective e)
only_asset-eq-ok (a ∷ b ∷ rest) asset e = cc

to_array_32-eq-ok :
    (bytes array : Bytes) → to_array_32 bytes ≡ ok array → (length bytes ≡ 32) × (array ≡ bytes)
unfolding to_array_32
to_array_32-eq-ok bytes array e =
    branch (length bytes == 32) _ _ e
      (λ fits e. ((==_iff (length bytes) 32).0 fits, sym (ok-injective e))) (λ unfit e. absurd (cc))

empty_total : (kind : AssetInfo) (n : ℕ) → asset_total kind [] + n ≡ n
unfolding asset_total
empty_total kind n = omega arith

-- The totals, once the fees and the single asset are known.
conserved_total :
    (h : Host) (rate : ℕ) (assets fees cross : List Asset) (asset : Asset) (kind : AssetInfo)
    → split_fees h rate assets ([], []) ≡ ok (fees, cross)
    → cross ≡ asset ∷ []
    → asset_total kind fees + asset_total kind (asset ∷ []) ≡ asset_total kind assets
unfolding asset_total
conserved_total h rate assets fees cross asset kind e one =
    let total = split_fees-total h rate kind assets [] [] (fees, cross) e in
    let counted = ap (asset_total kind) one in omega arith

-- A transfer to another chain goes out only whole. Of every kind of asset the fees are what the
-- configured rate takes of each asset, and they and the one asset that crosses make up what came in.
-- The messages pay the fees to the collector, post the instruction to disburse to the 32 bytes of
-- the recipient's address, for the bridge's next sequence and with the swap asked for, and have the
-- bridge send the asset to the Aperture manager registered for the recipient's chain.
pub transfer_to_chain-SentAbroad :
    (h : Host) (s : State) (assets : List Asset) (recipient_chain_id : ℕ) (recipient_addr : Bytes)
    (swap_info : Option SwapAndDisburseInfo) (msgs : List CosmosMsg)
    → transfer_to_chain h s assets recipient_chain_id recipient_addr swap_info ≡ ok msgs
    → SentAbroad h s assets recipient_chain_id recipient_addr swap_info msgs
unfolding transfer_to_chain
transfer_to_chain-SentAbroad h s assets recipient_chain_id recipient_addr swap_info msgs e =
    chain (load s.cross_chain_outgoing_fee_config) _ e λ config e₁ e₂.
      chain (load s.wormhole_token_bridge_addr) _ e₂ λ bridge e₃ e₄.
        chain (split_fees h config.rate assets ([], [])) _ e₄ λ split e₅ e₆.
          chain (get_next_sequence h s bridge) _ e₆ λ sequence e₇ e₈.
            chain (to_array_32 recipient_addr) _ e₈ λ recipient e₉ e₁₀.
              chain
                (serialize h.codec (
                  single_token_disbursement_instruction sequence recipient_chain_id recipient
                    swap_info))
                _ e₁₀
                λ bytes e₁₁ e₁₂. chain (load s.wormhole_core_bridge_addr) _ e₁₂ λ core e₁₃ e₁₄.
                  chain (only_asset split.1) _ e₁₄ λ asset e₁₅ e₁₆.
                    chain (load (s.chain_id_to_aperture_manager_address_map recipient_chain_id)) _
                      e₁₆
                      λ manager e₁₇ e₁₈.
                        let (charged, charges, totals) =
                          split_fees-Charges h config.rate assets [] [] split e₅ in
                        let (fits, same) = to_array_32-eq-ok recipient_addr recipient e₉ in
                        record {
                          config = config;
                          bridge = bridge;
                          core = core;
                          manager = manager;
                          fees = split.0;
                          asset = asset;
                          charged = charged;
                          sequence = sequence;
                          instruction_bytes = bytes;
                          sequence_is = e₇;
                          recipient_fits = fits;
                          instruction_is = rw same at e₁₁;
                          charges = charges;
                          fees_are =
                              λ kind. totals kind ∙ empty_total kind (asset_total kind charged);
                          config_is = load-eq-ok _ e₁;
                          bridge_is = load-eq-ok _ e₃;
                          core_is = load-eq-ok _ e₁₃;
                          manager_is = load-eq-ok _ e₁₇;
                          conserved = λ kind.
                              conserved_total h config.rate assets split.0 split.1 asset kind e₅
                                (only_asset-eq-ok split.1 asset e₁₅);
                          sent = sym (ok-injective e₁₈);
                        }
