-- ===== src/TerraManager/Arrivals.antt =====
-- Instructions and tokens that arrive from another chain: what has been checked when they are
-- accepted.
use position_managers.Prelude.{ℕ, ◌+◌, ◌≡◌, sym, ap, false, not, List, [], ◌∷◌, arith, ◌==◌, length}
use position_managers.Cosmwasm.{
  not-eq-false, Addr, Bytes, ok, load, sub_128, chain, guarded-elim, ok-injective, Env,
}
use position_managers.Common.{Asset, terra_chain_id}
use position_managers.ByteUtil.{extend_terra_address_to_32}
use position_managers.Message.{Response}
use position_managers.Host.{Host}
use position_managers.Wormhole.{
  ParsedVaa, TokenBridgeMessage, TransferInfo, action_transfer, deserialize_token_bridge_message,
  deserialize_transfer_info,
}
use position_managers.Instruction.{StrategyInstructionInfo, ApertureInstruction, deserialize}
use position_managers.TerraManager.State.{State, bytes_eq}
use position_managers.TerraManager.CrossChain.{
  get_parsed_vaa, process_token_transfer_message, parse_token_transfer_asset, parse_token,
  process_transfers, strategy_info_of, fulfil_instruction,
}
use position_managers.TerraManager.Effects.{bytes_eq→eq}

-- A token transfer that is accepted: it comes from the instruction's chain with the expected
-- sequence, is a transfer of a Terra token to this contract, and counts for its amount less the fee.
pub record Arrived (h : Host) (s : State) (env : Env) (emitter_chain sequence : ℕ)
    (vaa_bytes : Bytes) (asset : Asset) : Type 0 where
  pub vaa : ParsedVaa
  pub message : TokenBridgeMessage
  pub transfer : TransferInfo
  pub canonical : Bytes
  pub parsed : get_parsed_vaa h s env vaa_bytes ≡ ok vaa
  pub same_chain : vaa.emitter_chain ≡ emitter_chain
  pub same_sequence : vaa.sequence ≡ sequence
  pub message_is : deserialize_token_bridge_message vaa.payload ≡ ok message
  pub is_transfer : message.action ≡ action_transfer
  pub transfer_is : deserialize_transfer_info message.payload ≡ ok transfer
  pub to_terra : transfer.recipient_chain ≡ terra_chain_id
  pub contract_is : h.addr_canonicalize env.contract_address ≡ ok canonical
  pub to_contract : transfer.recipient ≡ extend_terra_address_to_32 canonical
  pub terra_token : transfer.token_chain ≡ terra_chain_id
  pub less_fee : asset.amount + transfer.fee.1 ≡ transfer.amount.1
  pub token_is : parse_token h transfer.token_address ≡ ok asset.info

==-eq-true : (a b : ℕ) → not (a == b) ≡ false → a ≡ b
==-eq-true a b e = ground arith

sub_128-add : (a b c : ℕ) → sub_128 a b ≡ ok c → c + b ≡ a
sub_128-add a b c e = ground arith

parse_token_transfer_asset-eq-ok :
    (h : Host) (t : TransferInfo) (asset : Asset)
    → parse_token_transfer_asset h t ≡ ok asset
    → (t.token_chain ≡ terra_chain_id)
      × (asset.amount + t.fee.1 ≡ t.amount.1)
      × (parse_token h t.token_address ≡ ok asset.info)
unfolding parse_token_transfer_asset
parse_token_transfer_asset-eq-ok h t asset e =
    guarded-elim (not (t.token_chain == terra_chain_id)) _ _ e λ terra e₁.
      chain (sub_128 t.amount.1 t.fee.1) _ e₁ λ amount e₂ e₃.
        chain (parse_token h t.token_address) _ e₃
          λ info e₄ e₅. rw (sym (ok-injective e₅)) (==-eq-true _ _ terra, sub_128-add _ _ _ e₂, e₄)

-- A token transfer VAA that is accepted is verified by the core bridge, was emitted on the expected
-- chain with the expected sequence, and is a bare transfer of a Terra token to this contract; the
-- asset counts for the amount less the fee. Who emitted it on that chain is not checked here.
pub process_token_transfer_message-Arrived :
    (h : Host) (s : State) (env : Env) (emitter_chain sequence : ℕ) (vaa_bytes : Bytes)
    (asset : Asset)
    → process_token_transfer_message h s env emitter_chain sequence vaa_bytes ≡ ok asset
    → Arrived h s env emitter_chain sequence vaa_bytes asset
unfolding process_token_transfer_message
process_token_transfer_message-Arrived h s env emitter_chain sequence vaa_bytes asset e =
    chain (get_parsed_vaa h s env vaa_bytes) _ e λ vaa e₁ e₂.
      guarded-elim (not (emitter_chain == vaa.emitter_chain)) _ _ e₂ λ c₁ e₃.
        guarded-elim (not (sequence == vaa.sequence)) _ _ e₃ λ c₂ e₄.
          chain (deserialize_token_bridge_message vaa.payload) _ e₄ λ message e₅ e₆.
            guarded-elim (not (message.action == action_transfer)) _ _ e₆ λ c₃ e₇.
              chain (deserialize_transfer_info message.payload) _ e₇ λ transfer e₈ e₉.
                guarded-elim (not (transfer.recipient_chain == terra_chain_id)) _ _ e₉ λ c₄ e₁₀.
                  chain (h.addr_canonicalize env.contract_address) _ e₁₀ λ canonical e₁₁ e₁₂.
                    guarded-elim
                      (not (bytes_eq transfer.recipient (extend_terra_address_to_32 canonical))) _ _
                      e₁₂
                      λ c₅ e₁₃.
                        let (terra, less, token_eq) =
                          parse_token_transfer_asset-eq-ok h transfer asset e₁₃ in
                        record {
                          vaa = vaa;
                          message = message;
                          transfer = transfer;
                          canonical = canonical;
                          parsed = e₁;
                          same_chain = sym (==-eq-true _ _ c₁);
                          same_sequence = sym (==-eq-true _ _ c₂);
                          message_is = e₅;
                          is_transfer = ==-eq-true _ _ c₃;
                          transfer_is = e₈;
                          to_terra = ==-eq-true _ _ c₄;
                          contract_is = e₁₁;
                          to_contract = bytes_eq→eq _ _ (not-eq-false _ c₅);
                          terra_token = terra;
                          less_fee = less;
                          token_is = token_eq;
                        }

-- Each transfer of an instruction has arrived, in the order of the sequences that it names.
abbrev pub AllArrived : Host → State → Env → ℕ → List Bytes → List ℕ → List Asset → Type 0
AllArrived h s env chain_id [] [] [] = Unit
AllArrived h s env chain_id (v ∷ vaas) (n ∷ sequences) (a ∷ assets) =
    Arrived h s env chain_id n v a × AllArrived h s env chain_id vaas sequences assets
AllArrived h s env chain_id vaas sequences assets = ⊥

process_transfers-AllArrived :
    (h : Host) (s : State) (env : Env) (bridge : Addr) (chain_id : ℕ) (vaas : List Bytes)
    (sequences : List ℕ) (assets : List Asset) (r : Response)
    → length sequences ≡ length vaas
    → process_transfers h s env bridge chain_id vaas sequences ≡ ok (assets, r)
    → AllArrived h s env chain_id vaas sequences assets
unfolding process_transfers
process_transfers-AllArrived h s env bridge chain_id [] [] assets r same e =
    rw (sym (ap (λ (p : List Asset × Response). p.0) (ok-injective e))) tt
process_transfers-AllArrived h s env bridge chain_id [] (n ∷ ns) assets r same e =
    absurd (omega arith)
process_transfers-AllArrived h s env bridge chain_id (v ∷ vs) [] assets r same e =
    absurd (omega arith)
process_transfers-AllArrived h s env bridge chain_id (v ∷ vs) (n ∷ ns) assets r same e =
    chain (process_token_transfer_message h s env chain_id n v) _ e λ asset e₁ e₂.
      chain (process_transfers h s env bridge chain_id vs ns) _ e₂ λ rest e₃ e₄.
        rw (sym (ap (λ (p : List Asset × Response). p.0) (ok-injective e₄))) (
          process_token_transfer_message-Arrived h s env chain_id n v asset e₁,
          process_transfers-AllArrived h s env bridge chain_id vs ns rest.0 rest.1 (omega arith) e₃,
        )

-- An instruction that is fulfilled: it can be read, is meant for Terra, and its transfers arrived.
pub record Fulfilled (h : Host) (s : State) (env : Env) (vaa : ParsedVaa) (vaas : List Bytes)
    : Type 0 where
  pub instruction : ApertureInstruction
  pub strategy_info : StrategyInstructionInfo
  pub assets : List Asset
  pub decoded : deserialize h.codec vaa.payload ≡ ok instruction
  pub info_is : strategy_info_of instruction ≡ ok strategy_info
  pub for_terra : strategy_info.strategy_chain_id ≡ terra_chain_id
  pub transfers :
      AllArrived h s env vaa.emitter_chain vaas strategy_info.token_transfer_sequences assets

-- An instruction is fulfilled only if its payload decodes to an instruction of a Terra strategy,
-- and each of its sequences has its token transfer among the VAAs, in order, as `Arrived` says.
pub fulfil_instruction-Fulfilled :
    (h : Host) (s : State) (env : Env) (vaa : ParsedVaa) (vaas : List Bytes) (p : Response × State)
    → fulfil_instruction h s env vaa vaas ≡ ok p
    → Fulfilled h s env vaa vaas
unfolding fulfil_instruction
fulfil_instruction-Fulfilled h s env vaa vaas p e =
    chain (deserialize h.codec vaa.payload) _ e λ x e₁ e₂.
      chain (strategy_info_of x) _ e₂ λ i e₃ e₄.
        guarded-elim (not (i.strategy_chain_id == terra_chain_id)) _ _ e₄ λ c₁ e₅.
          guarded-elim (not (length i.token_transfer_sequences == length vaas)) _ _ e₅ λ c₂ e₆.
            chain (load s.wormhole_token_bridge_addr) _ e₆ λ bridge e₇ e₈.
              chain
                (process_transfers h s env bridge vaa.emitter_chain vaas i.token_transfer_sequences)
                _ e₈
                λ q e₉ e₁₀. record {
                  instruction = x;
                  strategy_info = i;
                  assets = q.0;
                  decoded = e₁;
                  info_is = e₃;
                  for_terra = ==-eq-true _ _ c₁;
                  transfers =
                      process_transfers-AllArrived h s env bridge vaa.emitter_chain vaas
                        i.token_transfer_sequences q.0 q.1 (==-eq-true _ _ c₂) e₉;
                }
