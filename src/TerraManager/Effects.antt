-- ===== src/TerraManager/Effects.antt =====
-- What each operation of the Terra manager does to the storage when it succeeds.
use position_managers.Prelude.{
  ℕ, ◌+◌, ◌<◌, ◌^◌, ◌≡◌, refl, sym, ap, ◌∙◌, ◌⊎◌, inl, inr, Bool, true, false, not, Option, none,
  some, List, [], ◌∷◌, arith, Bool-cases, unwrap_or, length, ltb, ltb→lt, ◌==◌,
}
use position_managers.Cosmwasm.{
  load-eq-ok, not-eq-false, Bytes, Result, ok, err, load, fail_if, checked_add, ◌>>◌, chain,
  guarded-elim, >>=-eq-ok, ok-injective, MessageInfo, Env, StdError,
}
use position_managers.Common.{
  Asset, open_position, Position, PositionKey, Strategy, get_position_key, terra_chain,
  terra_chain_id,
}
use position_managers.Message.{CosmosMsg, Response, plain_messages}
use position_managers.Host.{Host}
use position_managers.Wormhole.{ParsedVaa}
use position_managers.Instruction.{
  ApertureInstruction, position_open_instruction, execute_strategy_instruction,
  single_token_disbursement_instruction, deserialize,
}
use position_managers.TerraManager.State.{State, save_position, bytes_eq}
use position_managers.TerraManager.TerraChain.{
  create_position, save_new_position_info_and_open_it, create_execute_strategy_messages,
  assign_position_id,
}
use position_managers.TerraManager.CrossChain.{
  get_parsed_vaa, process_cross_chain_instruction, fulfil_instruction, carry_out, mark_completed,
  process_transfers, strategy_info_of,
}

pub fail_if-eq-ok : (b : Bool) (x : StdError) → fail_if b x ≡ ok tt → b ≡ false
fail_if-eq-ok true x e = cc
fail_if-eq-ok false x e = refl

-- A guard in front of the rest of a handler.
pub guarded {ℓ} :
    {A : Type ℓ} (b : Bool) (x : StdError) (rest : Result A) {a : A}
    → (fail_if b x >> rest) ≡ ok a
    → (b ≡ false) × (rest ≡ ok a)
guarded true x rest e = cc
guarded false x rest e = (refl, e)

pub checked_add-eq-ok :
    (bits a b n : ℕ) → checked_add bits a b ≡ ok n → (n ≡ a + b) × (a + b < 2 ^ bits)
checked_add-eq-ok bits a b n e = elim (Bool-cases (ltb (a + b) (2 ^ bits))) [
  | inl fits ↦ (sym (ok-injective (rw fits at e)), ltb→lt _ _ fits)
  | inr wraps ↦ absurd (err-ne-ok (rw wraps at e))
]
  where
    err-ne-ok : {x : StdError} {m : ℕ} → ¬ (◌≡◌ {A = Result ℕ} (err x) (ok m))
    err-ne-ok q = cc

pub bytes_eq→eq : (xs ys : Bytes) → bytes_eq xs ys ≡ true → xs ≡ ys
bytes_eq→eq [] [] e = refl
bytes_eq→eq [] (y ∷ ys) e = cc
bytes_eq→eq (x ∷ xs) [] e = cc
bytes_eq→eq (x ∷ xs) (y ∷ ys) e = ground (arith, bytes_eq→eq xs ys)

pub bytes_eq_refl : (xs : Bytes) → bytes_eq xs xs ≡ true
bytes_eq_refl [] = refl
bytes_eq_refl (x ∷ xs) = ground (arith, bytes_eq_refl xs)

-- The storage with a position mapped to a Terra strategy.
abbrev pub located : State → PositionKey → ℕ → State
located s key strategy_id = record s {
  position_to_strategy_location_map =
      save_position key (terra_chain strategy_id) s.position_to_strategy_location_map;
}

pub save_new_position_info_and_open_it-eq-ok :
    (h : Host) (s : State) (env : Env) (info : Option MessageInfo) (position : Position)
    (strategy_id : ℕ) (payload : Option Bytes) (assets : List Asset) (msgs : List CosmosMsg)
    (s' : State)
    → save_new_position_info_and_open_it h s env info position strategy_id payload assets
      ≡ ok (msgs, s')
    → (s' ≡ located s (get_position_key position) strategy_id)
      × (create_execute_strategy_messages h s' env info position (open_position payload) assets
          ≡ ok msgs)
unfolding save_new_position_info_and_open_it
save_new_position_info_and_open_it-eq-ok h s env info position strategy_id payload assets msgs s'
      e =
    let s₁ = located s (get_position_key position) strategy_id in
    let (m, e₁, e₂) =
      >>=-eq-ok
        (create_execute_strategy_messages h s₁ env info position (open_position payload) assets) _
        e in
    let same : s' ≡ s₁ = sym (ap (λ (p : List CosmosMsg × State). p.1) (ok-injective e₂)) in
    (same, rw same (e₁ ∙ ap ok (ap (λ (p : List CosmosMsg × State). p.0) (ok-injective e₂))))

-- A successful `create_position`.
pub record Created (h : Host) (s : State) (env : Env) (info : MessageInfo) (strategy : Strategy)
    (payload : Option Bytes) (assets : List Asset) (r : Response) (s' : State) : Type 0 where
  pub position_id : ℕ
  pub next_was : s.next_position_id ≡ some position_id
  pub in_range : position_id + 1 < 2 ^ 128
  pub on_terra : strategy.chain_id ≡ terra_chain_id
  pub state_is :
      s'
      ≡ located
          (assign_position_id s info.sender position_id (position_id + 1))
          (terra_chain_id, position_id)
          strategy.strategy_id
  pub msgs : List CosmosMsg
  pub response_is : r ≡ plain_messages msgs
  pub opened :
      create_execute_strategy_messages h s' env
        (some info)
        (record { chain_id = terra_chain_id; position_id = position_id })
        (open_position payload)
        assets
      ≡ ok msgs

-- The last step of `create_position`, put together with the facts of the steps before.
created :
    (h : Host) (s : State) (env : Env) (info : MessageInfo) (strategy : Strategy)
    (payload : Option Bytes) (assets : List Asset) (r : Response) (s' : State) (id next : ℕ)
    (m : List CosmosMsg) (s₁ : State)
    → strategy.chain_id ≡ terra_chain_id
    → s.next_position_id ≡ some id
    → (next ≡ id + 1) × (id + 1 < 2 ^ 128)
    → save_new_position_info_and_open_it h
        (assign_position_id s info.sender id next)
        env
        (some info)
        (record { chain_id = terra_chain_id; position_id = id })
        strategy.strategy_id
        payload
        assets
      ≡ ok (m, s₁)
    → plain_messages m ≡ r
    → s₁ ≡ s'
    → Created h s env info strategy payload assets r s'
created h s env info strategy payload assets r s' id next m s₁ terra was (step, fits) saved er es =
    let (same, opened) =
      save_new_position_info_and_open_it-eq-ok h _ env (some info)
        (record { chain_id = terra_chain_id; position_id = id }) strategy.strategy_id payload assets
        m s₁ saved in
    record {
      position_id = id;
      next_was = was;
      in_range = fits;
      on_terra = terra;
      state_is =
          sym es
          ∙ same
          ∙ ap
              (λ n.
                located (assign_position_id s info.sender id n) (terra_chain_id, id)
                  strategy.strategy_id)
              step;
      msgs = m;
      response_is = sym er;
      opened = rw (sym es) opened;
    }

pub create_position-Created :
    (h : Host) (s : State) (env : Env) (info : MessageInfo) (strategy : Strategy)
    (payload : Option Bytes) (assets : List Asset) (r : Response) (s' : State)
    → create_position h s env info strategy payload assets ≡ ok (r, s')
    → Created h s env info strategy payload assets r s'
unfolding create_position
create_position-Created h s env info strategy payload assets r s' e =
    guarded-elim (not (strategy.chain_id == terra_chain_id)) _ _ e λ terra e₁.
      chain (load s.next_position_id) _ e₁ λ id e₂ e₃.
        chain (checked_add 128 id 1) _ e₃ λ next e₄ e₅.
          chain
            (save_new_position_info_and_open_it h (assign_position_id s info.sender id next) env
              (some info) (record { chain_id = terra_chain_id; position_id = id })
              strategy.strategy_id payload assets)
            _ e₅
            λ p e₆ e₇.
              created h s env info strategy payload assets r s' id next p.0 p.1 (ground arith)
                (load-eq-ok _ e₂) (checked_add-eq-ok 128 id 1 next e₄) e₆
                (ap (λ (q : Response × State). q.0) (ok-injective e₇))
                (ap (λ (q : Response × State). q.1) (ok-injective e₇))

carry_out-located :
    (h : Host) (s : State) (env : Env) (position : Position) (x : ApertureInstruction)
    (assets : List Asset) (msgs : List CosmosMsg) (s' : State)
    → carry_out h s env position x assets ≡ ok (msgs, s')
    → (s' ≡ s) ⊎ ((key : PositionKey) × (strategy_id : ℕ) × (s' ≡ located s key strategy_id))
unfolding carry_out
carry_out-located h s env position (position_open_instruction i strategy_id payload) assets msgs s'
      e =
    inr (
      get_position_key position,
      strategy_id,
      (save_new_position_info_and_open_it-eq-ok h s env none position strategy_id payload assets
          msgs s' e).0,
    )
carry_out-located h s env position (execute_strategy_instruction i action) assets msgs s' e =
    chain (create_execute_strategy_messages h s env none position action assets) _ e
      λ m e₁ e₂. inl (sym (ap (λ (q : List CosmosMsg × State). q.1) (ok-injective e₂)))
carry_out-located h s env position
      (single_token_disbursement_instruction sequence chain_id recipient swap_info) assets msgs s'
      e =
    absurd (cc)

-- What a successful instruction leaves: the storage as it was, or with one position mapped.
pub fulfil_instruction-located :
    (h : Host) (s : State) (env : Env) (vaa : ParsedVaa) (vaas : List Bytes) (r : Response)
    (s' : State)
    → fulfil_instruction h s env vaa vaas ≡ ok (r, s')
    → (s' ≡ s) ⊎ ((key : PositionKey) × (strategy_id : ℕ) × (s' ≡ located s key strategy_id))
unfolding fulfil_instruction
fulfil_instruction-located h s env vaa vaas r s' e =
    chain (deserialize h.codec vaa.payload) _ e λ x e₁ e₂.
      chain (strategy_info_of x) _ e₂ λ i e₃ e₄.
        guarded-elim (not (i.strategy_chain_id == terra_chain_id)) _ _ e₄ λ c₁ e₅.
          guarded-elim (not (length i.token_transfer_sequences == length vaas)) _ _ e₅ λ c₂ e₆.
            chain (load s.wormhole_token_bridge_addr) _ e₆ λ bridge e₇ e₈.
              chain
                (process_transfers h s env bridge vaa.emitter_chain vaas i.token_transfer_sequences)
                _ e₈
                λ p e₉ e₁₀.
                  chain
                    (carry_out h s env
                      (record { chain_id = vaa.emitter_chain; position_id = i.position_id }) x p.0)
                    _ e₁₀
                    λ q e₁₁ e₁₂. rw (sym (ap (λ (q : Response × State). q.1) (ok-injective e₁₂))) (
                      carry_out-located h s env
                        (record { chain_id = vaa.emitter_chain; position_id = i.position_id }) x p.0
                        q.0 q.1 e₁₁)

-- A successful `process_cross_chain_instruction`, up to the completion of the instruction.
pub record Accepted (h : Host) (s : State) (env : Env) (instruction_vaa : Bytes) (vaas : List Bytes)
    (r : Response) (s' : State) : Type 0 where
  pub vaa : ParsedVaa
  pub parsed : get_parsed_vaa h s env instruction_vaa ≡ ok vaa
  pub from_manager :
      s.chain_id_to_aperture_manager_address_map vaa.emitter_chain ≡ some vaa.emitter_address
  pub not_completed : unwrap_or (s.completed_instructions vaa.hash) false ≡ false
  pub fulfilled : fulfil_instruction h (mark_completed s vaa.hash) env vaa vaas ≡ ok (r, s')

pub process_cross_chain_instruction-Accepted :
    (h : Host) (s : State) (env : Env) (instruction_vaa : Bytes) (vaas : List Bytes) (r : Response)
    (s' : State)
    → process_cross_chain_instruction h s env instruction_vaa vaas ≡ ok (r, s')
    → Accepted h s env instruction_vaa vaas r s'
unfolding process_cross_chain_instruction
process_cross_chain_instruction-Accepted h s env instruction_vaa vaas r s' e =
    chain (get_parsed_vaa h s env instruction_vaa) _ e λ vaa e₁ e₂.
      chain (load (s.chain_id_to_aperture_manager_address_map vaa.emitter_chain)) _ e₂
        λ expected e₃ e₄. guarded-elim (not (bytes_eq vaa.emitter_address expected)) _ _ e₄ λ c₁ e₅.
          guarded-elim (unwrap_or (s.completed_instructions vaa.hash) false) _ _ e₅ λ c₂ e₆.
            record {
              vaa = vaa;
              parsed = e₁;
              from_manager =
                  load-eq-ok _ e₃
                  ∙ ap some (sym (bytes_eq→eq vaa.emitter_address expected (not-eq-false _ c₁)));
              not_completed = c₂;
              fulfilled = e₆;
            }
