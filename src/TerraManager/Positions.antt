-- ===== src/TerraManager/Positions.antt =====
-- The bookkeeping of positions: their ids, their holders, and the index by holder.
use position_managers.Prelude.{
  ℕ, ◌+◌, ◌≤◌, ◌<◌, ◌≡◌, ◌≢◌, ◌↔◌, refl, sym, ap, ◌∙◌, inl, inr, true, Option, none, some, List,
  arith, eq_iff,
}
use position_managers.Cosmwasm.{Addr, Bytes, ok, chain, ok-injective, MessageInfo, Env}
use native.Mathlib.Nat.{add-zero}
use position_managers.Common.{Asset, PositionKey, Strategy, terra_chain_id}
use position_managers.Message.{Response}
use position_managers.Host.{Host}
use position_managers.TerraManager.State.{State}
use position_managers.TerraManager.TerraChain.{assign_position_id}
use position_managers.TerraManager.CrossChain.{mark_completed}
use position_managers.TerraManager.Contract.{
  InstantiateMsg, instantiate, ExecuteMsg, update_admin_addr, add_strategy_msg, remove_strategy_msg,
  register_external_chain_manager_msg, create_position_msg, execute_strategy_msg,
  process_cross_chain_instruction_msg, initiate_outgoing_token_transfer_msg, execute,
}
use position_managers.TerraManager.Settings.{
  stored, add_strategy-AddedStrategy, remove_strategy-eq-ok, register-eq-ok, update_admin-eq-ok,
  keep_state-eq-ok,
}
use position_managers.TerraManager.Effects.{
  located, Created, create_position-Created, Accepted, process_cross_chain_instruction-Accepted,
  fulfil_instruction-located,
}

-- `n` positions have been created.
pub record IsConsistent (s : State) (n : ℕ) : Type 0 where
  pub next_is : s.next_position_id ≡ some n
  pub unassigned : (id : ℕ) → n ≤ id → s.position_id_to_holder id ≡ none
  pub assigned : (id : ℕ) → id < n → s.position_id_to_holder id ≢ none
  pub mapped : (id : ℕ) → id < n → s.position_to_strategy_location_map (terra_chain_id, id) ≢ none
  pub indexed :
      (a : Addr) (id : ℕ)
      → (s.holder_position_id_pair_set a id ≡ true) ↔ (s.position_id_to_holder id ≡ some a)

-- Mapping one more position keeps the bookkeeping.
located-IsConsistent :
    (s : State) (n : ℕ) (key : PositionKey) (strategy_id : ℕ)
    → IsConsistent s n
    → IsConsistent (located s key strategy_id) n
located-IsConsistent s n key strategy_id c = record {
  next_is = c.next_is;
  unassigned = c.unassigned;
  assigned = c.assigned;
  mapped = λ id h e. ground (arith, c.mapped id h);
  indexed = c.indexed;
}

-- So does handing out the next id, once the new position is mapped.
create-IsConsistent :
    (s : State) (n : ℕ) (sender : Addr) (strategy_id : ℕ)
    → IsConsistent s n
    → IsConsistent
        (located (assign_position_id s sender n (n + 1)) (terra_chain_id, n) strategy_id)
        (n + 1)
create-IsConsistent s n sender strategy_id c = record {
  next_is = refl;
  unassigned = λ id h. ground (arith, c.unassigned id);
  assigned = λ id h e. ground (arith, c.assigned id);
  mapped = λ id h e. ground (arith, c.mapped id);
  indexed = λ a id. ground (arith, c.indexed a id, eq_iff sender a, c.unassigned id);
}

-- The parts of the storage that the bookkeeping is about.
record SamePositions (s t : State) : Type 0 where
  same_next : t.next_position_id ≡ s.next_position_id
  same_holder : t.position_id_to_holder ≡ s.position_id_to_holder
  same_pairs : t.holder_position_id_pair_set ≡ s.holder_position_id_pair_set
  same_map : t.position_to_strategy_location_map ≡ s.position_to_strategy_location_map

SamePositions-IsConsistent :
    (s t : State) (n : ℕ) → SamePositions s t → IsConsistent s n → IsConsistent t n
SamePositions-IsConsistent s t n same c = record {
  next_is = rw same.same_next c.next_is;
  unassigned = rw same.same_holder c.unassigned;
  assigned = rw same.same_holder c.assigned;
  mapped = rw same.same_map c.mapped;
  indexed = rw (same.same_holder, same.same_pairs) c.indexed;
}

-- A change of the settings alone.
settings_only :
    (s t : State) (n : ℕ) → SamePositions s t → IsConsistent s n → IsConsistent t (n + 0)
settings_only s t n same c = rw add-zero (SamePositions-IsConsistent s t n same c)

some_inj : {a b : ℕ} → some a ≡ some b → a ≡ b
some_inj e = cc

create_position-IsConsistent :
    (h : Host) (s : State) (env : Env) (info : MessageInfo) (strategy : Strategy)
    (payload : Option Bytes) (assets : List Asset) (r : Response) (t : State) (n : ℕ)
    → IsConsistent s n
    → Created h s env info strategy payload assets r t
    → IsConsistent t (n + 1)
create_position-IsConsistent h s env info strategy payload assets r t n c created =
    let same : created.position_id ≡ n = some_inj (sym created.next_was ∙ c.next_is) in
    rw (created.state_is, same) (create-IsConsistent s n info.sender strategy.strategy_id c)

process-IsConsistent :
    (h : Host) (s : State) (env : Env) (vaa : Bytes) (vaas : List Bytes) (r : Response) (t : State)
    (n : ℕ)
    → IsConsistent s n
    → Accepted h s env vaa vaas r t
    → IsConsistent t n
process-IsConsistent h s env vaa vaas r t n c accepted =
    let marked : State = mark_completed s accepted.vaa.hash in
    let same : SamePositions s marked = record {
      same_next = refl;
      same_holder = refl;
      same_pairs = refl;
      same_map = refl;
    } in
    let c' : IsConsistent marked n = SamePositions-IsConsistent s marked n same c in
    elim (fulfil_instruction-located h marked env accepted.vaa vaas r t accepted.fulfilled) [
      | inl unchanged ↦ rw unchanged c'
      | inr (key, strategy_id, changed) ↦
          rw changed (located-IsConsistent marked n key strategy_id c')
    ]

-- The number of positions that a message creates.
abbrev pub creates : ExecuteMsg → ℕ
creates (create_position_msg strategy payload assets) = 1
creates msg = 0

-- Every message keeps the bookkeeping: after `n` positions, a message that succeeds leaves `n`, or
-- `n + 1` if it created one.
pub execute-IsConsistent :
    (h : Host) (s : State) (env : Env) (info : MessageInfo) (msg : ExecuteMsg) (r : Response)
    (t : State) (n : ℕ)
    → IsConsistent s n
    → execute h s env info msg ≡ ok (r, t)
    → IsConsistent t (n + creates msg)
unfolding execute
execute-IsConsistent h s env info (update_admin_addr a) r t n c e =
    rw (update_admin-eq-ok h s info a r t e).4 (
      settings_only s _ n
        (record { same_next = refl; same_holder = refl; same_pairs = refl; same_map = refl }) c)
execute-IsConsistent h s env info (add_strategy_msg name version a) r t n c e =
    rw (add_strategy-AddedStrategy h s info name version a r t e).state_is (
      settings_only s _ n
        (record { same_next = refl; same_holder = refl; same_pairs = refl; same_map = refl }) c)
execute-IsConsistent h s env info (remove_strategy_msg id) r t n c e =
    rw (remove_strategy-eq-ok h s info id r t e).1 (
      settings_only s _ n
        (record { same_next = refl; same_holder = refl; same_pairs = refl; same_map = refl }) c)
execute-IsConsistent h s env info (register_external_chain_manager_msg id a) r t n c e =
    rw (register-eq-ok h s info id a r t e).2 (
      settings_only s _ n
        (record { same_next = refl; same_holder = refl; same_pairs = refl; same_map = refl }) c)
execute-IsConsistent h s env info (create_position_msg strategy payload assets) r t n c e =
    create_position-IsConsistent h s env info strategy payload assets r t n c
      (create_position-Created h s env info strategy payload assets r t e)
execute-IsConsistent h s env info (execute_strategy_msg id action assets) r t n c e =
    rw (add-zero, (keep_state-eq-ok s _ r t e).0) c
execute-IsConsistent h s env info (process_cross_chain_instruction_msg vaa vaas) r t n c e =
    rw add-zero (
      process-IsConsistent h s env vaa vaas r t n c
        (process_cross_chain_instruction-Accepted h s env vaa vaas r t e))
execute-IsConsistent h s env info (initiate_outgoing_token_transfer_msg assets recipient) r t n c
      e =
    rw (add-zero, (keep_state-eq-ok s _ r t e).0) c

-- The bookkeeping of a fresh contract is consistent, with no position created.
pub instantiate-IsConsistent :
    (h : Host) (msg : InstantiateMsg) (r : Response) (s : State)
    → instantiate h msg ≡ ok (r, s)
    → IsConsistent s 0
unfolding instantiate
instantiate-IsConsistent h msg r s e = chain (h.addr_validate msg.admin_addr) _ e λ admin e₁ e₂.
    chain (h.addr_validate msg.wormhole_token_bridge_addr) _ e₂ λ bridge e₃ e₄.
      chain (h.addr_validate msg.wormhole_core_bridge_addr) _ e₄ λ core e₅ e₆.
        chain (h.addr_validate msg.cross_chain_outgoing_fee_collector_addr) _ e₆ λ collector e₇ e₈.
          rw (sym (ap stored (ok-injective e₈))) (record {
            next_is = refl;
            unassigned = λ id below. refl;
            assigned = λ id below. absurd (omega arith);
            mapped = λ id below. absurd (omega arith);
            indexed = λ a id. (λ x. cc, λ x. cc);
          })
