-- ===== src/TerraManager/Replay.antt =====
-- Processing an instruction from another chain, and then one with the same hash.
use position_managers.Prelude.{
  ◌≡◌, ◌≢◌, refl, sym, ap, ◌∙◌, inl, inr, true, false, some, List, arith,
}
use position_managers.Cosmwasm.{
  Bytes, Result, ok, err, panic, is_ok, ok-injective, MessageInfo, Env,
}
use position_managers.Message.{Response}
use position_managers.Host.{Host}
use position_managers.Wormhole.{ParsedVaa}
use position_managers.TerraManager.State.{State}
use position_managers.TerraManager.CrossChain.{
  mark_completed, get_parsed_vaa, process_cross_chain_instruction,
}
use position_managers.TerraManager.Contract.{
  ExecuteMsg, update_admin_addr, add_strategy_msg, remove_strategy_msg,
  register_external_chain_manager_msg, create_position_msg, execute_strategy_msg,
  process_cross_chain_instruction_msg, initiate_outgoing_token_transfer_msg, execute,
}
use position_managers.TerraManager.Settings.{
  add_strategy-AddedStrategy, remove_strategy-eq-ok, register-eq-ok, update_admin-eq-ok,
  keep_state-eq-ok,
}
use position_managers.TerraManager.Effects.{
  create_position-Created, Accepted, process_cross_chain_instruction-Accepted,
  fulfil_instruction-located, bytes_eq_refl,
}

-- The instruction with this hash has been completed.
abbrev pub IsCompleted : State → Bytes → Type 0
IsCompleted s hash = s.completed_instructions hash ≡ some true

fulfilled-completed :
    (h : Host) (s : State) (env : Env) (vaa : Bytes) (vaas : List Bytes) (r : Response) (t : State)
    → (a : Accepted h s env vaa vaas r t)
    → t.completed_instructions ≡ (mark_completed s a.vaa.hash).completed_instructions
fulfilled-completed h s env vaa vaas r t a =
    elim (fulfil_instruction-located h (mark_completed s a.vaa.hash) env a.vaa vaas r t
      a.fulfilled) [ inl unchanged ↦ rw unchanged | inr (key, strategy_id, changed) ↦ rw changed ]

-- Processing an instruction completes it.
completes :
    (h : Host) (s : State) (env : Env) (vaa : Bytes) (vaas : List Bytes) (r : Response) (t : State)
    → (a : Accepted h s env vaa vaas r t) → IsCompleted t a.vaa.hash
completes h s env vaa vaas r t a =
    rw (fulfilled-completed h s env vaa vaas r t a) (rw (bytes_eq_refl a.vaa.hash))

-- No message takes a completion back.
pub execute-IsCompleted :
    (h : Host) (s : State) (env : Env) (info : MessageInfo) (msg : ExecuteMsg) (r : Response)
    (t : State) (hash : Bytes)
    → execute h s env info msg ≡ ok (r, t)
    → IsCompleted s hash
    → IsCompleted t hash
unfolding execute
execute-IsCompleted h s env info (update_admin_addr a) r t hash e c =
    rw (update_admin-eq-ok h s info a r t e).4 c
execute-IsCompleted h s env info (add_strategy_msg name version a) r t hash e c =
    rw (add_strategy-AddedStrategy h s info name version a r t e).state_is c
execute-IsCompleted h s env info (remove_strategy_msg id) r t hash e c =
    rw (remove_strategy-eq-ok h s info id r t e).1 c
execute-IsCompleted h s env info (register_external_chain_manager_msg id a) r t hash e c =
    rw (register-eq-ok h s info id a r t e).2 c
execute-IsCompleted h s env info (create_position_msg strategy payload assets) r t hash e c =
    rw (create_position-Created h s env info strategy payload assets r t e).state_is c
execute-IsCompleted h s env info (execute_strategy_msg id action assets) r t hash e c =
    rw (keep_state-eq-ok s _ r t e).0 c
execute-IsCompleted h s env info (process_cross_chain_instruction_msg vaa vaas) r t hash e c =
    let a = process_cross_chain_instruction-Accepted h s env vaa vaas r t e in
    rw (fulfilled-completed h s env vaa vaas r t a) (ground arith)
execute-IsCompleted h s env info (initiate_outgoing_token_transfer_msg assets recipient) r t hash e
      c =
    rw (keep_state-eq-ok s _ r t e).0 c

-- A later storage: what some messages, each sent by anyone at any time, lead to. A message that
-- fails is rolled back.
pub data Reach (s : State) : State → Type 0 where
  here : Reach s s
  next :
      {t u : State}
      → Reach s t
      → (h : Host) (env : Env) (info : MessageInfo) (msg : ExecuteMsg) (r : Response)
      → execute h t env info msg ≡ ok (r, u)
      → Reach s u

Reach-IsCompleted :
    {s t : State} (hash : Bytes) → Reach s t → IsCompleted s hash → IsCompleted t hash
Reach-IsCompleted hash here c = c
Reach-IsCompleted hash (next {t} {u} reach h env info msg r e) c =
    execute-IsCompleted h t env info msg r u hash e (Reach-IsCompleted hash reach c)

never_again :
    (h : Host) (s : State) (env : Env) (vaa : Bytes) (vaas : List Bytes) (r : Response)
    (t u : State) (h' : Host) (env' : Env) (vaa' : Bytes) (vaas' : List Bytes)
    (first again : ParsedVaa)
    → process_cross_chain_instruction h s env vaa vaas ≡ ok (r, t)
    → get_parsed_vaa h s env vaa ≡ ok first
    → Reach t u
    → get_parsed_vaa h' u env' vaa' ≡ ok again
    → again.hash ≡ first.hash
    → (p : Response × State) → process_cross_chain_instruction h' u env' vaa' vaas' ≢ ok p
never_again h s env vaa vaas r t u h' env' vaa' vaas' first again e parsed reach parsed' same p e' =
    let a = process_cross_chain_instruction-Accepted h s env vaa vaas r t e in
    let b = process_cross_chain_instruction-Accepted h' u env' vaa' vaas' p.0 p.1 e' in
    let same_hash : b.vaa.hash ≡ a.vaa.hash =
      ap (λ (v : ParsedVaa). v.hash) (ok-injective (sym b.parsed ∙ parsed'))
      ∙ same
      ∙ ap (λ (v : ParsedVaa). v.hash) (ok-injective (sym parsed ∙ a.parsed)) in
    let completed : IsCompleted u b.vaa.hash =
      rw same_hash (Reach-IsCompleted a.vaa.hash reach (completes h s env vaa vaas r t a)) in
    ground (arith, b.not_completed)

-- A result that is never a success.
not-is_ok {ℓ} : {A : Type ℓ} (m : Result A) → ((a : A) → m ≢ ok a) → is_ok m ≡ false
not-is_ok (ok a) never = absurd (never a refl)
not-is_ok (err e) never = refl
not-is_ok panic never = refl

-- After an instruction has been processed, no instruction that the bridge reports with the same
-- hash is ever processed again, whatever messages come between, and whatever the chain then
-- answers.
pub process_cross_chain_instruction_once :
    (h : Host) (s : State) (env : Env) (vaa : Bytes) (vaas : List Bytes) (r : Response)
    (t u : State) (h' : Host) (env' : Env) (vaa' : Bytes) (vaas' : List Bytes)
    (first again : ParsedVaa)
    → process_cross_chain_instruction h s env vaa vaas ≡ ok (r, t)
    → get_parsed_vaa h s env vaa ≡ ok first
    → Reach t u
    → get_parsed_vaa h' u env' vaa' ≡ ok again
    → again.hash ≡ first.hash
    → is_ok (process_cross_chain_instruction h' u env' vaa' vaas') ≡ false
process_cross_chain_instruction_once h s env vaa vaas r t u h' env' vaa' vaas' first again e parsed
      reach parsed' same =
    not-is_ok (process_cross_chain_instruction h' u env' vaa' vaas') (
      never_again h s env vaa vaas r t u h' env' vaa' vaas' first again e parsed reach parsed' same)
