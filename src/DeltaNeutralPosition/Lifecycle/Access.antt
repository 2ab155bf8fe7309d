-- ===== src/DeltaNeutralPosition/Lifecycle/Access.antt =====
-- Who may send which message to a position of contracts/delta_neutral_position/src/contract.rs.
use position_managers.Prelude.{
  ◌≡◌, refl, ◌⊎◌, inl, inr, not, ◌||◌, some, str_eq, eq_iff, Bool, true, false,
}
use position_managers.Cosmwasm.{
  Addr, ok, load, chain, guarded-elim, load-eq-ok, not-eq-false, MessageInfo, Env,
}
use position_managers.Message.{Response}
use position_managers.DeltaNeutralManager.State.{Context}
use position_managers.Chain.{Chain}
use position_managers.DeltaNeutralPosition.State.{State}
use position_managers.DeltaNeutralPosition.Contract.{
  ExecuteMsg, open_position_msg, close_position_msg, rebalance_and_reinvest_msg, internal_msg,
  is_authorized, execute,
}

-- The one that may send a message: the manager, the controller that the manager names, or the
-- contract itself.
abbrev pub Sender : Env → MessageInfo → Context → Addr → ExecuteMsg → Type 0
Sender env info context manager (open_position_msg params) = info.sender ≡ manager
Sender env info context manager (close_position_msg recipient) = info.sender ≡ manager
Sender env info context manager rebalance_and_reinvest_msg =
    (info.sender ≡ context.controller) ⊎ (info.sender ≡ env.contract_address)
Sender env info context manager (internal_msg m) = info.sender ≡ env.contract_address

or-eq-true : (a b : Bool) → (a || b) ≡ true → (a ≡ true) ⊎ (b ≡ true)
or-eq-true true b e = inl refl
or-eq-true false b e = inr e

same_text : (a b : Addr) → str_eq a b ≡ true → a ≡ b
same_text a b e = (eq_iff a b).0 e

is_authorized-Sender :
    (env : Env) (info : MessageInfo) (context : Context) (manager : Addr) (msg : ExecuteMsg)
    → is_authorized env info context manager msg ≡ true
    → Sender env info context manager msg
unfolding is_authorized
is_authorized-Sender env info context manager (open_position_msg params) e = same_text _ _ e
is_authorized-Sender env info context manager (close_position_msg recipient) e = same_text _ _ e
is_authorized-Sender env info context manager rebalance_and_reinvest_msg e =
    elim (or-eq-true _ _ e) [
      | inl controller ↦ inl (same_text _ _ controller)
      | inr itself ↦ inr (same_text _ _ itself)
    ]
is_authorized-Sender env info context manager (internal_msg m) e = same_text _ _ e

-- A message that succeeds came from the one that may send it: to open and close, the manager that
-- instantiated the contract; to rebalance, the controller of the manager's context or the contract
-- itself; and the internal messages, the contract itself.
pub execute-Sender :
    (c : Chain) (s : State) (env : Env) (info : MessageInfo) (msg : ExecuteMsg) (r : Response)
    (t : State)
    → execute c s env info msg ≡ ok (r, t)
    → (manager : Addr) × (context : Context) × (s.manager ≡ some manager)
      × (c.manager_context manager ≡ ok context)
      × Sender env info context manager msg
unfolding execute
execute-Sender c s env info msg r t e = chain (load s.manager) _ e λ manager e₁ e.
    chain (c.manager_context manager) _ e λ context e₂ e.
      guarded-elim (not (is_authorized env info context manager msg)) _ _ e λ allowed e. (
        manager,
        context,
        load-eq-ok s.manager e₁,
        e₂,
        is_authorized-Sender env info context manager msg (not-eq-false _ allowed),
      )
