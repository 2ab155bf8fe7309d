-- ===== src/TerraManager/Settings.antt =====
-- What the admin's operations do to the storage when they succeed.
use position_managers.Prelude.{
  ℕ, String, ◌+◌, ◌<◌, ◌^◌, ◌≡◌, sym, ap, ◌∙◌, Option, some, arith, length,
}
use position_managers.Cosmwasm.{
  load-eq-ok, Addr, Bytes, Result, ok, err, panic, load, checked_add, chain, ok-injective,
  MessageInfo,
}
use position_managers.Message.{Response}
use position_managers.Host.{Host}
use position_managers.TerraManager.State.{State, save, remove}
use position_managers.TerraManager.TerraChain.{add_strategy, remove_strategy, assert_admin}
use position_managers.TerraManager.CrossChain.{register_external_chain_manager, to_array_32}
use position_managers.TerraManager.Contract.{update_admin, unwrap_result, keep_state}
use position_managers.TerraManager.Effects.{checked_add-eq-ok}

-- The storage that a call returns.
abbrev pub stored : Response × State → State
stored p = p.1

pub record AddedStrategy (h : Host) (s : State) (info : MessageInfo) (name version : String)
    (t : State) : Type 0 where
  pub asserted : assert_admin h s info ≡ ok tt
  pub strategy_id : ℕ
  pub manager : Addr
  pub next_was : s.next_strategy_id ≡ some strategy_id
  pub in_range : strategy_id + 1 < 2 ^ 64
  pub state_is : t ≡ record s {
    next_strategy_id = some (strategy_id + 1);
    strategy_id_to_metadata_map =
        save strategy_id
          (record { name = name; version = version; manager_addr = manager })
          s.strategy_id_to_metadata_map;
  }

pub add_strategy-AddedStrategy :
    (h : Host) (s : State) (info : MessageInfo) (name version manager_addr : String) (r : Response)
    (t : State)
    → add_strategy h s info name version manager_addr ≡ ok (r, t)
    → AddedStrategy h s info name version t
unfolding add_strategy
add_strategy-AddedStrategy h s info name version manager_addr r t e =
    chain (assert_admin h s info) _ e λ _ e₁ e₂. chain (load s.next_strategy_id) _ e₂ λ id e₃ e₄.
      chain (checked_add 64 id 1) _ e₄ λ next e₅ e₆.
        chain (h.addr_validate manager_addr) _ e₆ λ manager e₇ e₈. record {
          asserted = e₁;
          strategy_id = id;
          manager = manager;
          next_was = load-eq-ok _ e₃;
          in_range = (checked_add-eq-ok 64 id 1 next e₅).1;
          state_is =
              rw (← (checked_add-eq-ok 64 id 1 next e₅).0) (sym (ap stored (ok-injective e₈)));
        }

pub remove_strategy-eq-ok :
    (h : Host) (s : State) (info : MessageInfo) (id : ℕ) (r : Response) (t : State)
    → remove_strategy h s info id ≡ ok (r, t)
    → (assert_admin h s info ≡ ok tt)
      × (t ≡ record s { strategy_id_to_metadata_map = remove id s.strategy_id_to_metadata_map })
unfolding remove_strategy
remove_strategy-eq-ok h s info id r t e =
    chain (assert_admin h s info) _ e λ _ e₁ e₂. (e₁, sym (ap stored (ok-injective e₂)))

pub to_array_32-eq-ok :
    (bytes array : Bytes) → to_array_32 bytes ≡ ok array → (array ≡ bytes) × (length bytes ≡ 32)
unfolding to_array_32
to_array_32-eq-ok bytes array e = ground arith

pub register-eq-ok :
    (h : Host) (s : State) (info : MessageInfo) (chain_id : ℕ) (manager : Bytes) (r : Response)
    (t : State)
    → register_external_chain_manager h s info chain_id manager ≡ ok (r, t)
    → (assert_admin h s info ≡ ok tt)
      × (length manager ≡ 32)
      × (t ≡ record s {
        chain_id_to_aperture_manager_address_map =
            save chain_id manager s.chain_id_to_aperture_manager_address_map;
      })
unfolding register_external_chain_manager
register-eq-ok h s info chain_id manager r t e = chain (assert_admin h s info) _ e λ _ e₁ e₂.
    chain (to_array_32 manager) _ e₂ λ array e₃ e₄.
      let (same, size) = to_array_32-eq-ok manager array e₃ in
      (e₁, size, rw (← same) (sym (ap stored (ok-injective e₄))))

unwrap_result-eq-ok {ℓ} : {A : Type ℓ} (m : Result A) (a : A) → unwrap_result m ≡ ok a → m ≡ ok a
unfolding unwrap_result
unwrap_result-eq-ok (ok b) a e = e
unwrap_result-eq-ok (err x) a e = cc
unwrap_result-eq-ok panic a e = e

pub update_admin-eq-ok :
    (h : Host) (s : State) (info : MessageInfo) (new_admin : String) (r : Response) (t : State)
    → update_admin h s info new_admin ≡ ok (r, t)
    → (new : Addr) × (admin : Option Addr) × (h.addr_validate new_admin ≡ ok new)
      × (h.execute_update_admin s.admin info.sender (some new) ≡ ok admin)
      × (t ≡ record s { admin = admin })
unfolding update_admin
update_admin-eq-ok h s info new_admin r t e = chain (h.addr_validate new_admin) _ e λ new e₁ e₂.
    chain (unwrap_result (h.execute_update_admin s.admin info.sender (some new))) _ e₂
      λ admin e₃ e₄.
        (new, admin, e₁, unwrap_result-eq-ok _ admin e₃, sym (ap stored (ok-injective e₄)))

-- A handler that only reads the storage leaves it as it was.
pub keep_state-eq-ok :
    (s : State) (m : Result Response) (r : Response) (t : State)
    → keep_state s m ≡ ok (r, t)
    → (t ≡ s) × (m ≡ ok r)
keep_state-eq-ok s m r t e = chain m _ e λ response e₁ e₂. (
  sym (ap stored (ok-injective e₂)),
  e₁ ∙ ap (λ (p : Response × State). ok p.0) (ok-injective e₂),
)
