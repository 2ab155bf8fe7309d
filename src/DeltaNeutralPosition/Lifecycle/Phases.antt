-- ===== src/DeltaNeutralPosition/Lifecycle/Phases.antt =====
-- The phases of a position, of contracts/delta_neutral_position/src/contract.rs, and how they follow
-- one another.
use position_managers.Prelude.{
  ◌≡◌, refl, ◌⊎◌, inl, inr, Bool, true, false, unwrap_or, if◌then◌else◌,
}
use position_managers.Cosmwasm.{ok, Env, MessageInfo}
use position_managers.Message.{Response}
use position_managers.DeltaNeutralManager.Rebalance.{is_some}
use position_managers.Chain.{Chain}
use position_managers.DeltaNeutralPosition.State.{State}
use position_managers.DeltaNeutralPosition.Opening.{opened}
use position_managers.DeltaNeutralPosition.Contract.{ExecuteMsg, execute}
use position_managers.DeltaNeutralPosition.Lifecycle.Changes.{
  Change, kept, opens, opens_with_cdp, preempts, closes, retargets, revalues,
}
use position_managers.DeltaNeutralPosition.Lifecycle.Handlers.{execute-Change}

-- Not yet opened; opened off the market, all funds in Anchor Earn; with a debt position; with the
-- debt position given up, all funds in Anchor Earn again; closed.
pub data Phase : Type 0 where
  unopened off_market active preempted closed : Phase

unfoldable pub phase : Bool → Bool → Bool → Bool → Phase
phase is_closed is_open is_preempted has_cdp =
    if is_closed
    then closed
    else (if is_open
        then (if is_preempted then preempted else (if has_cdp then active else off_market))
        else unopened)

unfoldable pub phase_of : State → Phase
unfolding phase
phase_of s =
    phase (is_some s.position_close_info) (is_some s.position_open_info)
      (unwrap_or s.cdp_preemptively_closed false) (is_some s.cdp_idx)

-- How phases follow one another.
pub data Transition : Phase → Phase → Type 0 where
  stays : (p : Phase) → Transition p p
  opens_off_market : Transition unopened off_market
  opens_active : Transition unopened active
  gives_up_off_market : Transition off_market preempted
  gives_up : Transition active preempted
  ends : (p : Phase) → Transition p closed

-- Before it is opened, a position has neither an asset nor a debt position, nor was it given up.
pub record IsWellFormed (s : State) : Type 0 where
  pub asset_follows : is_some s.mirror_asset_cw20_addr ≡ true → is_some s.position_open_info ≡ true
  pub cdp_follows : is_some s.cdp_idx ≡ true → is_some s.position_open_info ≡ true
  pub preemption_follows :
      unwrap_or s.cdp_preemptively_closed false ≡ true → is_some s.position_open_info ≡ true

Change-IsWellFormed : (s t : State) → Change s t → IsWellFormed s → IsWellFormed t
unfolding opened
Change-IsWellFormed s t kept w = w
Change-IsWellFormed s t (opens env balance asset range fresh) w = record {
  asset_follows = λ h. refl;
  cdp_follows = λ h. refl;
  preemption_follows = λ h. refl;
}
Change-IsWellFormed s t (opens_with_cdp env balance asset range idx fresh) w = record {
  asset_follows = λ h. refl;
  cdp_follows = λ h. refl;
  preemption_follows = λ h. refl;
}
Change-IsWellFormed s t (preempts still_open (inl has_asset)) w = record {
  asset_follows = w.asset_follows;
  cdp_follows = w.cdp_follows;
  preemption_follows = λ h. w.asset_follows has_asset;
}
Change-IsWellFormed s t (preempts still_open (inr has_cdp)) w = record {
  asset_follows = w.asset_follows;
  cdp_follows = w.cdp_follows;
  preemption_follows = λ h. w.cdp_follows has_cdp;
}
Change-IsWellFormed s t (closes info) w = record {
  asset_follows = w.asset_follows;
  cdp_follows = w.cdp_follows;
  preemption_follows = w.preemption_follows;
}
Change-IsWellFormed s t (retargets range) w = record {
  asset_follows = w.asset_follows;
  cdp_follows = w.cdp_follows;
  preemption_follows = w.preemption_follows;
}
Change-IsWellFormed s t (revalues value) w = record {
  asset_follows = w.asset_follows;
  cdp_follows = w.cdp_follows;
  preemption_follows = w.preemption_follows;
}

-- Where the phases go: by opening, giving the debt position up, and closing.
phase-opens :
    (c o p d e : Bool)
    → o ≡ false
    → (p ≡ true → o ≡ true)
    → Transition (phase c o p d) (phase c true p e)
unfolding phase
phase-opens true o p d e h k = stays closed
phase-opens false true p d e h k = absurd (cc)
phase-opens false false true d e h k = absurd (let impossible = k refl in cc)
phase-opens false false false d true h k = opens_active
phase-opens false false false d false h k = opens_off_market

phase-preempts : (c o p d : Bool) → o ≡ true → Transition (phase c o p d) (phase c o true d)
unfolding phase
phase-preempts true o p d h = stays closed
phase-preempts false false p d h = absurd (cc)
phase-preempts false true true d h = stays preempted
phase-preempts false true false true h = gives_up
phase-preempts false true false false h = gives_up_off_market

has_opened :
    (s : State)
    → IsWellFormed s
    → (is_some s.mirror_asset_cw20_addr ≡ true) ⊎ (is_some s.cdp_idx ≡ true)
    → is_some s.position_open_info ≡ true
has_opened s w (inl has_asset) = w.asset_follows has_asset
has_opened s w (inr has_cdp) = w.cdp_follows has_cdp

Change-Transition :
    (s t : State) → Change s t → IsWellFormed s → Transition (phase_of s) (phase_of t)
unfolding phase_of opened
Change-Transition s t kept w = stays _
Change-Transition s t (opens env balance asset range fresh) w =
    phase-opens (is_some s.position_close_info) (is_some s.position_open_info)
      (unwrap_or s.cdp_preemptively_closed false) (is_some s.cdp_idx) (is_some s.cdp_idx) fresh
      w.preemption_follows
Change-Transition s t (opens_with_cdp env balance asset range idx fresh) w =
    phase-opens (is_some s.position_close_info) (is_some s.position_open_info)
      (unwrap_or s.cdp_preemptively_closed false) (is_some s.cdp_idx) true fresh
      w.preemption_follows
Change-Transition s t (preempts still_open known) w =
    phase-preempts (is_some s.position_close_info) (is_some s.position_open_info)
      (unwrap_or s.cdp_preemptively_closed false) (is_some s.cdp_idx) (has_opened s w known)
Change-Transition s t (closes info) w = ends _
Change-Transition s t (retargets range) w = stays _
Change-Transition s t (revalues value) w = stays _

-- The contract implements the life of a position: a message that succeeds on a well-formed storage
-- leaves a well-formed one, and keeps the phase or takes one of the steps from unopened to opened off
-- the market or with a debt position, from these to given up, and from any phase to closed. A storage
-- is well-formed if only an opened position has an asset, a debt position or a preemptive closure.
pub execute-Transition :
    (c : Chain) (s : State) (env : Env) (info : MessageInfo) (msg : ExecuteMsg) (r : Response)
    (t : State)
    → IsWellFormed s
    → execute c s env info msg ≡ ok (r, t)
    → IsWellFormed t × Transition (phase_of s) (phase_of t)
execute-Transition c s env info msg r t w e =
    let change = execute-Change c s env info msg r t e in
    (Change-IsWellFormed s t change w, Change-Transition s t change w)
