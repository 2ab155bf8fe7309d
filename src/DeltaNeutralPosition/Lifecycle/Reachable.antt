-- ===== src/DeltaNeutralPosition/Lifecycle/Reachable.antt =====
-- What a position of contracts/delta_neutral_position/src/contract.rs can still become after any
-- messages.
use position_managers.Prelude.{◌≡◌, ◌≢◌, refl}
use position_managers.Cosmwasm.{ok, Env, MessageInfo}
use position_managers.Message.{Response}
use position_managers.Chain.{Chain}
use position_managers.DeltaNeutralPosition.State.{State}
use position_managers.DeltaNeutralPosition.Contract.{ExecuteMsg, execute}
use position_managers.DeltaNeutralPosition.Lifecycle.Phases.{
  Phase, off_market, active, preempted, closed, phase_of, Transition, stays, opens_off_market,
  opens_active, gives_up_off_market, gives_up, ends, IsWellFormed, execute-Transition,
}

-- A later storage of a position's contract. The chain may differ from message to message; a message
-- that fails changes nothing.
pub data Later (s : State) : State → Type 0 where
  unchanged : Later s s
  after :
      {t u : State} (c : Chain) (env : Env) (info : MessageInfo) (msg : ExecuteMsg) (r : Response)
      → Later s t
      → execute c t env info msg ≡ ok (r, u)
      → Later s u

Later-IsWellFormed : (s t : State) → Later s t → IsWellFormed s → IsWellFormed t
Later-IsWellFormed s t unchanged w = w
Later-IsWellFormed s t (after {t = middle} c env info msg r earlier e) w =
    (execute-Transition c middle env info msg r t (Later-IsWellFormed s middle earlier w) e).0

-- Phases without a debt position that can be used.
data NeverActive : Phase → Type 0 where
  is_off_market : NeverActive off_market
  is_preempted : NeverActive preempted
  is_closed : NeverActive closed

Transition-NeverActive : (p q : Phase) → Transition p q → NeverActive p → NeverActive q
Transition-NeverActive p q (stays _) n = n
Transition-NeverActive p q gives_up_off_market n = is_preempted
Transition-NeverActive p q gives_up n = is_preempted
Transition-NeverActive p q (ends _) n = is_closed
Transition-NeverActive p q opens_off_market n = is_off_market
Transition-NeverActive p q opens_active n = elim n [ ]

Later-NeverActive :
    (s t : State) → Later s t → IsWellFormed s → NeverActive (phase_of s) → NeverActive (phase_of t)
Later-NeverActive s t unchanged w n = n
Later-NeverActive s t (after {t = middle} c env info msg r earlier e) w n =
    Transition-NeverActive (phase_of middle) (phase_of t)
      (execute-Transition c middle env info msg r t (Later-IsWellFormed s middle earlier w) e).1
      (Later-NeverActive s middle earlier w n)

NeverActive-not : (p : Phase) → NeverActive p → p ≢ active
NeverActive-not p is_off_market e = cc
NeverActive-not p is_preempted e = cc
NeverActive-not p is_closed e = cc

Transition-closed : (p q : Phase) → Transition p q → p ≡ closed → q ≡ closed
Transition-closed p q (stays _) e = e
Transition-closed p q opens_off_market e = cc
Transition-closed p q opens_active e = cc
Transition-closed p q gives_up_off_market e = cc
Transition-closed p q gives_up e = cc
Transition-closed p q (ends _) e = refl

-- A position that was opened off the market, without a debt position, never gets one: whatever
-- messages succeed later, the rebalancing that is meant to set it up among them, its phase is not
-- the active one.
pub Later-never_active :
    (s t : State) → IsWellFormed s → phase_of s ≡ off_market → Later s t → phase_of t ≢ active
Later-never_active s t w e later =
    NeverActive-not (phase_of t) (Later-NeverActive s t later w (rw e is_off_market))

-- A closed position stays closed, whatever messages succeed later.
pub Later-closed :
    (s t : State) → IsWellFormed s → phase_of s ≡ closed → Later s t → phase_of t ≡ closed
Later-closed s t w e unchanged = e
Later-closed s t w e (after {t = middle} c env info msg r earlier run) =
    Transition-closed (phase_of middle) (phase_of t)
      (execute-Transition c middle env info msg r t (Later-IsWellFormed s middle earlier w) run).1
      (Later-closed s middle w e earlier)
