-- ===== src/Host.antt =====
-- What the contracts use of the chain and of libraries outside this repository: address
-- conversions, queries to other contracts, and the arithmetic of cosmwasm_std's `Decimal`.
use position_managers.Prelude.{ℕ, String, Option, some, ◌≡◌}
use position_managers.Cosmwasm.{Addr, Bytes, Result, ok, MessageInfo}
use position_managers.Common.{Asset}
use position_managers.Wormhole.{ParsedVaa}
use position_managers.Instruction.{Codec}

pub record Host : Type 0 where
  pub addr_validate : String → Result Addr
  pub addr_canonicalize : Addr → Result Bytes
  pub addr_humanize : Bytes → Result Addr
  pub from_utf8 : Bytes → Result String
  pub codec : Codec
  -- cw_controllers' `Admin`: `assert_admin`, and `execute_update_admin` with the new admin.
  pub assert_admin : Option Addr → Addr → Result (Unit {0})
  pub execute_update_admin : Option Addr → Addr → Option Addr → Result (Option Addr)
  -- terraswap's `Asset::assert_sent_native_token_balance`
  pub assert_sent_native_token_balance : Asset → MessageInfo → Result (Unit {0})
  -- The allowance that a cw20 contract grants an owner's spender.
  pub query_allowance : Addr → Addr → Addr → Result ℕ
  -- The Wormhole core bridge: `VerifyVAA` at a block time, and an emitter's next sequence.
  pub verify_vaa : Addr → Bytes → ℕ → Result ParsedVaa
  pub query_sequence : Addr → Bytes → Result (Option ℕ)
  -- `Uint128 * Decimal`
  pub mul_decimal : ℕ → ℕ → Result ℕ

-- What cw_controllers documents: both functions pass for the admin alone, and the update stores
-- the new admin.
pub record AdminLaws (h : Host) : Type 0 where
  pub asserts :
      (admin : Option Addr) (sender : Addr)
      → h.assert_admin admin sender ≡ ok tt
      → admin ≡ some sender
  pub updates :
      (admin : Option Addr) (sender : Addr) (new stored : Option Addr)
      → h.execute_update_admin admin sender new ≡ ok stored
      → (admin ≡ some sender) × (stored ≡ new)
