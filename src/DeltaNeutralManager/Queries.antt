-- ===== src/DeltaNeutralManager/Queries.antt =====
-- contracts/delta_neutral_position_manager/src/contract.rs: the queries, which read the storage only.
use position_managers.Prelude.{
  ℕ, zero, suc, ◌+◌, ◌-◌, String, Bool, false, Option, none, some, unwrap_or, List, [], ◌∷◌, ◌++◌,
  map, ◌==◌, if◌then◌else◌,
}
use position_managers.Cosmwasm.{Addr, Result, ok, ◌>>=◌, load}
use position_managers.Common.{Position, PositionKey, get_position_key, terra_chain_id}
use position_managers.DeltaNeutralManager.State.{AdminConfig, Context, State}
use position_managers.DeltaNeutralManager.Rebalance.{PositionInfo, Mirror}

unfoldable pub get_position_contract_addr : State → Position → Result Addr
get_position_contract_addr s position =
    load (s.position_to_contract_addr (get_position_key position))

unfoldable pub get_context : State → Result Context
get_context s = load s.context

unfoldable pub get_admin_config : State → Result AdminConfig
get_admin_config s = load s.admin_config

unfoldable pub check_mirror_asset_allowlist : State → List String → List Bool
check_mirror_asset_allowlist s mirror_assets =
    map (λ asset. unwrap_or (s.position_open_allowed_mirror_assets asset) false) mirror_assets

-- `PositionRange`: the ids from `start` up to `end`.
pub record PositionRange : Type 0 where
  pub chain_id : ℕ
  pub start : ℕ
  pub end : ℕ

unfoldable pub keys_from : ℕ → ℕ → ℕ → List PositionKey
keys_from chain_id zero id = []
keys_from chain_id (suc count) id = (chain_id, id) ∷ keys_from chain_id count (id + 1)

unfoldable pub range_keys : List PositionRange → List PositionKey
unfolding keys_from
range_keys [] = []
range_keys (range ∷ ranges) =
    keys_from range.chain_id (range.end - range.start) range.start ++ range_keys ranges

-- What is asked of others: the distinct keys of a list, in the order of a hash set, and the holder
-- that the Terra manager knows.
pub record Directory : Type 0 where
  pub hash_set : List PositionKey → List PositionKey
  pub query_holder : Addr → ℕ → Result Addr

pub record BatchItem : Type 0 where
  pub position : PositionKey
  pub contract : Addr
  pub holder : Option Addr
  pub info : PositionInfo

unfoldable pub holder_of : Directory → Addr → PositionKey → Result (Option Addr)
holder_of directory terra_manager (chain_id, position_id) =
    if chain_id == terra_chain_id
    then (directory.query_holder terra_manager position_id >>= λ holder. ok (some holder))
    else ok none

unfoldable pub batch_items :
    Directory → Mirror → State → Addr → List PositionKey → Result (List BatchItem)
unfolding holder_of
batch_items directory m s terra_manager [] = ok []
batch_items directory m s terra_manager (key ∷ keys) = do
  contract_addr ← load (s.position_to_contract_addr key)
  holder ← holder_of directory terra_manager key
  info ← m.query_position_info contract_addr
  items ← batch_items directory m s terra_manager keys
  ok (record { position = key; contract = contract_addr; holder = holder; info = info } ∷ items)

unfoldable pub batch_get_position_info :
    Directory
    → Mirror
    → State
    → Option (List Position)
    → Option (List PositionRange)
    → Result (List BatchItem)
unfolding range_keys batch_items
batch_get_position_info directory m s positions ranges = do
  config ← load s.admin_config
  batch_items directory m s config.terra_manager (
      directory.hash_set
        (map get_position_key (unwrap_or positions []) ++ range_keys (unwrap_or ranges [])))
