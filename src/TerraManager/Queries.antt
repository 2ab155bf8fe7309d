-- ===== src/TerraManager/Queries.antt =====
-- terra_manager/src/contract.rs: the queries, which read the storage only.
use position_managers.Prelude.{
  ℕ, zero, suc, ◌≡◌, ◌≤◌, refl, ap, ◌∙◌, inl, inr, String, Bool, true, false, Option, some,
  unwrap_or, List, [], ◌∷◌, length, take, All, leb, ltb, ltb→lt, ltb-eq-false, Bool-cases,
  Option-cases, if◌then◌else◌, arith,
}
use position_managers.Cosmwasm.{Addr, Bytes, Result, ok, ◌>>=◌, load, Env}
use position_managers.Common.{
  Position, StrategyMetadata, StrategyLocation, get_position_key, terra_chain_id,
}
use position_managers.Host.{Host}
use position_managers.TerraManager.State.{State}
use position_managers.TerraManager.CrossChain.{get_parsed_vaa}
use position_managers.TerraManager.Positions.{IsConsistent}

-- cw_storage_plus: the ids of a set above a bound, in ascending order.
pub record Ranges : Type 0 where
  pub ascending : (ℕ → Bool) → Option ℕ → List ℕ

-- What cw_storage_plus documents: a range gives keys that are there.
pub record RangesLaws (ranges : Ranges) : Type 0 where
  pub members :
      (set : ℕ → Bool) (start_after : Option ℕ)
      → All (λ id. set id ≡ true) (ranges.ascending set start_after)

unfoldable pub get_strategy_metadata : State → ℕ → Result StrategyMetadata
get_strategy_metadata s strategy_id = load (s.strategy_id_to_metadata_map strategy_id)

unfoldable pub get_next_position_id : State → Result ℕ
get_next_position_id s = load s.next_position_id

unfoldable pub location_of : State → ℕ → Result StrategyLocation
location_of s position_id = load (s.position_to_strategy_location_map (terra_chain_id, position_id))

unfoldable pub get_terra_position_info : State → ℕ → Result (Addr × StrategyLocation)
unfolding location_of
get_terra_position_info s position_id = do
  holder ← load (s.position_id_to_holder position_id)
  location ← location_of s position_id
  ok (holder, location)

-- At most so many positions, in the order of the range, with where they are.
unfoldable pub page : State → ℕ → List ℕ → Result (List ℕ × List StrategyLocation)
unfolding location_of
page s remaining [] = ok ([], [])
page s zero (id ∷ ids) = ok ([], [])
page s (suc remaining) (id ∷ ids) = do
  location ← location_of s id
  (position_ids, locations) ← page s remaining ids
  ok (id ∷ position_ids, location ∷ locations)

-- `limit.unwrap_or(DEFAULT_LIMIT).min(MAX_LIMIT)`
unfoldable pub page_size : Option ℕ → ℕ
page_size limit = if leb (unwrap_or limit 10) 30 then unwrap_or limit 10 else 30

unfoldable pub get_terra_positions_by_holder :
    Host → Ranges → State → String → Option ℕ → Option ℕ → Result (List ℕ × List StrategyLocation)
unfolding page page_size
get_terra_positions_by_holder h ranges s holder start_after limit = do
  holder_addr ← h.addr_validate holder
  page s (page_size limit)
      (ranges.ascending (s.holder_position_id_pair_set holder_addr) start_after)

unfoldable pub get_strategy_location_by_position : State → Position → Result StrategyLocation
get_strategy_location_by_position s position =
    load (s.position_to_strategy_location_map (get_position_key position))

unfoldable pub has_instruction_vaa_been_processed : Host → State → Env → Bytes → Result Bool
unfolding get_parsed_vaa
has_instruction_vaa_been_processed h s env instruction_vaa = do
  vaa ← get_parsed_vaa h s env instruction_vaa
  ok (unwrap_or (s.completed_instructions vaa.hash) false)

-- A position with a holder has been created, and it is known where it is.
held_located :
    (s : State) (n id : ℕ) (holder : Addr)
    → IsConsistent s n
    → s.position_id_to_holder id ≡ some holder
    → (location : StrategyLocation) × (s.position_to_strategy_location_map (terra_chain_id, id)
        ≡ some location)
held_located s n id holder c held = elim (Bool-cases (ltb id n)) [
  | inr late ↦ absurd (let h = c.unassigned id (ltb-eq-false id n late) in cc)
  | inl created ↦ elim (Option-cases (s.position_to_strategy_location_map (terra_chain_id, id))) [
    | inl missing ↦ absurd (c.mapped id (ltb→lt id n created) missing)
    | inr located ↦ located
  ]
]

-- A page of positions of one holder: the first of a range, with a location each.
pub record Listed (s : State) (holder : Addr) (size : ℕ) (range : List ℕ)
    (answer : List ℕ × List StrategyLocation) : Type 0 where
  pub first : answer.0 ≡ take size range
  pub as_many : length answer.1 ≡ length answer.0
  pub own : All (λ id. s.position_id_to_holder id ≡ some holder) answer.0

page-Listed :
    (s : State) (n : ℕ) (holder : Addr) (size : ℕ) (range : List ℕ)
    → IsConsistent s n
    → All (λ id. s.holder_position_id_pair_set holder id ≡ true) range
    → (answer : List ℕ × List StrategyLocation) × (page s size range ≡ ok answer)
      × Listed s holder size range answer
unfolding page location_of
page-Listed s n holder zero [] c all =
    (([], []), refl, record { first = refl; as_many = refl; own = tt })
page-Listed s n holder (suc size) [] c all =
    (([], []), refl, record { first = refl; as_many = refl; own = tt })
page-Listed s n holder zero (id ∷ ids) c all =
    (([], []), refl, record { first = refl; as_many = refl; own = tt })
page-Listed s n holder (suc size) (id ∷ ids) c (in_set, all) =
    let held = (c.indexed holder id).0 in_set in
    let (location, located) = held_located s n id holder c held in
    let ((position_ids, locations), found, listed) = page-Listed s n holder size ids c all in
    (
      (id ∷ position_ids, location ∷ locations),
      ap (λ o. load o >>= λ l. page s size ids >>= λ p. ok (id ∷ p.0, l ∷ p.1)) located
          ∙ ap (λ o. o >>= λ p. ok (id ∷ p.0, location ∷ p.1)) found,
      record {
        first = ap (λ xs. id ∷ xs) listed.first;
        as_many = ap (λ k. suc k) listed.as_many;
        own = (held, listed.own);
      },
    )

-- On a storage with consistent bookkeeping the query for a holder's positions succeeds for every
-- valid address, with the first ids of the range, at most 30 or the limit, a location for each, and
-- no position that is not the holder's. Ranges are as documented.
pub get_terra_positions_by_holder-Listed :
    (h : Host) (ranges : Ranges) (s : State) (n : ℕ) (holder : String)
    (start_after limit : Option ℕ) (holder_addr : Addr)
    → RangesLaws ranges
    → IsConsistent s n
    → h.addr_validate holder ≡ ok holder_addr
    → (answer : List ℕ × List StrategyLocation) × (get_terra_positions_by_holder h ranges s holder
          start_after limit
        ≡ ok answer)
      × (page_size limit ≤ 30)
      × Listed s holder_addr
          (page_size limit)
          (ranges.ascending (s.holder_position_id_pair_set holder_addr) start_after)
          answer
unfolding get_terra_positions_by_holder page_size
get_terra_positions_by_holder-Listed h ranges s n holder start_after limit holder_addr laws c
      valid =
    let range = ranges.ascending (s.holder_position_id_pair_set holder_addr) start_after in
    let (answer, found, listed) =
      page-Listed s n holder_addr (page_size limit) range c
        (laws.members (s.holder_position_id_pair_set holder_addr) start_after) in
    (
      answer,
      ap
            (λ o. o >>= λ a.
              page s (page_size limit)
                (ranges.ascending (s.holder_position_id_pair_set a) start_after))
            valid
          ∙ found,
      at_most (unwrap_or limit 10),
      listed,
    )
  where
    at_most : (k : ℕ) → (if leb k 30 then k else 30) ≤ 30
    at_most k = ground arith
