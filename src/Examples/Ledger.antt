-- ===== src/Examples/Ledger.antt =====
-- A small chain for the runs of a position's contract: pools of a million each, rates of one, and a
-- thousand uusd in the contract.
use position_managers.Prelude.{
  ℕ, ◌*◌, ◌/◌, ◌^◌, ◌≡◌, Bool, true, Option, none, some, [], ◌==◌, if◌then◌else◌, arith,
}
use position_managers.Cosmwasm.{Result, ok, err, panic, not_found}
use position_managers.DeltaNeutralManager.Rebalance.{Mirror}
use position_managers.Chain.{Chain, ChainLaws}
use position_managers.Examples.Data.{host}
use position_managers.Examples.Earn.{anchor, anchor-BignumLaws}
use position_managers.Examples.Swap.{exact, exact-Decimal256Laws}
use position_managers.Examples.Neutral.{context}

abbrev pub one : ℕ
one = 1_000_000_000_000_000_000

-- The oracle gives a fresh price or only an old one.
abbrev price : Bool → Option ℕ → Result ℕ
price fresh none = ok one
price fresh (some seconds) = if fresh then ok one else err not_found

abbrev mirror : Bool → Mirror
mirror fresh = record {
  query_position_info = λ contract. err not_found;
  query_cdp =
      λ mint idx. ok (record { collateral_amount = 2000; asset_amount = 100; is_short = true });
  query_asset_price = λ oracle asset since. price fresh since;
  query_asset_config = λ mint asset.
      ok (record { min_collateral_ratio = 1_500_000_000_000_000_000; end_price = none });
}

abbrev pub chain : Bool → Chain
chain fresh = record {
  host = host;
  anchor = record anchor { query_token_balance = λ contract owner. ok 100 };
  mirror = mirror fresh;
  decimal256 = exact;
  from_ratio = λ a b. if b == 0 then panic else ok (a * 10 ^ 18 / b);
  multiply_ratio = λ a b d. if d == 0 then panic else ok (a * b / d);
  decimal_of = λ d. ok d;
  integer_sqrt = λ n. n;
  manager_context = λ manager. ok context;
  query_manager_context = λ manager. ok context;
  manager_fee_collection_config = λ manager. ok (record {
    performance_rate = 100_000_000_000_000_000;
    off_market_position_open_service_fee_uusd = 7;
    collector_addr = "collector";
  });
  manager_should_close = λ manager asset. ok none;
  manager_admin_config = λ manager. ok (record {
    admin = "admin";
    terra_manager = "terra_manager";
    delta_neutral_position_code_id = 1;
  });
  query_balance = λ owner denom. ok 1000;
  query_supply = λ token. ok 1_000_000;
  query_pool = λ asset pair. ok 1_000_000;
  terraswap_pair = λ factory assets. ok (record { contract_addr = "pair"; liquidity_token = "lp" });
  terraswap_simulate = λ pair offer. ok 90;
  astroport_pair = λ factory assets. ok "astroport_pair";
  astroport_simulate = λ pair offer. ok 95;
  lock_info = λ lock idx. err not_found;
  next_position_idx = λ mint. ok 5;
  collateral_rate = λ oracle asset. ok one;
  mirror_rewards = λ staking owner asset. ok [];
  spectrum_rewards = λ farm owner asset. ok [];
  spectrum_pool = λ farm key. ok none;
  has_raw_key = λ farm key. ok true;
}

floor : (a r p : ℕ) → host.mul_decimal a r ≡ ok p → p ≡ a * r / 10 ^ 18
floor a r p e = ground arith

quotient : (a b r : ℕ) → (chain true).from_ratio a b ≡ ok r → r ≡ a * 10 ^ 18 / b
quotient a b r e = ground arith

pub chain-ChainLaws : (fresh : Bool) → ChainLaws (chain fresh)
chain-ChainLaws fresh = record {
  bignum = record {
    adds = anchor-BignumLaws.adds;
    subtracts = anchor-BignumLaws.subtracts;
    multiplies = anchor-BignumLaws.multiplies;
    divides = anchor-BignumLaws.divides;
    ratio = anchor-BignumLaws.ratio;
    converts = anchor-BignumLaws.converts;
  };
  decimals = exact-Decimal256Laws;
  multiplies = floor;
  ratio = quotient;
}
