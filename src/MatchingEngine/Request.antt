-- ===== src/MatchingEngine/Request.antt =====
-- src/matching/matching_engine.hpp, `OrderRequest`.
use hftperformance.Prelude.{ℕ}
use hftperformance.Prelude.Int.{ℤ}
use hftperformance.Types.{Side, OrderType}
use hftperformance.Types.Symbol.{Symbol}

-- `OrderRequest::Type`
pub data RequestType : Type 0 where
  new_order : RequestType
  cancel_order : RequestType
  modify_order : RequestType

pub record OrderRequest : Type 0 where
  pub request_type : RequestType
  pub symbol : Symbol
  pub order_id : ℕ
  pub side : Side
  pub order_type : OrderType
  pub price : ℤ
  pub quantity : ℤ
  pub client_id : ℕ
  pub timestamp : ℤ

-- `make_new` and `make_cancel`; what the latter does not set is what `raw` has.
unfoldable pub make_new : ℤ → Symbol → Side → OrderType → ℤ → ℤ → ℕ → OrderRequest
make_new time sym s ot p q client = record {
  request_type = new_order;
  symbol = sym;
  order_id = 0;
  side = s;
  order_type = ot;
  price = p;
  quantity = q;
  client_id = client;
  timestamp = time;
}

unfoldable pub make_cancel : OrderRequest → ℤ → Symbol → ℕ → OrderRequest
make_cancel raw time sym id = record raw {
  request_type = cancel_order;
  symbol = sym;
  order_id = id;
  timestamp = time;
}
