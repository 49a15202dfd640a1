-- ===== src/Rest/Json.antt =====
-- src/protocol/rest_handler.cpp, the builders of `json_response` and `parse_order_request`.
-- The program prints prices and reads numbers in floating point: `print_price` is the text of a price with
-- eight decimals, and `stod` reads a number into the type `Double`, or throws.
use hftperformance.Prelude.{
  ℕ, suc, ◌+◌, ◌-◌, Bool, true, false, ◌||◌, List, [], ◌∷◌, ◌++◌, Option, none, some, length, ◌==◌,
  if◌then◌else◌,
}
use hftperformance.Prelude.Int.{ℤ}
use hftperformance.Prelude.Text.{codes, cut, same_text}
use hftperformance.Types.{Side, buy, sell, OrderType, limit, market, Quote, quote_spread}
use hftperformance.Fix.Numbers.{show_ℕ, show_ℤ}
use hftperformance.WebSocket.Bytes.{take, drop}
use hftperformance.Rest.Router.{json_error}

-- `success`
unfoldable pub success : List ℕ → List ℕ
success message = codes "{\"success\":true,\"message\":\"" ++ message ++ codes "\"}"

-- `order_accepted`, `order_rejected` and `order_cancelled`
unfoldable pub order_accepted : ℕ → List ℕ → List ℕ
order_accepted order_id symbol =
    codes "{\"success\":true,\"orderId\":\""
    ++ show_ℕ order_id
    ++ codes "\",\"symbol\":\""
    ++ symbol
    ++ codes "\"}"

unfoldable pub order_rejected : List ℕ → List ℕ
unfolding json_error
order_rejected reason = json_error reason (codes "ORDER_REJECTED")

unfoldable pub order_cancelled : ℕ → List ℕ
order_cancelled order_id =
    codes "{\"success\":true,\"orderId\":\""
    ++ show_ℕ order_id
    ++ codes "\",\"status\":\"CANCELLED\"}"

module _ (print_price : ℤ → List ℕ) where
  -- `quote`
  unfoldable pub quote : Quote → List ℕ → List ℕ
  quote q symbol =
      codes "{\"symbol\":\""
      ++ symbol
      ++ codes "\",\"bidPrice\":"
      ++ print_price q.bid_price
      ++ codes ",\"askPrice\":"
      ++ print_price q.ask_price
      ++ codes ",\"bidQty\":"
      ++ show_ℤ q.bid_quantity
      ++ codes ",\"askQty\":"
      ++ show_ℤ q.ask_quantity
      ++ codes ",\"spread\":"
      ++ print_price (quote_spread q)
      ++ codes ",\"timestamp\":"
      ++ show_ℤ q.timestamp
      ++ codes "}"

  -- `depth`; `first` says whether no comma comes before the entry.
  unfoldable pub depth_side : Bool → List (ℤ × ℤ) → List ℕ
  depth_side first [] = []
  depth_side first ((price, quantity) ∷ entries) =
      (if first then [] else codes ",")
      ++ codes "["
      ++ print_price price
      ++ codes ","
      ++ show_ℤ quantity
      ++ codes "]"
      ++ depth_side false entries

  unfoldable pub depth : List (ℤ × ℤ) → List (ℤ × ℤ) → List ℕ → List ℕ
  unfolding depth_side
  depth bids asks symbol =
      codes "{\"symbol\":\""
      ++ symbol
      ++ codes "\",\"bids\":["
      ++ depth_side true bids
      ++ codes "],\"asks\":["
      ++ depth_side true asks
      ++ codes "]}"

-- `find` of a string from a position on.
unfoldable pub find_from : List ℕ → ℕ → List ℕ → Option ℕ
find_from s start bytes = elim (cut s (drop start bytes)) [
  | none ↦ none
  | some (front, _) ↦ some (start + length front)
]

-- The position behind what `find` has found; `npos + 1` is 0.
abbrev pub behind : Option ℕ → ℕ
behind none = 0
behind (some n) = suc n

abbrev pub to_end : ℕ → Option ℕ → List ℕ → List ℕ
to_end start none bytes = drop start bytes
to_end start (some stop) bytes = take (stop - start) (drop start bytes)

-- `find_string`
unfoldable pub find_string : List ℕ → List ℕ → Option (List ℕ)
unfolding find_from
find_string key bytes = elim (find_from key 0 bytes) [
  | none ↦ none
  | some place ↦
      let start = behind (find_from (b'"' ∷ []) (place + length key + 2) bytes) in
      some (to_end start (find_from (b'"' ∷ []) start bytes) bytes)
]

abbrev pub skip_quotes : List ℕ → List ℕ
skip_quotes [] = []
skip_quotes (c ∷ s) = let rest = skip_quotes s in if c == b' ' || c == b'"' then rest else c ∷ s

abbrev pub order_side : List ℕ → Side
order_side s = if same_text s (codes "BUY") || same_text s (codes "buy") then buy else sell

-- The `type` of the request, if there is one.
unfoldable pub order_type : Option (List ℕ) → OrderType
order_type none = limit
order_type (some s) =
    if same_text s (codes "LIMIT") || same_text s (codes "limit")
    then limit
    else if same_text s (codes "MARKET") || same_text s (codes "market")
    then market
    else limit

abbrev pub or_empty : Option (List ℕ) → List ℕ
or_empty none = []
or_empty (some s) = s

-- `struct OrderRequestJson`
pub record OrderRequestJson (Double : Type 0) : Type 0 where
  pub symbol : List ℕ
  pub side : Side
  pub type : OrderType
  pub price : Double
  pub quantity : Double
  pub client_order_id : List ℕ

-- What `parse_order_request` does: no request, an exception of `std::stod`, or a request.
pub data OrderRead (Double : Type 0) : Type 0 where
  refused : OrderRead Double
  threw : OrderRead Double
  request : OrderRequestJson Double → OrderRead Double

-- A number in the text: it is missing, `std::stod` throws, or it is there.
pub data NumberRead (Double : Type 0) : Type 0 where
  missing : NumberRead Double
  bad : NumberRead Double
  number : Double → NumberRead Double

module _ {Double : Type 0} (zero_double : Double) (stod : List ℕ → Option Double) where
  abbrev pub number_of : Option Double → NumberRead Double
  number_of none = bad
  number_of (some x) = number x

  -- `find_number`
  unfoldable pub find_number : List ℕ → List ℕ → NumberRead Double
  unfolding find_from
  find_number key bytes = elim (find_from key 0 bytes) [
    | none ↦ missing
    | some place ↦
        number_of
          (stod (take 20 (skip_quotes (drop (behind (find_from (b':' ∷ []) place bytes)) bytes))))
  ]

  abbrev pub with_numbers :
      NumberRead Double
      → NumberRead Double
      → (Double → Double → OrderRequestJson Double)
      → OrderRead Double
  with_numbers bad quantity make = threw
  with_numbers missing missing make = refused
  with_numbers missing bad make = threw
  with_numbers missing (number q) make = request (make zero_double q)
  with_numbers (number p) missing make = refused
  with_numbers (number p) bad make = threw
  with_numbers (number p) (number q) make = request (make p q)

  -- `parse_order_request`
  unfoldable pub parse_order_request : List ℕ → OrderRead Double
  unfolding find_string find_number order_type
  parse_order_request bytes = elim (find_string (codes "symbol") bytes) [
    | none ↦ refused
    | some symbol ↦ elim (find_string (codes "side") bytes) [
      | none ↦ refused
      | some side ↦
          with_numbers (find_number (codes "price") bytes) (find_number (codes "quantity") bytes)
            (λ p q. record {
              symbol = symbol;
              side = order_side side;
              type = order_type (find_string (codes "type") bytes);
              price = p;
              quantity = q;
              client_order_id = or_empty (find_string (codes "clientOrderId") bytes);
            })
    ]
  ]
