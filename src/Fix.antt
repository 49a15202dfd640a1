-- ===== src/Fix.antt =====
-- src/protocol/fix_message.hpp and fix_parser.cpp: FIX messages, read and built.
-- A string is its bytes; the field map is an association list. The clock is an argument, and so are the
-- conversions between prices and decimal texts, which the program does in floating point.
pub mod Numbers
pub mod Digits
pub mod RoundTrip
pub mod Checksum
pub mod Build
pub mod Orders
pub mod Reports
use hftperformance.Prelude.{
  ℕ, zero, suc, ◌+◌, ◌*◌, ◌-◌, ◌/◌, ◌%◌, ◌^◌, Bool, true, false, not, ◌&&◌, List, [], ◌∷◌, ◌++◌,
  Option, none, some, length, ltb, ◌==◌, if◌then◌else◌,
}
use hftperformance.Prelude.Int.{ℤ, pos, negsuc, ltb_ℤ, eqb_ℤ}
use hftperformance.Prelude.Text.{codes, cut_at, cut, strip, same_text}
use hftperformance.Types.{
  Side, buy, sell, OrderType, market, limit, stop_limit, ExecutionType, OrderStatus,
}
use hftperformance.Order.{Order, ExecutionReport}
use Numbers.{from_chars, show_ℕ, show_ℤ, show_three}

-- `FIX_DELIMITER`
abbrev pub delimiter : ℕ
delimiter = 1

abbrev pub Fields : Type 0
Fields = List (ℤ × List ℕ)

-- `FixMessage`
pub record FixMessage : Type 0 where
  pub fields : Fields
  pub raw_data : List ℕ

-- `find` and `operator[]` of the map.
unfoldable pub find_field : ℤ → Fields → Option (List ℕ)
find_field tag [] = none
find_field tag ((t, value) ∷ m) = if eqb_ℤ t tag then some value else find_field tag m

unfoldable pub set_field : ℤ → List ℕ → Fields → Fields
set_field tag value [] = (tag, value) ∷ []
set_field tag value ((t, v) ∷ m) =
    if eqb_ℤ t tag then (tag, value) ∷ m else (t, v) ∷ set_field tag value m

-- The value that starts here, and what stands behind its delimiter.
unfoldable pub value_of : List ℕ → List ℕ × List ℕ
value_of bytes = elim (cut_at delimiter bytes) [
  | none ↦ (bytes, [])
  | some (value, rest) ↦ (value, rest)
]

-- How the loop of `parse` ends: at the end of the bytes or without a further `=`, or at a tag that is no
-- number; or the fuel has not been enough.
pub data Ending : Type 0 where
  complete bad_tag out_of_fuel : Ending

-- The loop of `parse`; each round takes a byte at least.
unfoldable pub parse_fields : ℕ → List ℕ → Fields → Ending × Fields
parse_fields zero [] fields = (complete, fields)
parse_fields zero (_ ∷ _) fields = (out_of_fuel, fields)
parse_fields (suc fuel) bytes fields = elim (cut_at b'=' bytes) [
  | none ↦ (complete, fields)
  | some (tag_text, rest) ↦ elim (from_chars (2 ^ 31) tag_text) [
    | none ↦ (bad_tag, fields)
    | some tag ↦ parse_fields fuel (value_of rest).1 (set_field tag (value_of rest).0 fields)
  ]
]

-- `empty` of the map.
abbrev pub is_empty : Fields → Bool
is_empty [] = true
is_empty (_ ∷ _) = false

-- `FixMessage::parse`
abbrev pub finish_parse : List ℕ → Ending × Fields → Bool × FixMessage
finish_parse bytes (complete, fields) =
    (not (is_empty fields), record { fields = fields; raw_data = bytes })
finish_parse bytes (_, fields) = (false, record { fields = fields; raw_data = bytes })

unfoldable pub parse : List ℕ → Bool × FixMessage
unfolding parse_fields
parse bytes = finish_parse bytes (parse_fields (length bytes) bytes [])

-- `get_field`, `has_field`, `get_int` and `msg_type`
unfoldable pub get_field : ℤ → FixMessage → Option (List ℕ)
unfolding find_field
get_field tag m = find_field tag m.fields

unfoldable pub has_field : ℤ → FixMessage → Bool
unfolding get_field
has_field tag m = elim (get_field tag m) [ none ↦ false | some _ ↦ true ]

unfoldable pub get_int : ℤ → FixMessage → Option ℤ
unfolding get_field
get_int tag m = elim (get_field tag m) [ none ↦ none | some value ↦ from_chars (2 ^ 63) value ]

unfoldable pub msg_type : FixMessage → List ℕ
unfolding get_field
msg_type m = elim (get_field (pos 35) m) [ none ↦ [] | some value ↦ value ]

-- `calculate_checksum`
abbrev pub sum_bytes : List ℕ → ℕ
sum_bytes [] = 0
sum_bytes (b ∷ bytes) = b + sum_bytes bytes

unfoldable pub calculate_checksum : List ℕ → ℕ
calculate_checksum bytes = sum_bytes bytes % 2 ^ 32 % 256

-- `rfind`: what stands before the last place of `s`.
unfoldable pub before_last : List ℕ → List ℕ → Option (List ℕ)
before_last s [] = none
before_last s (x ∷ xs) = elim (before_last s xs) [
  | some front ↦ some (x ∷ front)
  | none ↦ elim (strip s (x ∷ xs)) [ none ↦ none | some _ ↦ some [] ]
]

-- `verify_checksum`
unfoldable pub verify_checksum : FixMessage → Bool
unfolding get_field
verify_checksum m = elim (get_field (pos 10) m) [
  | none ↦ false
  | some field ↦ elim (before_last (codes "10=") m.raw_data) [
    | none ↦ false
    | some front ↦ elim (from_chars (2 ^ 31) field) [
      | none ↦ false
      | some stated ↦ eqb_ℤ (pos (calculate_checksum front)) stated
    ]
  ]
]

-- `FixMessageBuilder`
pub record FixMessageBuilder : Type 0 where
  pub buffer : List ℕ
  pub body_start : ℕ

-- `append_field`
unfoldable pub field_text : ℕ → List ℕ → List ℕ
field_text tag value = show_ℕ tag ++ (b'=' ∷ (value ++ delimiter ∷ []))

unfoldable pub append_field : ℕ → List ℕ → FixMessageBuilder → FixMessageBuilder
unfolding field_text
append_field tag value b = record b { buffer = b.buffer ++ field_text tag value }

-- `add_field` of a number
unfoldable pub add_number : ℕ → ℤ → FixMessageBuilder → FixMessageBuilder
unfolding append_field
add_number tag value b = append_field tag (show_ℤ value) b

-- `seq_num` cast to int64_t
unfoldable pub as_signed : ℕ → ℤ
as_signed n = if ltb n (2 ^ 63) then pos n else negsuc (2 ^ 64 - 1 - n)

-- `begin`
unfoldable pub begin : ℤ → List ℕ → List ℕ → List ℕ → ℕ → FixMessageBuilder
unfolding append_field add_number as_signed
begin time msg_type sender target seq_num =
    let started = append_field 8 (codes "FIX.4.4") (record { buffer = []; body_start = 0 }) in
    let placed =
      append_field 9 (codes "000") (record started { body_start = length started.buffer }) in
    let named = append_field 56 target (append_field 49 sender (append_field 35 msg_type placed)) in
    append_field 52 (show_ℤ time) (add_number 34 (as_signed seq_num) named)

-- The placeholder `9=000` with the length in it: `find`, and `replace` of the three zeros.
unfoldable pub put_length : List ℕ → List ℕ → List ℕ
put_length text buffer = elim (cut (codes "9=000") buffer) [
  | none ↦ buffer
  | some (front, back) ↦ front ++ (codes "9=" ++ (text ++ back))
]

-- The checksum field behind the message.
unfoldable pub seal : List ℕ → List ℕ
seal bytes = bytes ++ (codes "10=" ++ (show_three (calculate_checksum bytes) ++ delimiter ∷ []))

-- `build`. The length is printed into a buffer of eight bytes, with the final null byte.
abbrev pub first_seven : List ℕ → List ℕ
first_seven (c0 ∷ c1 ∷ c2 ∷ c3 ∷ c4 ∷ c5 ∷ c6 ∷ _) = c0 ∷ c1 ∷ c2 ∷ c3 ∷ c4 ∷ c5 ∷ c6 ∷ []
first_seven text = text

unfoldable pub body_length : FixMessageBuilder → ℕ
body_length b = (length b.buffer + 2 * 2 ^ 64 - b.body_start - 6) % 2 ^ 64

unfoldable pub build : FixMessageBuilder → List ℕ
unfolding put_length seal body_length
build b = seal (put_length (first_seven (show_three (body_length b))) b.buffer)

-- `side_to_fix`, `fix_to_side` and `order_type_to_fix`
unfoldable pub side_to_fix : Side → ℕ
side_to_fix buy = b'1'
side_to_fix sell = b'2'

unfoldable pub fix_to_side : ℕ → Option Side
fix_to_side c = if c == b'1' then some buy else if c == b'2' then some sell else none

unfoldable pub order_type_to_fix : OrderType → ℕ
order_type_to_fix market = b'1'
order_type_to_fix limit = b'2'
order_type_to_fix stop_limit = b'4'
order_type_to_fix _ = b'2'

-- `order_to_fix`; `show_price` prints a price with eight decimals. The symbol is always an empty one.
unfoldable pub order_to_fix : (ℤ → List ℕ) → ℤ → Order → List ℕ → List ℕ → ℕ → List ℕ
unfolding begin append_field add_number as_signed side_to_fix order_type_to_fix build
order_to_fix show_price time order sender target seq_num =
    let started = begin time (codes "D") sender target seq_num in
    let named = append_field 55 [] (add_number 11 (as_signed order.order_id) started) in
    let sided = append_field 54 (side_to_fix order.side ∷ []) named in
    let sized = add_number 38 order.quantity sided in
    build (
      append_field 44 (show_price order.price)
        (append_field 40 (order_type_to_fix order.type ∷ []) sized))

-- The execution type of a report, by its first letter; any other leaves it NEW.
unfoldable pub exec_type_of : Option (List ℕ) → ExecutionType
exec_type_of none = ExecutionType.new
exec_type_of (some []) = ExecutionType.new
exec_type_of (some (c ∷ _)) =
    if c == b'0'
    then ExecutionType.new
    else if c == b'F'
    then ExecutionType.trade
    else if c == b'4'
    then ExecutionType.cancelled
    else if c == b'8'
    then ExecutionType.rejected
    else ExecutionType.new

unfoldable pub side_of : Option (List ℕ) → Side
unfolding fix_to_side
side_of none = buy
side_of (some []) = buy
side_of (some (c ∷ _)) = elim (fix_to_side c) [ none ↦ buy | some s ↦ s ]

unfoldable pub or_zero : Option ℤ → ℤ
or_zero none = pos 0
or_zero (some n) = n

-- An `int64_t` as an order number.
abbrev pub as_unsigned : ℤ → ℕ
as_unsigned (pos n) = n
as_unsigned (negsuc n) = 2 ^ 64 - 1 - n

-- `fix_to_execution_report`; `read_price` reads a decimal text as a price.
unfoldable pub read_report : (List ℕ → Option ℤ) → ℤ → FixMessage → ℤ → ExecutionReport
unfolding get_int get_field exec_type_of side_of or_zero
read_report read_price time m oid = record {
  order_id = as_unsigned oid;
  contra_order_id = 0;
  execution_price = elim (get_field (pos 31) m) [
    | none ↦ pos 0
    | some text ↦ or_zero (read_price text)
  ];
  execution_quantity = or_zero (get_int (pos 32) m);
  side = side_of (get_field (pos 54) m);
  exec_type = exec_type_of (get_field (pos 150) m);
  order_status = OrderStatus.new;
  timestamp = time;
  client_id = 0;
  leaves_quantity = or_zero (get_int (pos 151) m);
  cumulative_quantity = or_zero (get_int (pos 14) m);
}

unfoldable pub fix_to_execution_report :
    (List ℕ → Option ℤ) → ℤ → FixMessage → Option ExecutionReport
unfolding msg_type get_int read_report
fix_to_execution_report read_price time m =
    if same_text (msg_type m) (codes "8")
    then elim (get_int (pos 37) m) [
      | none ↦ none
      | some oid ↦ some (read_report read_price time m oid)
    ]
    else none
