-- ===== src/Tests/Messages.antt =====
-- FIX messages at concrete orders and reports.
use hftperformance.Prelude.{ℕ, ◌≡◌, refl, true, List, [], ◌∷◌, none, some, length, arith, Option}
use hftperformance.Prelude.Int.{ℤ, pos}
use hftperformance.Prelude.Text.{Free-of_cut, cut_at, codes}
use hftperformance.Types.{buy, sell, limit, ExecutionType}
use hftperformance.Order.{Order, make_order}
use hftperformance.Fix.{
  delimiter, FixMessage, FixMessageBuilder, as_signed, begin, build, parse, parse_fields,
  verify_checksum, get_field, get_int, msg_type, side_to_fix, order_to_fix, field_text,
  fix_to_execution_report, order_type_to_fix,
}
use hftperformance.Fix.Numbers.{show_digits, show_ℕ, show_ℤ, show_three}
use hftperformance.Fix.RoundTrip.{FieldList, render, set_all, Scan, parse_fields-Scan}
use hftperformance.Fix.Checksum.{with_trailer}
use hftperformance.Fix.Build.{standard, begin-Holds, build-parse}
use hftperformance.Fix.Orders.{order_fields, order_to_fix-parse}
use hftperformance.Fix.Reports.{report_fields, expected, fix_to_execution_report-parse}

abbrev two_fields : FieldList
two_fields = (35, codes "8") ∷ (37, codes "12") ∷ []

parse_fields-Scan_example : Scan (codes "35=8") [] (parse_fields 4 (codes "35=8") [])
parse_fields-Scan_example = parse_fields-Scan 4 (codes "35=8") [] (omega arith)

abbrev started : FixMessageBuilder
started = begin (pos 5) (codes "0") (codes "A") (codes "B") 1

abbrev started_fields : FieldList
started_fields =
    (35, codes "0")
    ∷ (49, codes "A")
    ∷ (56, codes "B")
    ∷ (34, show_ℤ (as_signed 1))
    ∷ (52, show_ℤ (pos 5))
    ∷ []

build-parse_example :
    ((parse (build started)).0 ≡ true)
    × ((parse (build started)).1.fields
        ≡ set_all
            (with_trailer (standard (show_three (length (render started_fields))) started_fields))
            [])
    × (verify_checksum (parse (build started)).1 ≡ true)
unfolding cut_at render field_text show_ℤ show_ℕ show_digits as_signed
build-parse_example =
    build-parse started started_fields (begin-Holds (pos 5) (codes "0") (codes "A") (codes "B") 1)
      (
        (omega arith, Free-of_cut delimiter (codes "0") refl),
        (
          (omega arith, Free-of_cut delimiter (codes "A") refl),
          (
            (omega arith, Free-of_cut delimiter (codes "B") refl),
            (
              (omega arith, Free-of_cut delimiter (codes "1") refl),
              ((omega arith, Free-of_cut delimiter (codes "5") refl), tt),
            ),
          ),
        ),
      )
      (omega arith)

abbrev bid : Order
bid = make_order (pos 5) 12 buy limit (pos 100) (pos 30) 0

abbrev price_text : ℤ → List ℕ
price_text p = codes "1.5"

abbrev bid_message : FixMessage
bid_message = (parse (order_to_fix price_text (pos 5) bid (codes "A") (codes "B") 1)).1

order_to_fix-parse_example :
    (verify_checksum bid_message ≡ true)
    × (msg_type bid_message ≡ codes "D")
    × (get_int (pos 11) bid_message ≡ some (pos 12))
    × (get_int (pos 38) bid_message ≡ some (pos 30))
    × (get_field (pos 54) bid_message ≡ some (codes "1"))
    × (get_field (pos 40) bid_message ≡ some (codes "2"))
    × (get_field (pos 44) bid_message ≡ some (codes "1.5"))
unfolding cut_at render field_text show_ℤ show_ℕ show_digits as_signed order_fields side_to_fix
    order_type_to_fix make_order
order_to_fix-parse_example =
    order_to_fix-parse price_text (λ p. Free-of_cut delimiter (codes "1.5") refl) (pos 5) bid
      (codes "A") (codes "B") 1 (Free-of_cut delimiter (codes "A") refl)
      (Free-of_cut delimiter (codes "B") refl) (omega arith) (omega arith) (omega arith)

abbrev read_none : List ℕ → Option ℤ
read_none text = none

-- A trade of 30 that leaves nothing, whose status says that the order is filled.
fix_to_execution_report-parse_example :
    fix_to_execution_report read_none
      (pos 5)
      (parse (
        render (
          report_fields 12 ExecutionType.trade
            (codes "2")
            sell
            (pos 30)
            (codes "1.5")
            (pos 0)
            (pos 30)))).1
    ≡ some (
        expected read_none
          (pos 5)
          12
          ExecutionType.trade
          (codes "2")
          sell
          (pos 30)
          (codes "1.5")
          (pos 0)
          (pos 30))
unfolding cut_at
fix_to_execution_report-parse_example =
    fix_to_execution_report-parse read_none (pos 5) 12 ExecutionType.trade (codes "2") sell (pos 30)
      (codes "1.5") (pos 0) (pos 30) (Free-of_cut delimiter (codes "2") refl)
      (Free-of_cut delimiter (codes "1.5") refl) (omega arith) (omega arith) (omega arith)
      (omega arith)
