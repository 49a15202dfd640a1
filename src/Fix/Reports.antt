-- ===== src/Fix/Reports.antt =====
-- `fix_to_execution_report`: what it makes of the bytes of an execution report.
use hftperformance.Prelude.{
  ℕ, ◌<◌, ◌^◌, ◌≡◌, refl, ap, ◌∙◌, List, [], ◌∷◌, Option, some, All, arith, true,
}
use hftperformance.Prelude.Int.{ℤ, pos}
use hftperformance.Prelude.Text.{Free, Free-of_cut, cut_at, codes, same_text}
use hftperformance.Types.{Side, buy, sell, OrderStatus, ExecutionType}
use hftperformance.Order.{ExecutionReport}
use hftperformance.Fix.{
  delimiter, find_field, set_field, parse, get_int, get_field, msg_type, or_zero, exec_type_of,
  side_of, fix_to_side, fix_to_execution_report, read_report,
}
use hftperformance.Fix.Numbers.{show_ℤ}
use hftperformance.Fix.Digits.{Free-show_ℤ, InRange, from_chars-show_ℤ}
use hftperformance.Fix.RoundTrip.{FieldList, IsField, render, set_all, parse-render}

-- The codes that the protocol has for the kinds of a report and for the sides.
abbrev pub exec_code : ExecutionType → List ℕ
exec_code ExecutionType.new = codes "0"
exec_code ExecutionType.trade = codes "F"
exec_code ExecutionType.cancelled = codes "4"
exec_code ExecutionType.replaced = codes "5"
exec_code ExecutionType.rejected = codes "8"

abbrev pub side_code : Side → List ℕ
side_code buy = codes "1"
side_code sell = codes "2"

-- What is read of such a code: a replacement is not known, and counts as new.
abbrev pub exec_read : ExecutionType → ExecutionType
exec_read ExecutionType.replaced = ExecutionType.new
exec_read t = t

-- The fields of an execution report on the wire, with any text for its status.
unfoldable pub report_fields : ℕ → ExecutionType → List ℕ → Side → ℤ → List ℕ → ℤ → ℤ → FieldList
report_fields id kind status side qty price leaves done =
    (35, codes "8")
    ∷ (37, show_ℤ (pos id))
    ∷ (150, exec_code kind)
    ∷ (39, status)
    ∷ (54, side_code side)
    ∷ (32, show_ℤ qty)
    ∷ (31, price)
    ∷ (151, show_ℤ leaves)
    ∷ (14, show_ℤ done)
    ∷ []

Free-exec_code : (kind : ExecutionType) → Free delimiter (exec_code kind)
unfolding cut_at
Free-exec_code ExecutionType.new = Free-of_cut delimiter (codes "0") refl
Free-exec_code ExecutionType.trade = Free-of_cut delimiter (codes "F") refl
Free-exec_code ExecutionType.cancelled = Free-of_cut delimiter (codes "4") refl
Free-exec_code ExecutionType.replaced = Free-of_cut delimiter (codes "5") refl
Free-exec_code ExecutionType.rejected = Free-of_cut delimiter (codes "8") refl

Free-side_code : (side : Side) → Free delimiter (side_code side)
unfolding cut_at
Free-side_code buy = Free-of_cut delimiter (codes "1") refl
Free-side_code sell = Free-of_cut delimiter (codes "2") refl

Free-number : (i : ℤ) → Free delimiter (show_ℤ i)
Free-number i = Free-show_ℤ delimiter i refl (λ same. absurd (omega (arith, same)))

exec_type_of-exec_code :
    (kind : ExecutionType) → exec_type_of (some (exec_code kind)) ≡ exec_read kind
unfolding exec_type_of
exec_type_of-exec_code ExecutionType.new = refl
exec_type_of-exec_code ExecutionType.trade = refl
exec_type_of-exec_code ExecutionType.cancelled = refl
exec_type_of-exec_code ExecutionType.replaced = refl
exec_type_of-exec_code ExecutionType.rejected = refl

side_of-side_code : (side : Side) → side_of (some (side_code side)) ≡ side
unfolding side_of fix_to_side
side_of-side_code buy = refl
side_of-side_code sell = refl

module _ (read_price : List ℕ → Option ℤ) (time : ℤ) (id : ℕ) (kind : ExecutionType)
    (status : List ℕ) (side : Side) (qty : ℤ) (price : List ℕ) (leaves done : ℤ) where
  abbrev written : FieldList
  written = report_fields id kind status side qty price leaves done

  written-IsField : Free delimiter status → Free delimiter price → All IsField written
  unfolding report_fields cut_at
  written-IsField hs hp = (
    (omega arith, Free-of_cut delimiter (codes "8") refl),
    (
      (omega arith, Free-number (pos id)),
      (
        (omega arith, Free-exec_code kind),
        (
          (omega arith, hs),
          (
            (omega arith, Free-side_code side),
            (
              (omega arith, Free-number qty),
              (
                (omega arith, hp),
                ((omega arith, Free-number leaves), ((omega arith, Free-number done), tt)),
              ),
            ),
          ),
        ),
      ),
    ),
  )

  parsed :
      Free delimiter status
      → Free delimiter price
      → parse (render written)
        ≡ (true, record { fields = set_all written []; raw_data = render written })
  unfolding report_fields
  parsed hs hp = parse-render _ _ (written-IsField hs hp)

  -- What the message's own fields say, read as the report.
  abbrev pub expected : ExecutionReport
  expected = record {
    order_id = id;
    contra_order_id = 0;
    execution_price = or_zero (read_price price);
    execution_quantity = qty;
    side = side;
    exec_type = exec_read kind;
    order_status = OrderStatus.new;
    timestamp = time;
    client_id = 0;
    leaves_quantity = leaves;
    cumulative_quantity = done;
  }

  from_fields :
      (raw : List ℕ)
      → id < 2 ^ 63
      → InRange (2 ^ 63) qty
      → InRange (2 ^ 63) leaves
      → InRange (2 ^ 63) done
      → fix_to_execution_report read_price time
          (record { fields = set_all written []; raw_data = raw })
        ≡ some expected
  unfolding fix_to_execution_report read_report msg_type get_int get_field find_field set_all
      set_field report_fields same_text or_zero
  from_fields raw hi hq hl hd =
      rw
        (
          from_chars-show_ℤ (2 ^ 63) (pos id) (omega arith) hi,
          from_chars-show_ℤ (2 ^ 63) qty (omega arith) hq,
          from_chars-show_ℤ (2 ^ 63) leaves (omega arith) hl,
          from_chars-show_ℤ (2 ^ 63) done (omega arith) hd,
          exec_type_of-exec_code kind,
          side_of-side_code side,
        )
        refl

  -- An execution report that is written field by field, with a number below 2 ^ 63, quantities of an
  -- `int64_t`, and texts without the delimiter for its status and price, is read back from its bytes with
  -- its number, kind, side and quantities and with what `read_price` makes of its price; a replacement
  -- counts as new. Its status is NEW whatever text the message has for it.
  pub fix_to_execution_report-parse :
      Free delimiter status
      → Free delimiter price
      → id < 2 ^ 63
      → InRange (2 ^ 63) qty
      → InRange (2 ^ 63) leaves
      → InRange (2 ^ 63) done
      → fix_to_execution_report read_price time (parse (render written)).1 ≡ some expected
  fix_to_execution_report-parse hs hp hi hq hl hd =
      ap (λ r. fix_to_execution_report read_price time r.1) (parsed hs hp)
      ∙ from_fields (render written) hi hq hl hd
