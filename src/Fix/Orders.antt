-- ===== src/Fix/Orders.antt =====
-- `order_to_fix` and `fix_to_execution_report`: orders and reports as FIX messages.
use hftperformance.Prelude.{
  ℕ, ◌<◌, ◌≡◌, ◌^◌, refl, ap, ◌∙◌, true, List, [], ◌∷◌, some, length, All, arith,
}
use hftperformance.Prelude.Int.{ℤ, pos}
use hftperformance.Prelude.Text.{Free, Free-of_cut, cut_at, codes}
use hftperformance.Types.{
  Side, buy, sell, OrderType, market, limit, stop_limit, immediate_or_cancel, fill_or_kill,
  post_only,
}
use hftperformance.Order.{Order}
use hftperformance.Fix.{
  delimiter, FixMessage, find_field, set_field, add_number, as_signed, parse, verify_checksum,
  get_field, get_int, msg_type, side_to_fix, order_type_to_fix, order_to_fix,
}
use hftperformance.Fix.Numbers.{show_ℤ, show_three, from_chars}
use hftperformance.Fix.Reports.{side_code}
use hftperformance.Fix.Digits.{Free-show_ℤ, InRange, from_chars-show_ℤ}
use hftperformance.Fix.RoundTrip.{FieldList, IsField, render, set_all}
use hftperformance.Fix.Checksum.{with_trailer}
use hftperformance.Fix.Build.{standard, append_field-Holds, begin-Holds, build-parse}

side_to_fix-side_code : (s : Side) → side_to_fix s ∷ [] ≡ side_code s
unfolding side_to_fix
side_to_fix-side_code buy = refl
side_to_fix-side_code sell = refl

-- The codes that the protocol has for the types of an order. The types that it does not know are sent as
-- limit orders.
abbrev pub type_code : OrderType → List ℕ
type_code market = codes "1"
type_code limit = codes "2"
type_code stop_limit = codes "4"
type_code immediate_or_cancel = codes "2"
type_code fill_or_kill = codes "2"
type_code post_only = codes "2"

order_type_to_fix-type_code : (t : OrderType) → order_type_to_fix t ∷ [] ≡ type_code t
unfolding order_type_to_fix
order_type_to_fix-type_code market = refl
order_type_to_fix-type_code limit = refl
order_type_to_fix-type_code stop_limit = refl
order_type_to_fix-type_code immediate_or_cancel = refl
order_type_to_fix-type_code fill_or_kill = refl
order_type_to_fix-type_code post_only = refl

-- The fields of the message for an order.
unfoldable pub order_fields : (ℤ → List ℕ) → ℤ → Order → List ℕ → List ℕ → ℕ → FieldList
order_fields show_price time order sender target seq_num =
    (35, codes "D")
    ∷ (49, sender)
    ∷ (56, target)
    ∷ (34, show_ℤ (as_signed seq_num))
    ∷ (52, show_ℤ time)
    ∷ (11, show_ℤ (as_signed order.order_id))
    ∷ (55, [])
    ∷ (54, side_to_fix order.side ∷ [])
    ∷ (38, show_ℤ order.quantity)
    ∷ (40, order_type_to_fix order.type ∷ [])
    ∷ (44, show_price order.price)
    ∷ []

Free-side_to_fix : (s : Side) → Free delimiter (side_to_fix s ∷ [])
unfolding side_to_fix cut_at
Free-side_to_fix buy = Free-of_cut delimiter (b'1' ∷ []) refl
Free-side_to_fix sell = Free-of_cut delimiter (b'2' ∷ []) refl

Free-order_type_to_fix : (t : OrderType) → Free delimiter (order_type_to_fix t ∷ [])
unfolding order_type_to_fix cut_at
Free-order_type_to_fix market = Free-of_cut delimiter (b'1' ∷ []) refl
Free-order_type_to_fix limit = Free-of_cut delimiter (b'2' ∷ []) refl
Free-order_type_to_fix stop_limit = Free-of_cut delimiter (b'4' ∷ []) refl
Free-order_type_to_fix _ = Free-of_cut delimiter (b'2' ∷ []) refl

Free-number : (i : ℤ) → Free delimiter (show_ℤ i)
Free-number i = Free-show_ℤ delimiter i refl (λ same. absurd (omega (arith, same)))

-- A number that was found as text is a number.
get_int_of :
    (tag i : ℤ) (m : FixMessage) (value : List ℕ)
    → get_field tag m ≡ some value
    → from_chars (2 ^ 63) value ≡ some i
    → get_int tag m ≡ some i
unfolding get_int
get_int_of tag i m value e f = rw (get_int, e) f

msg_type_of :
    (m : FixMessage) (value : List ℕ) → get_field (pos 35) m ≡ some value → msg_type m ≡ value
unfolding msg_type
msg_type_of m value e = rw (msg_type, e) refl

as_signed_small : (n : ℕ) → n < 2 ^ 63 → as_signed n ≡ pos n
unfolding as_signed
as_signed_small n h = ground (arith, h)

module _ (show_price : ℤ → List ℕ) (printed : (p : ℤ) → Free delimiter (show_price p)) (time : ℤ)
    (order : Order) (sender target : List ℕ) (seq_num : ℕ) where
  abbrev fields_here : FieldList
  fields_here = order_fields show_price time order sender target seq_num

  abbrev message : FixMessage
  message = (parse (order_to_fix show_price time order sender target seq_num)).1

  fields-IsField : Free delimiter sender → Free delimiter target → All IsField fields_here
  unfolding order_fields cut_at
  fields-IsField hs ht = (
    (omega arith, Free-of_cut delimiter (codes "D") refl),
    (
      (omega arith, hs),
      (
        (omega arith, ht),
        (
          (omega arith, Free-number (as_signed seq_num)),
          (
            (omega arith, Free-number time),
            (
              (omega arith, Free-number (as_signed order.order_id)),
              (
                (omega arith, tt),
                (
                  (omega arith, Free-side_to_fix order.side),
                  (
                    (omega arith, Free-number order.quantity),
                    (
                      (omega arith, Free-order_type_to_fix order.type),
                      ((omega arith, printed order.price), tt),
                    ),
                  ),
                ),
              ),
            ),
          ),
        ),
      ),
    ),
  )

  order_to_fix-Holds :
      length (render fields_here) < 10 ^ 7
      → All IsField fields_here
      → ((parse (order_to_fix show_price time order sender target seq_num)).0 ≡ true)
        × (message.fields
            ≡ set_all
                (with_trailer (standard (show_three (length (render fields_here))) fields_here))
                [])
        × (verify_checksum message ≡ true)
  unfolding order_to_fix order_fields add_number
  order_to_fix-Holds small valid =
      build-parse _ fields_here
        (append_field-Holds 44 (show_price order.price) _ _ (
          append_field-Holds 40 (order_type_to_fix order.type ∷ []) _ _ (
            append_field-Holds 38 (show_ℤ order.quantity) _ _ (
              append_field-Holds 54 (side_to_fix order.side ∷ []) _ _ (
                append_field-Holds 55 [] _ _ (
                  append_field-Holds 11 (show_ℤ (as_signed order.order_id)) _ _
                    (begin-Holds time (codes "D") sender target seq_num)))))))
        valid small

  field_here :
      (tag : ℤ) (value : List ℕ)
      → length (render fields_here) < 10 ^ 7
      → All IsField fields_here
      → find_field tag (
          set_all
            (with_trailer (standard (show_three (length (render fields_here))) fields_here))
            [])
        ≡ some value
      → get_field tag message ≡ some value
  unfolding get_field
  field_here tag value small valid e = ap (find_field tag) (order_to_fix-Holds small valid).1 ∙ e

  -- The message of an order, for a number below 2 ^ 63, a quantity of an `int64_t`, texts without the
  -- delimiter, and less than 10 ^ 7 bytes of fields, is accepted and read back: its checksum is right, it
  -- is a new order (MsgType D), its number and quantity are those of the order, the codes of its side
  -- and its type are the protocol's codes of the order's side and type, where the types that the
  -- protocol does not know count as limit, and its price is the text of the order's.
  pub order_to_fix-parse :
      Free delimiter sender
      → Free delimiter target
      → length (render fields_here) < 10 ^ 7
      → order.order_id < 2 ^ 63
      → InRange (2 ^ 63) order.quantity
      → (verify_checksum message ≡ true)
        × (msg_type message ≡ codes "D")
        × (get_int (pos 11) message ≡ some (pos order.order_id))
        × (get_int (pos 38) message ≡ some order.quantity)
        × (get_field (pos 54) message ≡ some (side_code order.side))
        × (get_field (pos 40) message ≡ some (type_code order.type))
        × (get_field (pos 44) message ≡ some (show_price order.price))
  unfolding find_field set_field set_all order_fields
  order_to_fix-parse hs ht small id quantity =
      let valid : All IsField fields_here = fields-IsField hs ht in
      let id_text : from_chars (2 ^ 63) (show_ℤ (as_signed order.order_id))
          ≡ some (pos order.order_id) =
        ap (λ i. from_chars (2 ^ 63) (show_ℤ i)) (as_signed_small order.order_id id)
        ∙ from_chars-show_ℤ (2 ^ 63) (pos order.order_id) (omega arith) id in
      (
        (order_to_fix-Holds small valid).2,
        msg_type_of message (codes "D") (field_here (pos 35) (codes "D") small valid refl),
        get_int_of (pos 11) (pos order.order_id) message _ (field_here (pos 11) _ small valid refl)
            id_text,
        get_int_of (pos 38) order.quantity message _ (field_here (pos 38) _ small valid refl)
            (from_chars-show_ℤ (2 ^ 63) order.quantity (omega arith) quantity),
        field_here (pos 54) _ small valid refl ∙ ap some (side_to_fix-side_code order.side),
        field_here (pos 40) _ small valid refl ∙ ap some (order_type_to_fix-type_code order.type),
        field_here (pos 44) _ small valid refl,
      )
