-- ===== src/Tax.antt =====
-- The GST engine (packages/core/src/tax/index.ts). An amount given by a caller is a JsNumber, since
-- validation tells integers from other numbers; the results are whole paise. `bigint` is ℤ.
pub mod Rounding
pub mod Lines
pub mod Totality
pub mod Allocation
mod Tests
use ecom_platform.Base.{
  ℕ, zero, suc, ◌+◌, ◌-◌, ◌*◌, ◌/◌, ◌%◌, Bool, true, false, not, ◌&&◌, ◌||◌, List, [], ◌∷◌, map,
  sum, any, take, ltb, leb, ◌==◌, if◌then◌else◌, Result, ok, err, ◌>>=◌, ◌>>◌, refuse_if, internal,
  invalid_payload, JsNumber, ℤ, pos, negsuc, max_safe_integer, is_amount, nat_value, Text, trim,
  to_upper_case, text_eq, sort_by,
}
use ecom_platform.Apportion.{bump, enumerate}

pub data TaxRegistrationType : Type 0 where
  unregistered : TaxRegistrationType
  regular : TaxRegistrationType
  composition : TaxRegistrationType

pub record TaxableLine : Type 0 where
  pub line_id : ℕ
  pub taxable_paise : JsNumber
  pub tax_rate_bps : JsNumber

pub record TaxContext : Type 0 where
  pub seller_state_code : Text
  pub place_of_supply_state_code : Text
  pub registration_type : TaxRegistrationType
  pub inclusive : Bool

pub record LineTax : Type 0 where
  pub line_id : ℕ
  pub taxable_exclusive_paise : ℕ
  pub cgst_paise : ℕ
  pub sgst_paise : ℕ
  pub igst_paise : ℕ
  pub tax_paise : ℕ

abbrev pub magnitude : ℤ → ℕ
magnitude (pos n) = n
magnitude (negsuc n) = suc n

abbrev pub is_below_zero : ℤ → Bool
is_below_zero (pos n) = false
is_below_zero (negsuc n) = true

-- `a !== b`
abbrev pub differ : Bool → Bool → Bool
differ true b = not b
differ false b = b

abbrev pub signed : Bool → ℕ → ℤ
signed true zero = pos 0
signed true (suc n) = negsuc n
signed false n = pos n

-- Rounding of the magnitudes: the quotient, one more from exactly half on.
unfoldable pub half_up : ℕ → ℕ → ℕ
half_up n d = if leb d (n % d * 2) then n / d + 1 else n / d

-- A zero divisor throws a RangeError, and so does a result that is not a safe integer.
unfoldable pub div_half_up : ℤ → ℤ → Result ℤ
unfolding half_up
div_half_up numer denom = do
  refuse_if (magnitude denom == 0) internal
  refuse_if (ltb max_safe_integer (half_up (magnitude numer) (magnitude denom))) internal
  ok (
      signed (differ (is_below_zero numer) (is_below_zero denom))
        (half_up (magnitude numer) (magnitude denom)))

unfoldable pub normalize_state_code : Text → Text
normalize_state_code code = to_upper_case (trim code)

-- A line raises an issue unless both its numbers are non-negative safe integers.
abbrev pub has_issue : TaxableLine → Bool
has_issue l = not (is_amount l.taxable_paise) || not (is_amount l.tax_rate_bps)

abbrev pub is_regular : TaxRegistrationType → Bool
is_regular regular = true
is_regular unregistered = false
is_regular composition = false

unfoldable pub is_intra_state : TaxContext → Bool
unfolding normalize_state_code
is_intra_state ctx =
    text_eq (normalize_state_code ctx.seller_state_code)
      (normalize_state_code ctx.place_of_supply_state_code)

-- The amount as given, with no tax.
abbrev pub untaxed : TaxableLine → LineTax
untaxed l = record {
  line_id = l.line_id;
  taxable_exclusive_paise = nat_value l.taxable_paise;
  cgst_paise = 0;
  sgst_paise = 0;
  igst_paise = 0;
  tax_paise = 0;
}

-- `cgst = HALF_UP(tax / 2)`, `sgst = tax - cgst` within a state, else all of it as IGST.
unfoldable pub split_tax : Bool → ℕ → Result (ℕ × ℕ × ℕ)
split_tax true tax = do
  half ← div_half_up (pos tax) (pos 2)
  ok (magnitude half, tax - magnitude half, 0)
split_tax false tax = ok (0, 0, tax)

-- tax = gross × r / (10000 + r), or base × r / 10000.
unfoldable pub rounded_tax : TaxContext → TaxableLine → Result ℤ
rounded_tax ctx l =
    let product = nat_value l.taxable_paise * nat_value l.tax_rate_bps in
    if ctx.inclusive
    then div_half_up (pos product) (pos (10000 + nat_value l.tax_rate_bps))
    else div_half_up (pos product) (pos 10000)

abbrev pub taxed : TaxContext → TaxableLine → ℕ → ℕ × ℕ × ℕ → LineTax
taxed ctx l tax parts = record {
  line_id = l.line_id;
  taxable_exclusive_paise =
      if ctx.inclusive then nat_value l.taxable_paise - tax else nat_value l.taxable_paise;
  cgst_paise = parts.0;
  sgst_paise = parts.1;
  igst_paise = parts.2;
  tax_paise = tax;
}

unfoldable pub charged_line : TaxContext → TaxableLine → Result LineTax
unfolding rounded_tax split_tax
charged_line ctx l = do
  rounded ← rounded_tax ctx l
  parts ← split_tax (is_intra_state ctx) (magnitude rounded)
  ok (taxed ctx l (magnitude rounded) parts)

unfoldable pub line_tax : TaxContext → TaxableLine → Result LineTax
unfolding charged_line
line_tax ctx l =
    if not (is_regular ctx.registration_type)
      || nat_value l.tax_rate_bps == 0
      || nat_value l.taxable_paise == 0
    then ok (untaxed l)
    else charged_line ctx l

-- `lines.map`, over a body that may throw.
unfoldable pub map_lines : TaxContext → List TaxableLine → Result (List LineTax)
map_lines ctx [] = ok []
map_lines ctx (l ∷ ls) = do t ← line_tax ctx l; ts ← map_lines ctx ls; ok (t ∷ ts)

unfoldable pub compute_line_taxes : List TaxableLine → TaxContext → Result (List LineTax)
unfolding map_lines
compute_line_taxes lines ctx =
    refuse_if (any has_issue lines) invalid_payload >> map_lines ctx lines

pub data InvoiceDocType : Type 0 where
  tax_invoice : InvoiceDocType
  bill_of_supply : InvoiceDocType

unfoldable pub doc_type_for : TaxRegistrationType → InvoiceDocType
doc_type_for regular = tax_invoice
doc_type_for unregistered = bill_of_supply
doc_type_for composition = bill_of_supply

pub record Remainder : Type 0 where
  pub index : ℕ
  pub remainder : ℕ

-- The comparator: the larger remainder first, the earlier line among equals.
abbrev pub ranks_before : Remainder → Remainder → Bool
ranks_before a b =
    if a.remainder == b.remainder then leb a.index b.index else ltb b.remainder a.remainder

-- `for (i = 0; i < leftover; i++)`; a ranking that is too short would throw a TypeError.
unfoldable pub hand_out : ℕ → List Remainder → List ℕ → Result (List ℕ)
hand_out zero ranked shares = ok shares
hand_out (suc leftover) [] shares = err internal
hand_out (suc leftover) (r ∷ ranked) shares = hand_out leftover ranked (bump r.index shares)

-- The allocation over validated numbers.
unfoldable pub allocate : ℕ → List ℕ → Result (List ℕ)
unfolding hand_out
allocate total weights =
    let whole = sum weights in
    if whole == 0
    then (if total == 0 then ok (map (λ w. 0) weights) else err invalid_payload)
    else (let shares = map (λ w. total * w / whole) weights in
        hand_out (total - sum shares)
          (sort_by ranks_before
            (enumerate (λ i w. record { index = i; remainder = total * w % whole }) 0 weights))
          shares)

unfoldable pub allocate_proportionally : JsNumber → List JsNumber → Result (List ℕ)
unfolding allocate
allocate_proportionally total weights =
    refuse_if (not (is_amount total) || any (λ w. not (is_amount w)) weights) invalid_payload
    >> allocate (nat_value total) (map nat_value weights)
