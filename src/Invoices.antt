-- ===== src/Invoices.antt =====
-- Invoices (packages/core/src/invoices/server.ts): a number is allocated, and the row inserted, in
-- the transaction that confirms the order. The financial year of the clock is the caller's, the
-- seller's and the buyer's blocks, which are copied, are left out.
pub mod Numbering
pub mod Series
mod Tests
use ecom_platform.Base.{
  ℕ, ◌+◌, Bool, true, false, not, ◌&&◌, ◌||◌, Option, none, some, List, ◌∷◌, any, ◌==◌, Result, ok,
  err, ◌>>=◌, ◌>>◌, refuse_if, invalid_payload, internal, unique_violation, find_first,
  update_where, ltb, max_safe_integer,
}
use ecom_platform.Tax.{InvoiceDocType, tax_invoice, bill_of_supply}

-- 'INV' | 'BOS'
pub data InvoiceSeriesCode : Type 0 where
  inv bos : InvoiceSeriesCode

pub record SeriesRow : Type 0 where
  pub series_code : InvoiceSeriesCode
  pub financial_year : ℕ
  pub prefix : ℕ
  pub next_number : ℕ

-- The columns that numbering and the totals use; `lines` is how many the document carries.
pub record InvoiceRow : Type 0 where
  pub order_id : ℕ
  pub doc_type : InvoiceDocType
  pub series_code : InvoiceSeriesCode
  pub financial_year : ℕ
  pub number : ℕ
  pub prefix : ℕ
  pub cgst_paise : ℕ
  pub sgst_paise : ℕ
  pub igst_paise : ℕ
  pub total_paise : ℕ

pub record InvoiceBook : Type 0 where
  pub series : List SeriesRow
  pub invoices : List InvoiceRow

pub record CreateInvoiceInput : Type 0 where
  pub order_id : ℕ
  pub doc_type : InvoiceDocType
  pub prefix : ℕ
  pub line_count : ℕ
  pub cgst_paise : ℕ
  pub sgst_paise : ℕ
  pub igst_paise : ℕ
  pub total_paise : ℕ

abbrev pub same_series_code : InvoiceSeriesCode → InvoiceSeriesCode → Bool
same_series_code inv inv = true
same_series_code bos bos = true
same_series_code inv bos = false
same_series_code bos inv = false

abbrev pub same_doc_type : InvoiceDocType → InvoiceDocType → Bool
same_doc_type tax_invoice tax_invoice = true
same_doc_type bill_of_supply bill_of_supply = true
same_doc_type tax_invoice bill_of_supply = false
same_doc_type bill_of_supply tax_invoice = false

abbrev pub series_for_doc_type : InvoiceDocType → InvoiceSeriesCode
series_for_doc_type tax_invoice = inv
series_for_doc_type bill_of_supply = bos

abbrev pub is_series : InvoiceSeriesCode → ℕ → SeriesRow → Bool
is_series code year r = same_series_code r.series_code code && r.financial_year == year

abbrev pub new_series : InvoiceSeriesCode → ℕ → ℕ → SeriesRow
new_series code year prefix = record {
  series_code = code;
  financial_year = year;
  prefix = prefix;
  next_number = 1;
}

-- INSERT .. ON CONFLICT DO NOTHING
abbrev pub ensure_series : InvoiceSeriesCode → ℕ → ℕ → List SeriesRow → List SeriesRow
ensure_series code year prefix rows = elim (find_first (is_series code year) rows) [
  | none ↦ new_series code year prefix ∷ rows
  | some r ↦ rows
]

abbrev pub advanced : SeriesRow → SeriesRow
advanced r = record r { next_number = r.next_number + 1 }

-- UPDATE .. SET next_number = next_number + 1 .. RETURNING; the row as it was before, which holds the
-- number and the series' own prefix.
abbrev pub take_number :
    InvoiceSeriesCode → ℕ → List SeriesRow → Option SeriesRow → Result (SeriesRow × List SeriesRow)
take_number code year rows none = err internal
take_number code year rows (some r) = ok (r, update_where (is_series code year) advanced rows)

unfoldable pub allocate_invoice_number :
    InvoiceSeriesCode → ℕ → ℕ → List SeriesRow → Result (SeriesRow × List SeriesRow)
allocate_invoice_number code year prefix rows =
    let present = ensure_series code year prefix rows in
    take_number code year present (find_first (is_series code year) present)

abbrev pub is_bill_of_supply : InvoiceDocType → Bool
is_bill_of_supply tax_invoice = false
is_bill_of_supply bill_of_supply = true

abbrev pub is_unsafe : ℕ → Bool
is_unsafe paise = ltb max_safe_integer paise

-- Amounts are naturals here, so that a total is refused only above Number.MAX_SAFE_INTEGER. The same
-- test of subtotal, discount and taxable amount, which only the printed document has, is left out.
unfoldable pub has_invoice_issue : CreateInvoiceInput → Bool
has_invoice_issue input =
    input.line_count == 0
    || is_unsafe input.cgst_paise
    || is_unsafe input.sgst_paise
    || is_unsafe input.igst_paise
    || is_unsafe input.total_paise
    || (is_bill_of_supply input.doc_type
        && not (input.cgst_paise + input.sgst_paise + input.igst_paise == 0))

abbrev pub invoice_row : CreateInvoiceInput → SeriesRow → InvoiceRow
invoice_row input r = record {
  order_id = input.order_id;
  doc_type = input.doc_type;
  series_code = series_for_doc_type input.doc_type;
  financial_year = r.financial_year;
  number = r.next_number;
  prefix = r.prefix;
  cgst_paise = input.cgst_paise;
  sgst_paise = input.sgst_paise;
  igst_paise = input.igst_paise;
  total_paise = input.total_paise;
}

-- invoices_order_doc_key and invoices_series_number_key
abbrev pub clashes : InvoiceRow → InvoiceRow → Bool
clashes new old =
    (old.order_id == new.order_id && same_doc_type old.doc_type new.doc_type)
    || (same_series_code old.series_code new.series_code
        && old.financial_year == new.financial_year
        && old.number == new.number)

unfoldable pub create_invoice :
    ℕ → CreateInvoiceInput → InvoiceBook → Result (InvoiceRow × InvoiceBook)
create_invoice year input book = do
  refuse_if (has_invoice_issue input) invalid_payload
  numbered ←
      allocate_invoice_number (series_for_doc_type input.doc_type) year input.prefix book.series
  let row = invoice_row input numbered.0
  refuse_if (any (clashes row) book.invoices) unique_violation
  ok (row, record { series = numbered.1; invoices = row ∷ book.invoices })
