-- ===== src/Invoices/Tests.antt =====
-- A book with one invoice, and the next.
use ecom_platform.Base.{ℕ, ◌≡◌, refl, [], ok, arith}
use ecom_platform.Tax.{tax_invoice}
use ecom_platform.Invoices.{
  InvoiceRow, InvoiceBook, CreateInvoiceInput, inv, create_invoice, has_invoice_issue,
}
use ecom_platform.Invoices.Numbering.{IsGapless, create_invoice-IsGapless}
use ecom_platform.Invoices.Series.{next_of}

abbrev blank : InvoiceBook
blank = record { series = []; invoices = [] }

abbrev input_for : ℕ → CreateInvoiceInput
input_for order = record {
  order_id = order;
  doc_type = tax_invoice;
  prefix = 3;
  line_count = 1;
  cgst_paise = 9;
  sgst_paise = 9;
  igst_paise = 0;
  total_paise = 118;
}

-- The first invoice of a year is number 1.
create_invoice-IsGapless_example :
    (row : InvoiceRow) × (book' : InvoiceBook) × (create_invoice 2026 (input_for 5) blank
      ≡ ok (row, book'))
    × (row.number ≡ next_of inv 2026 [])
    × IsGapless book'
unfolding has_invoice_issue
create_invoice-IsGapless_example =
    create_invoice-IsGapless 2026 (input_for 5) blank (λ code year. (omega arith, refl)) refl refl
