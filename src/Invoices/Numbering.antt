-- ===== src/Invoices/Numbering.antt =====
-- Invoice numbers run without gaps from 1, in each series and financial year.
use ecom_platform.Base.{
  ℕ, zero, suc, ◌+◌, ◌≤◌, ◌<◌, ◌≡◌, refl, sym, ap, ◌∙◌, inl, inr, Bool, true, false, ◌&&◌, some,
  List, [], ◌∷◌, any, any-false, any-false-All, keep, map, ◌==◌, ==_iff, arith, Bool-cases, ok, All,
  All-map, All-both, find_first, find_first-passes, update_where,
}
use ecom_platform.Invoices.{
  InvoiceSeriesCode, SeriesRow, InvoiceRow, InvoiceBook, CreateInvoiceInput, same_series_code,
  same_doc_type, series_for_doc_type, is_series, ensure_series, advanced, allocate_invoice_number,
  has_invoice_issue, invoice_row, clashes, create_invoice,
}
use ecom_platform.Invoices.Series.{
  next_of, same_series_code→eq, same_series_code_refl, ensure_series_next, ensure_series_found,
  advanced_next, others_next,
}

-- All the numbers before one, the latest first, down to 1.
abbrev pub before : ℕ → List ℕ
before zero = []
before (suc zero) = []
before (suc (suc n)) = suc n ∷ before (suc n)

abbrev pub in_series : InvoiceSeriesCode → ℕ → InvoiceRow → Bool
in_series code year r = same_series_code r.series_code code && r.financial_year == year

abbrev pub numbers_of : InvoiceSeriesCode → ℕ → List InvoiceRow → List ℕ
numbers_of code year rows = map (λ r. r.number) (keep (in_series code year) rows)

abbrev pub IsGapless : InvoiceBook → Type 0
IsGapless book =
    (code : InvoiceSeriesCode) (year : ℕ)
    → (1 ≤ next_of code year book.series)
      × (numbers_of code year book.invoices ≡ before (next_of code year book.series))

before_bound : (n : ℕ) → All (λ k. k < n) (before n)
before_bound zero = tt
before_bound (suc zero) = tt
before_bound (suc (suc n)) =
    (omega arith, All-map (λ k h. omega (arith, h)) (before (suc n)) (before_bound (suc n)))

before_step : (n : ℕ) → 1 ≤ n → before (n + 1) ≡ n ∷ before n
before_step zero h = absurd (omega arith)
before_step (suc n) h = let q : suc n + 1 ≡ suc (suc n) = omega arith in rw q refl

All-keep {ℓ} :
    {A : Type ℓ} (P : ℕ → Type 0) (f : A → ℕ) (test : A → Bool) (xs : List A)
    → All P (map f (keep test xs))
    → All (λ x. test x ≡ true → P (f x)) xs
All-keep P f test [] v = tt
All-keep P f test (x ∷ xs) v = elim (Bool-cases (test x)) [
  | inl e ↦ let w = rw (e, keep) at v in (λ _. w.0, All-keep P f test xs w.1)
  | inr e ↦ (λ bad. absurd (ground (arith, e, bad)), All-keep P f test xs (rw (e, keep) at v))
]

-- The order has its document already.
abbrev pub is_issued : CreateInvoiceInput → InvoiceRow → Bool
is_issued input r = r.order_id == input.order_id && same_doc_type r.doc_type input.doc_type

module _ (year : ℕ) (input : CreateInvoiceInput) (book : InvoiceBook) (v : IsGapless book)
    (code : InvoiceSeriesCode) (is_code : series_for_doc_type input.doc_type ≡ code)
    (present : List SeriesRow)
    (is_present : ensure_series code year input.prefix book.series ≡ present) (r : SeriesRow)
    (found : find_first (is_series code year) present ≡ some r)
    (next : r.next_number ≡ next_of code year book.series) where
  in_year : r.financial_year ≡ year
  in_year = ground (arith, find_first-passes (is_series code year) present r found)

  -- No number is given twice.
  no_clash :
      any (is_issued input) book.invoices ≡ false
      → any (clashes (invoice_row input r)) book.invoices ≡ false
  no_clash fresh = any-false _ book.invoices (
      All-map (λ x w. clear x w.0 w.1) book.invoices
        (All-both _ _ book.invoices (any-false-All _ book.invoices fresh) below))
    where
      below : All (λ x. in_series code year x ≡ true → x.number < r.next_number) book.invoices
      below =
          All-keep (λ k. k < r.next_number) (λ x. x.number) (in_series code year) book.invoices
            (rw ((v code year).1, next) (before_bound (next_of code year book.series)))

      clear :
          (x : InvoiceRow)
          → is_issued input x ≡ false
          → (in_series code year x ≡ true → x.number < r.next_number)
          → clashes (invoice_row input r) x ≡ false
      clear x other low = elim (Bool-cases (in_series code year x)) [
        | inl on ↦ let small = low on in rw (is_code, in_year, other) (ground (arith, on, small))
        | inr off ↦ rw (is_code, in_year, other) (ground (arith, off))
      ]

  advanced-IsGapless : IsGapless (record {
    series = update_where (is_series code year) advanced present;
    invoices = invoice_row input r ∷ book.invoices;
  })
  advanced-IsGapless c y = elim (Bool-cases (in_series c y (invoice_row input r))) [
    | inl on ↦
        let same_code : code ≡ c =
          same_series_code→eq code c (ground (arith, rw (is_code, in_year) at on)) in
        let same_year : year ≡ y = ground (arith, rw (is_code, in_year) at on) in
        let given : next_of c y (update_where (is_series code year) advanced present)
            ≡ r.next_number + 1 =
          rw (sym same_code, sym same_year) (advanced_next code year present r found) in
        let old : numbers_of c y book.invoices ≡ before r.next_number =
          rw (sym same_code, sym same_year, next) (v code year).1 in
        let start : 1 ≤ r.next_number = omega (arith, (v code year).0, next) in
        let listed : numbers_of c y (invoice_row input r ∷ book.invoices)
            ≡ r.next_number ∷ numbers_of c y book.invoices =
          rw on refl in
        (
          omega (arith, given, start),
          listed
              ∙ ap (◌∷◌ r.next_number) old
              ∙ sym (before_step r.next_number start)
              ∙ ap before (sym given),
        )
    | inr off ↦
        let apart : (code ≡ c) × (year ≡ y) → ⊥ = λ q. clash c y off q.0 q.1 in
        let kept : next_of c y (update_where (is_series code year) advanced present)
            ≡ next_of c y book.series =
          others_next code c year y present apart
          ∙ ap (next_of c y) (sym is_present)
          ∙ ensure_series_next code c year y input.prefix book.series in
        let listed : numbers_of c y (invoice_row input r ∷ book.invoices)
            ≡ numbers_of c y book.invoices =
          rw off refl in
        (omega (arith, kept, (v c y).0), listed ∙ (v c y).1 ∙ ap before (sym kept))
  ]
    where
      clash :
          (c : InvoiceSeriesCode) (y : ℕ)
          → in_series c y (invoice_row input r) ≡ false
          → code ≡ c
          → year ≡ y
          → ⊥
      clash c y off same_code same_year =
          let on : in_series c y (invoice_row input r) ≡ true =
            rw
              (is_code, in_year, same_code, same_year, same_series_code_refl c, (==_iff y y).1 refl)
              refl in
          ground (arith, on, off)

-- createInvoice, in a book whose numbers run without gaps, for an order that has no such document yet
-- and whose totals pass the checks: it returns, so that the unique index on the numbers never refuses
-- it; the invoice gets the series' next number, and the numbers of every series and financial year run
-- again from 1 to the latest without a gap or a repetition.
pub create_invoice-IsGapless :
    (year : ℕ) (input : CreateInvoiceInput) (book : InvoiceBook)
    → IsGapless book
    → has_invoice_issue input ≡ false
    → any (is_issued input) book.invoices ≡ false
    → (row : InvoiceRow) × (book' : InvoiceBook) × (create_invoice year input book
        ≡ ok (row, book'))
      × (row.number ≡ next_of (series_for_doc_type input.doc_type) year book.series)
      × IsGapless book'
unfolding create_invoice allocate_invoice_number
create_invoice-IsGapless year input book v sound fresh =
    let code = series_for_doc_type input.doc_type in
    let present = ensure_series code year input.prefix book.series in
    let (r, found, next) = ensure_series_found code year input.prefix book.series in
    let clear = no_clash year input book v code refl present refl r found next fresh in
    (
      invoice_row input r,
      record {
        series = update_where (is_series code year) advanced present;
        invoices = invoice_row input r ∷ book.invoices;
      },
      rw (sound, found, clear) refl,
      next,
      advanced-IsGapless year input book v code refl present refl r found next,
    )
