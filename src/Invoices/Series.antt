-- ===== src/Invoices/Series.antt =====
-- The numbers that the series give out.
use ecom_platform.Base.{
  ℕ, ◌+◌, ◌≡◌, refl, sym, ap, ◌∙◌, inl, inr, true, Option, none, some, List, ◌∷◌, ==_iff, arith,
  Bool-cases, find_first, find_first-passes, find_first-update_where, find_first-update_where-none,
  update_where,
}
use ecom_platform.Invoices.{
  InvoiceSeriesCode, inv, bos, SeriesRow, same_series_code, is_series, new_series, ensure_series,
  advanced,
}

abbrev pub next_in : Option SeriesRow → ℕ
next_in none = 1
next_in (some r) = r.next_number

-- The number that the series gives out next.
abbrev pub next_of : InvoiceSeriesCode → ℕ → List SeriesRow → ℕ
next_of code year rows = next_in (find_first (is_series code year) rows)

pub same_series_code→eq : (a b : InvoiceSeriesCode) → same_series_code a b ≡ true → a ≡ b
same_series_code→eq inv inv h = refl
same_series_code→eq bos bos h = refl
same_series_code→eq inv bos h = absurd (cc)
same_series_code→eq bos inv h = absurd (cc)

pub same_series_code_refl : (a : InvoiceSeriesCode) → same_series_code a a ≡ true
same_series_code_refl inv = refl
same_series_code_refl bos = refl

-- Two tests for a series are passed by one row only where they are the same.
is_series_same :
    (c c' : InvoiceSeriesCode) (y y' : ℕ) (r : SeriesRow)
    → is_series c y r ≡ true
    → is_series c' y' r ≡ true
    → (c ≡ c') × (y ≡ y')
is_series_same c c' y y' r h h' = (
  sym (same_series_code→eq r.series_code c (ground (arith, h)))
      ∙ same_series_code→eq r.series_code c' (ground (arith, h')),
  ground (arith, h, h'),
)

-- A new series starts at 1, and no other is touched.
pub ensure_series_next :
    (c c' : InvoiceSeriesCode) (y y' prefix : ℕ) (rows : List SeriesRow)
    → next_of c' y' (ensure_series c y prefix rows) ≡ next_of c' y' rows
ensure_series_next c c' y y' prefix rows = by_row (find_first (is_series c y) rows) refl
  where
    by_row :
        (o : Option SeriesRow)
        → find_first (is_series c y) rows ≡ o
        → next_of c' y' (elim o [ none ↦ new_series c y prefix ∷ rows | some r ↦ rows ])
          ≡ next_of c' y' rows
    by_row (some r) e = refl
    by_row none e = elim (Bool-cases (is_series c' y' (new_series c y prefix))) [
      | inr other ↦ rw other refl
      | inl same ↦
          let both =
            is_series_same c c' y y' (new_series c y prefix)
              (rw (same_series_code_refl c, (==_iff y y).1 refl) refl) same in
          rw (same, sym both.0, sym both.1, e) refl
    ]

-- The series is there, with the number that it gives out.
pub ensure_series_found :
    (c : InvoiceSeriesCode) (y prefix : ℕ) (rows : List SeriesRow)
    → (r : SeriesRow) × (find_first (is_series c y) (ensure_series c y prefix rows) ≡ some r)
      × (r.next_number ≡ next_of c y rows)
ensure_series_found c y prefix rows = by_row (find_first (is_series c y) rows) refl
  where
    by_row :
        (o : Option SeriesRow)
        → find_first (is_series c y) rows ≡ o
        → (r : SeriesRow) × (find_first
              (is_series c y)
              (elim o [ none ↦ new_series c y prefix ∷ rows | some r ↦ rows ])
            ≡ some r)
          × (r.next_number ≡ next_in o)
    by_row (some r) e = (r, e, refl)
    by_row none e =
        (new_series c y prefix, rw (same_series_code_refl c, (==_iff y y).1 refl) refl, refl)

-- The number after the one that was taken, and every other series as it was.
pub advanced_next :
    (c : InvoiceSeriesCode) (y : ℕ) (rows : List SeriesRow) (r : SeriesRow)
    → find_first (is_series c y) rows ≡ some r
    → next_of c y (update_where (is_series c y) advanced rows) ≡ r.next_number + 1
advanced_next c y rows r h =
    rw
      (
        find_first-update_where (is_series c y) (is_series c y) advanced r (λ x. refl) rows h,
        find_first-passes (is_series c y) rows r h,
      )
      refl

pub others_next :
    (c c' : InvoiceSeriesCode) (y y' : ℕ) (rows : List SeriesRow)
    → ((c ≡ c') × (y ≡ y') → ⊥)
    → next_of c' y' (update_where (is_series c y) advanced rows) ≡ next_of c' y' rows
others_next c c' y y' rows apart = by_row (find_first (is_series c' y') rows) refl
  where
    by_row :
        (o : Option SeriesRow)
        → find_first (is_series c' y') rows ≡ o
        → next_of c' y' (update_where (is_series c y) advanced rows) ≡ next_in o
    by_row none e =
        ap next_in (
          find_first-update_where-none (is_series c' y') (is_series c y) advanced (λ x. refl) rows
            e)
    by_row (some x) e = elim (Bool-cases (is_series c y x)) [
      | inl on ↦
          absurd
            (apart (is_series_same c c' y y' x on (find_first-passes (is_series c' y') rows x e)))
      | inr off ↦
          rw
            (
              find_first-update_where (is_series c' y') (is_series c y) advanced x (λ z. refl) rows
                  e,
              off,
            )
            refl
    ]
