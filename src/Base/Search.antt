-- ===== src/Base/Search.antt =====
-- The first row that meets a test: `SELECT … ORDER BY … LIMIT 1` over a list in that order, and
-- `UPDATE … WHERE`.
use mathlib.Core.Path.{◌≡◌, refl}
use mathlib.Core.Logic.{◌⊎◌, inl, inr}
use mathlib.Core.Bool.{Bool, true, false}
use mathlib.Core.Option.{Option, none, some}
use mathlib.Core.List.{List, [], ◌∷◌, map}
use ecom_platform.Base.Tests.{if◌then◌else◌, Bool-cases}
use ecom_platform.Base.Lists.{All, All-map, any}
use ecom_platform.Base.Sorting.{IsOrdered}

module _ {ℓ} {A : Type ℓ} where
  abbrev pub find_first : (A → Bool) → List A → Option A
  find_first test [] = none
  find_first test (x ∷ xs) = if test x then some x else find_first test xs

  abbrev pub update_where : (A → Bool) → (A → A) → List A → List A
  update_where test f xs = map (λ x. if test x then f x else x) xs

  pub find_first-passes :
      (test : A → Bool) (xs : List A) (x : A) → find_first test xs ≡ some x → test x ≡ true
  find_first-passes test [] x h = cc
  find_first-passes test (y ∷ ys) x h = elim (Bool-cases (test y)) [
    | inl e ↦ let same : some y ≡ some x = rw (e, find_first) at h in let q : y ≡ x = cc in cc
    | inr e ↦ find_first-passes test ys x (rw (e, find_first) at h)
  ]

  pub find_first-All {κ} :
      (P : A → Type κ) (test : A → Bool) (xs : List A) (x : A)
      → find_first test xs ≡ some x
      → All P xs
      → P x
  find_first-All P test [] x h v = absurd (cc)
  find_first-All P test (y ∷ ys) x h v = elim (Bool-cases (test y)) [
    | inl e ↦
        let same : some y ≡ some x = rw (e, find_first) at h in let q : y ≡ x = cc in rw q at v.0
    | inr e ↦ find_first-All P test ys x (rw (e, find_first) at h) v.1
  ]

  pub find_first-none :
      (test : A → Bool) (xs : List A) → find_first test xs ≡ none → All (λ x. test x ≡ false) xs
  find_first-none test [] h = tt
  find_first-none test (y ∷ ys) h = elim (Bool-cases (test y)) [
    | inl e ↦ let odd : some y ≡ none = rw (e, find_first) at h in absurd (cc)
    | inr e ↦ (e, find_first-none test ys (rw (e, find_first) at h))
  ]

  -- Of rows that are apart, each is the one found or apart from it.
  pub find_first-apart :
      (R : A → A → Type 0) (test : A → Bool) (xs : List A) (x : A)
      → ((a b : A) → R a b → R b a)
      → IsOrdered R xs
      → find_first test xs ≡ some x
      → All (λ y. (y ≡ x) ⊎ R x y) xs
  find_first-apart R test [] x symmetric v h = tt
  find_first-apart R test (y ∷ ys) x symmetric v h = elim (Bool-cases (test y)) [
    | inl e ↦
        let same : some y ≡ some x = rw (e, find_first) at h in
        let q : y ≡ x = cc in (inl q, All-map (λ z r. inr (rw q at r)) ys v.0)
    | inr e ↦
        let later = rw (e, find_first) at h in
        (
          inr (symmetric y x (find_first-All (R y) test ys x later v.0)),
          find_first-apart R test ys x symmetric v.1 later,
        )
  ]

  pub All-update_where {κ μ} :
      {P : A → Type κ} {Q : A → Type μ} (test : A → Bool) (f : A → A)
      → ((a : A) → test a ≡ true → P a → Q (f a))
      → ((a : A) → test a ≡ false → P a → Q a)
      → (xs : List A) → All P xs
      → All Q (update_where test f xs)
  All-update_where test f hit miss [] v = tt
  All-update_where {Q = Q} test f hit miss (x ∷ xs) v = (
    elim (Bool-cases (test x)) [ inl e ↦ rw e (hit x e v.0) | inr e ↦ rw e (miss x e v.0) ],
    All-update_where test f hit miss xs v.1,
  )

  pub any-false :
      (test : A → Bool) (xs : List A) → All (λ x. test x ≡ false) xs → any test xs ≡ false
  any-false test [] v = refl
  any-false test (x ∷ xs) v = rw (v.0, any-false test xs v.1) refl

  pub any-false-All :
      (test : A → Bool) (xs : List A) → any test xs ≡ false → All (λ x. test x ≡ false) xs
  any-false-All test [] h = tt
  any-false-All test (x ∷ xs) h = elim (Bool-cases (test x)) [
    | inl e ↦ let odd : true ≡ false = rw (e, any) at h in absurd (cc)
    | inr e ↦ (e, any-false-All test xs (rw (e, any) at h))
  ]

  pub All-both {κ μ} :
      (P : A → Type κ) (Q : A → Type μ) (xs : List A)
      → All P xs
      → All Q xs
      → All (λ x. P x × Q x) xs
  All-both P Q [] p q = tt
  All-both P Q (x ∷ xs) p q = ((p.0, q.0), All-both P Q xs p.1 q.1)

  pub IsOrdered-map :
      (R : A → A → Type 0) (f : A → A)
      → ((a b : A) → R a b → R (f a) (f b))
      → (xs : List A) → IsOrdered R xs
      → IsOrdered R (map f xs)
  IsOrdered-map R f kept [] v = tt
  IsOrdered-map R f kept (x ∷ xs) v = (after_map xs v.0, IsOrdered-map R f kept xs v.1)
    where
      after_map : (ys : List A) → All (R x) ys → All (R (f x)) (map f ys)
      after_map [] w = tt
      after_map (y ∷ ys) w = (kept x y w.0, after_map ys w.1)

  -- The row that is found is found again after an UPDATE that the test does not see.
  pub find_first-update_where :
      (test hit : A → Bool) (f : A → A) (x : A)
      → ((a : A) → test (f a) ≡ test a)
      → (xs : List A) → find_first test xs ≡ some x
      → find_first test (update_where hit f xs) ≡ some (if hit x then f x else x)
  find_first-update_where test hit f x unseen [] h = absurd (cc)
  find_first-update_where test hit f x unseen (y ∷ ys) h =
      rw (same_test y) (by_test (test y) (λ k. find_first-update_where test hit f x unseen ys k) h)
    where
      same_test : (a : A) → test (if hit a then f a else a) ≡ test a
      same_test a = elim (Bool-cases (hit a)) [ inl e ↦ rw e (unseen a) | inr e ↦ rw e refl ]

      by_test :
          (b : Bool)
          → (find_first test ys ≡ some x
              → find_first test (update_where hit f ys) ≡ some (if hit x then f x else x))
          → (if b then some y else find_first test ys) ≡ some x
          → (if b then some (if hit y then f y else y) else find_first test (update_where hit f ys))
            ≡ some (if hit x then f x else x)
      by_test true later k = let q : y ≡ x = cc in rw q refl
      by_test false later k = later k

  -- Where none is found, none is found after it.
  pub find_first-update_where-none :
      (test hit : A → Bool) (f : A → A)
      → ((a : A) → test (f a) ≡ test a)
      → (xs : List A) → find_first test xs ≡ none
      → find_first test (update_where hit f xs) ≡ none
  find_first-update_where-none test hit f unseen [] h = refl
  find_first-update_where-none test hit f unseen (y ∷ ys) h = elim (Bool-cases (test y)) [
    | inl e ↦ let odd : some y ≡ none = rw (e, find_first) at h in absurd (cc)
    | inr e ↦
        let rest = find_first-update_where-none test hit f unseen ys (rw (e, find_first) at h) in
        elim (Bool-cases (hit y)) [
          | inl on ↦ rw (on, unseen y, e) rest
          | inr off ↦ rw (off, e) rest
        ]
  ]

module _ {ℓ κ} {A : Type ℓ} {B : Type κ} {a a' : A} {b b' : B} where
  pub some_first : ◌≡◌ {A = Option (A × B)} (some (a, b)) (some (a', b')) → a ≡ a'
  some_first h = cc

  pub some_second : ◌≡◌ {A = Option (A × B)} (some (a, b)) (some (a', b')) → b ≡ b'
  some_second h = cc
