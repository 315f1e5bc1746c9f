-- ===== src/Identity/Window.antt =====
-- Never more than the limit in any window that ends at a call.
use ecom_platform.Base.{
  ℕ, ◌+◌, ◌≤◌, ◌<◌, ◌≡◌, ◌⊎◌, refl, ap, Bool, List, [], ◌∷◌, keep, length, sum_of, All, All-map,
  arith, leb, ltb, ◌==◌, if◌then◌else◌, sort_by, sum_of-sort_by, All-sort_by, sort_by-IsFalling,
  IsFalling, Bool-cases, inl, inr,
}
use ecom_platform.Identity.RateLimit.{
  RateLimitRule, Admission, admitted, rate_limited, window_of, higher_first, is_recent,
  without_highest, consume_rate_limit,
}

-- How many of the times are less than a window old.
abbrev pub recent_count : ℕ → ℕ → List ℕ → ℕ
recent_count window now = sum_of (λ t. if is_recent window now t then 1 else 0)

module _ (window : ℕ) where
  recent_count-keep :
      (now later : ℕ) (ts : List ℕ)
      → now ≤ later
      → recent_count window later (keep (is_recent window now) ts) ≡ recent_count window later ts
  recent_count-keep now later [] h = refl
  recent_count-keep now later (t ∷ ts) h = ground (arith, recent_count-keep now later ts h)

  recent_count-later :
      (now later : ℕ) (ts : List ℕ)
      → now ≤ later
      → recent_count window later ts ≤ recent_count window now ts
  recent_count-later now later [] h = omega arith
  recent_count-later now later (t ∷ ts) h = ground (arith, recent_count-later now later ts h)

  length-recent :
      (now : ℕ) (ts : List ℕ) → length (keep (is_recent window now) ts) ≡ recent_count window now ts
  length-recent now [] = refl
  length-recent now (t ∷ ts) = ground (arith, length-recent now ts)

All-keep : (P : ℕ → Type 0) (p : ℕ → Bool) (ts : List ℕ) → All P ts → All P (keep p ts)
All-keep P p [] h = tt
All-keep P p (t ∷ ts) h = elim (Bool-cases (p t)) [
  | inl e ↦ rw e (h.0, All-keep P p ts h.1)
  | inr e ↦ rw e (All-keep P p ts h.1)
]

abbrev IsUpTo : ℕ → ℕ → Type 0
IsUpTo now t = t ≤ now

none_at :
    (now t : ℕ) (ts : List ℕ)
    → t < now
    → All (λ x. x ≤ t) ts
    → sum_of (λ x. if x == now then 1 else 0) ts ≡ 0
none_at now t [] h up = refl
none_at now t (x ∷ ts) h up = ground (arith, up.0, none_at now t ts h up.1)

-- The highest of the scores with the present one added is the present time.
highest_is_now :
    (now : ℕ) (ts sorted : List ℕ)
    → All (IsUpTo now) sorted
    → IsFalling (λ t. t) sorted
    → ((f : ℕ → ℕ) → sum_of f sorted ≡ f now + sum_of f ts)
    → (f : ℕ → ℕ) → sum_of f (without_highest sorted) ≡ sum_of f ts
highest_is_now now ts [] up falling same f = absurd (omega (arith, same (λ t. 1)))
highest_is_now now ts (t ∷ rest) up falling same f = elim (Bool-cases (ltb t now)) [
  | inl below ↦
      let none_here = none_at now t rest (ground arith) falling.0 in
      let one = same (λ x. if x == now then 1 else 0) in absurd (ground (arith, none_here, one))
  | inr above ↦
      let at : t ≡ now = ground (arith, up.0) in
      let value : f t ≡ f now = ap f at in omega (arith, same f, value)
]

-- The times of the calls so far that were admitted, the latest first, beside the set that is kept.
pub record Log : Type 0 where
  pub scores : List ℕ
  pub admissions : List ℕ

abbrev pub record_admission : ℕ → Admission → List ℕ → List ℕ
record_admission now admitted log = now ∷ log
record_admission now (rate_limited retry_after) log = log

abbrev pub call : RateLimitRule → ℕ → Log → Log
call rule now log = record {
  scores = (consume_rate_limit rule now log.scores).1;
  admissions = record_admission now (consume_rate_limit rule now log.scores).0 log.admissions;
}

abbrev pub IsRising : ℕ → List ℕ → Type 0
IsRising start [] = Unit
IsRising start (t ∷ ts) = (start ≤ t) × IsRising t ts

-- The log after calls at the times, and the time of the last.
abbrev pub calls : RateLimitRule → List ℕ → Log → Log
calls rule [] log = log
calls rule (t ∷ ts) log = calls rule ts (call rule t log)

abbrev pub last_call : ℕ → List ℕ → ℕ
last_call start [] = start
last_call start (t ∷ ts) = last_call t ts

-- The set knows every admission that still counts, now or later, and they are within the limit.
record IsFaithful (rule : RateLimitRule) (now : ℕ) (log : Log) : Type 0 where
  known :
      (later : ℕ)
      → now ≤ later
      → recent_count (window_of rule) later log.scores
        ≡ recent_count (window_of rule) later log.admissions
  past : All (IsUpTo now) log.scores
  bounded : recent_count (window_of rule) now log.admissions ≤ rule.limit

call-IsFaithful :
    (rule : RateLimitRule) (start now : ℕ) (log : Log)
    → start ≤ now
    → IsFaithful rule start log
    → IsFaithful rule now (call rule now log)
unfolding consume_rate_limit
call-IsFaithful rule start now log h v =
    let W = window_of rule in
    let recent = keep (is_recent W now) log.scores in
    let added = sort_by higher_first (now ∷ recent) in
    let size = length-recent W now log.scores in
    let counted = v.known now h in
    let past_recent =
      All-keep (IsUpTo now) (is_recent W now) log.scores
        (All-map (λ t p. up_to t p) log.scores v.past) in
    let past_added =
      All-sort_by higher_first (IsUpTo now) (now ∷ recent) (omega arith, past_recent) in
    elim (Bool-cases (leb rule.limit (length recent))) [
      | inl full ↦ rw full (record {
        known = λ later p.
            (let kept = recent_count-keep W now later log.scores p in
              let highest =
                highest_is_now now recent added past_added (falling_added recent)
                  (λ f. sum_of-sort_by higher_first f (now ∷ recent))
                  (λ t. if is_recent W later t then 1 else 0) in
              omega (arith, kept, highest, v.known later (omega (arith, h, p))));
        past = past_tail added past_added;
        bounded = omega (arith, v.bounded, recent_count-later W start now log.admissions h);
      })
      | inr room ↦ rw room (record {
        known = λ later p.
            (let kept = recent_count-keep W now later log.scores p in
              let all_added =
                sum_of-sort_by higher_first (λ t. if is_recent W later t then 1 else 0)
                  (now ∷ recent) in
              omega (arith, kept, all_added, v.known later (omega (arith, h, p))));
        past = past_added;
        bounded = ground (arith, size, counted, room);
      })
    ]
  where
    up_to : (t : ℕ) → t ≤ start → t ≤ now
    up_to t p = omega (arith, p, h)

    past_tail : (ts : List ℕ) → All (IsUpTo now) ts → All (IsUpTo now) (without_highest ts)
    past_tail [] p = tt
    past_tail (t ∷ ts) p = p.1

    falling_added : (ts : List ℕ) → IsFalling (λ t. t) (sort_by higher_first (now ∷ ts))
    falling_added ts =
        sort_by-IsFalling higher_first (λ t. t) (λ a b e. ground arith) (λ a b e. ground arith)
          (now ∷ ts)

calls-IsFaithful :
    (rule : RateLimitRule) (start : ℕ) (times : List ℕ) (log : Log)
    → IsRising start times
    → IsFaithful rule start log
    → IsFaithful rule (last_call start times) (calls rule times log)
calls-IsFaithful rule start [] log rising v = v
calls-IsFaithful rule start (t ∷ ts) log rising v =
    calls-IsFaithful rule t ts (call rule t log) rising.1
      (call-IsFaithful rule start t log rising.0 v)

abbrev pub nothing_logged : Log
nothing_logged = record { scores = []; admissions = [] }

nothing-IsFaithful : (rule : RateLimitRule) → IsFaithful rule 0 nothing_logged
nothing-IsFaithful rule = record { known = λ later p. refl; past = tt; bounded = omega arith }

-- How a call ends, by the number of admissions in the window before it.
abbrev pub IsDecided : RateLimitRule → ℕ → Log → Type 0
IsDecided rule now log =
    ((recent_count (window_of rule) now log.admissions < rule.limit)
      × ((consume_rate_limit rule now log.scores).0 ≡ admitted))
    ⊎ ((recent_count (window_of rule) now log.admissions ≡ rule.limit)
        × ((seconds : ℕ) × ((consume_rate_limit rule now log.scores).0 ≡ rate_limited seconds)))

decided :
    (rule : RateLimitRule) (start now : ℕ) (log : Log)
    → start ≤ now
    → IsFaithful rule start log
    → IsDecided rule now log
unfolding consume_rate_limit
decided rule start now log h v =
    let W = window_of rule in
    let recent = keep (is_recent W now) log.scores in
    let size = length-recent W now log.scores in
    let counted = v.known now h in
    let bound = recent_count-later W start now log.admissions h in
    elim (Bool-cases (leb rule.limit (length recent))) [
      | inl full ↦
          let reached : rule.limit ≤ length recent = ground arith in
          inr (omega (arith, v.bounded, bound, size, counted, reached), rw full (_, refl))
      | inr room ↦
          let below : length recent < rule.limit = ground arith in
          inl (omega (arith, size, counted, below), rw room refl)
    ]

-- After any calls of consumeRateLimit on a fresh key, at times that never go back, the next call is
-- admitted exactly while fewer than the limit were admitted in the window that ends with it; otherwise
-- just the limit were, and it is refused. So no window holds more admissions than the limit, and a
-- caller who is refused does not prolong the wait by trying.
pub calls-IsDecided :
    (rule : RateLimitRule) (times : List ℕ) (now : ℕ)
    → IsRising 0 times
    → last_call 0 times ≤ now
    → IsDecided rule now (calls rule times nothing_logged)
calls-IsDecided rule times now rising h =
    decided rule (last_call 0 times) now (calls rule times nothing_logged) h
      (calls-IsFaithful rule 0 times nothing_logged rising (nothing-IsFaithful rule))
