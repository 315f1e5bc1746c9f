-- ===== src/Identity/RateLimit.antt =====
-- consumeRateLimit (packages/core/src/identity/rate-limit.ts) on one key. The Redis sorted set is the
-- list of its scores, in milliseconds, the highest first. The members' random suffixes only keep equal
-- scores apart, and the key's expiry after a window drops scores that no longer count.
use ecom_platform.Base.{
  ℕ, ◌+◌, ◌-◌, ◌*◌, ◌/◌, ◌%◌, max, Bool, List, [], ◌∷◌, keep, length, leb, ltb, ◌==◌, if◌then◌else◌,
  sort_by,
}

pub record RateLimitRule : Type 0 where
  pub limit : ℕ
  pub window_seconds : ℕ

pub data Admission : Type 0 where
  admitted : Admission
  rate_limited : (retry_after : ℕ) → Admission

abbrev pub window_of : RateLimitRule → ℕ
window_of rule = rule.window_seconds * 1000

abbrev pub higher_first : ℕ → ℕ → Bool
higher_first a b = leb b a

-- `zremrangebyscore(key, 0, now - window)`: a score counts while it is less than a window old.
abbrev pub is_recent : ℕ → ℕ → ℕ → Bool
is_recent window now t = ltb now (t + window)

-- `zremrangebyrank(key, -1, -1)`: the highest score goes.
abbrev pub without_highest : List ℕ → List ℕ
without_highest [] = []
without_highest (t ∷ ts) = ts

-- The lowest score, or `now` in an empty set.
abbrev pub oldest_of : ℕ → List ℕ → ℕ
oldest_of now [] = now
oldest_of now (t ∷ ts) = oldest_of t ts

-- `Math.ceil(ms / 1000)`
abbrev pub ceil_seconds : ℕ → ℕ
ceil_seconds ms = ms / 1000 + (if ms % 1000 == 0 then 0 else 1)

unfoldable pub consume_rate_limit : RateLimitRule → ℕ → List ℕ → Admission × List ℕ
consume_rate_limit rule now scores =
    let recent = keep (is_recent (window_of rule) now) scores in
    let added = sort_by higher_first (now ∷ recent) in
    if leb rule.limit (length recent)
    then (
      rate_limited
          (max 1 (ceil_seconds (oldest_of now (without_highest added) + window_of rule - now))),
      without_highest added,
    )
    else (admitted, added)
