-- ===== src/Identity/Tests.antt =====
-- Two sign-in codes a minute, a cashier with overrides, and the theorems there.
use ecom_platform.Base.{
  ◌≡◌, ◌⊎◌, refl, true, false, none, some, List, ok, err, forbidden, [], ◌∷◌, arith, sort_by,
}
use ecom_platform.Identity.RateLimit.{RateLimitRule, rate_limited, consume_rate_limit}
use ecom_platform.Identity.Window.{IsDecided, calls, nothing_logged, calls-IsDecided}
use ecom_platform.Identity.Permissions.{
  Override, apply_overrides, cashier, manager, domains_manage, orders_refund, orders_write,
  role_permissions, effective_permissions, assert_can,
}
use ecom_platform.Identity.Grants.{May, effective_permissions-May}

abbrev twice_a_minute : RateLimitRule
twice_a_minute = record { limit = 2; window_seconds = 60 }

-- The third call in a minute is refused until the first is a minute old.
third_call :
    (consume_rate_limit twice_a_minute 31000
      (calls twice_a_minute (1000 ∷ 30000 ∷ []) nothing_logged).scores).0
    ≡ rate_limited 30
unfolding consume_rate_limit sort_by
third_call = refl

calls-IsDecided_example :
    IsDecided twice_a_minute 61000 (calls twice_a_minute (1000 ∷ 30000 ∷ 31000 ∷ []) nothing_logged)
calls-IsDecided_example =
    calls-IsDecided twice_a_minute (1000 ∷ 30000 ∷ 31000 ∷ []) 61000
      (omega arith, (omega arith, (omega arith, tt))) (omega arith)

-- A manager may manage domains.
manager_domains : assert_can (effective_permissions manager []) domains_manage ≡ ok tt
unfolding effective_permissions apply_overrides assert_can role_permissions
manager_domains = refl

-- May refund, which a cashier may not by default, and no longer change orders.
abbrev trusted : List Override
trusted = (some orders_refund, true) ∷ (none, true) ∷ (some orders_write, false) ∷ []

effective_permissions-May_example :
    (May cashier trusted orders_refund
      × (assert_can (effective_permissions cashier trusted) orders_refund ≡ ok tt))
    ⊎ (¬ May cashier trusted orders_refund
        × (assert_can (effective_permissions cashier trusted) orders_refund ≡ err forbidden))
effective_permissions-May_example = effective_permissions-May cashier trusted orders_refund
