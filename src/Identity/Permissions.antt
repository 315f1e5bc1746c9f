-- ===== src/Identity/Permissions.antt =====
-- Roles and permissions (packages/core/src/identity/permissions.ts). A set is the list of its members.
use ecom_platform.Base.{
  ℕ, Bool, true, false, not, Option, none, some, List, [], ◌∷◌, any, keep, ◌==◌, if◌then◌else◌,
  Result, refuse_if, forbidden,
}

pub data Permission : Type 0 where
  catalog_read catalog_write inventory_read inventory_write orders_read orders_write orders_cancel
        orders_refund pos_operate customers_read customers_write marketing_read marketing_write
        promotions_read promotions_write analytics_read settings_read settings_write staff_read
        staff_write payments_configure payments_write domains_manage billing_manage :
      Permission

pub data Role : Type 0 where
  owner manager catalog_manager order_processor cashier : Role

-- The place in the list PERMISSIONS.
abbrev pub permission_code : Permission → ℕ
permission_code catalog_read = 0
permission_code catalog_write = 1
permission_code inventory_read = 2
permission_code inventory_write = 3
permission_code orders_read = 4
permission_code orders_write = 5
permission_code orders_cancel = 6
permission_code orders_refund = 7
permission_code pos_operate = 8
permission_code customers_read = 9
permission_code customers_write = 10
permission_code marketing_read = 11
permission_code marketing_write = 12
permission_code promotions_read = 13
permission_code promotions_write = 14
permission_code analytics_read = 15
permission_code settings_read = 16
permission_code settings_write = 17
permission_code staff_read = 18
permission_code staff_write = 19
permission_code payments_configure = 20
permission_code payments_write = 21
permission_code domains_manage = 22
permission_code billing_manage = 23

abbrev pub same_permission : Permission → Permission → Bool
same_permission a b = permission_code a == permission_code b

abbrev pub all_permissions : List Permission
all_permissions =
    catalog_read ∷ catalog_write ∷ inventory_read ∷ inventory_write ∷ orders_read ∷ orders_write
    ∷ orders_cancel ∷ orders_refund ∷ pos_operate ∷ customers_read ∷ customers_write
    ∷ marketing_read ∷ marketing_write ∷ promotions_read ∷ promotions_write ∷ analytics_read
    ∷ settings_read ∷ settings_write ∷ staff_read ∷ staff_write ∷ payments_configure
    ∷ payments_write ∷ domains_manage ∷ billing_manage ∷ []

abbrev pub not_for_managers : List Permission
not_for_managers = billing_manage ∷ payments_configure ∷ payments_write ∷ []

abbrev pub has : List Permission → Permission → Bool
has set p = any (λ q. same_permission q p) set

unfoldable pub role_permissions : Role → List Permission
role_permissions owner = all_permissions
role_permissions manager = keep (λ p. not (has not_for_managers p)) all_permissions
role_permissions catalog_manager =
    catalog_read ∷ catalog_write ∷ inventory_read ∷ inventory_write ∷ analytics_read ∷ settings_read
    ∷ []
role_permissions order_processor =
    orders_read ∷ orders_write ∷ orders_cancel ∷ catalog_read ∷ inventory_read ∷ customers_read
    ∷ settings_read ∷ []
role_permissions cashier =
    pos_operate ∷ orders_read ∷ orders_write ∷ catalog_read ∷ inventory_read ∷ customers_read
    ∷ customers_write ∷ []

-- `none` is a key that is no permission.
abbrev pub Override : Type 0
Override = Option Permission × Bool

abbrev pub add_member : Permission → List Permission → List Permission
add_member p set = if has set p then set else p ∷ set

abbrev pub delete_member : Permission → List Permission → List Permission
delete_member p set = keep (λ q. not (same_permission q p)) set

abbrev pub override_set : Option Permission → Bool → List Permission → List Permission
override_set none granted set = set
override_set (some p) true set = add_member p set
override_set (some p) false set = delete_member p set

-- The loop over the overrides.
unfoldable pub apply_overrides : List Override → List Permission → List Permission
apply_overrides [] set = set
apply_overrides (o ∷ os) set = apply_overrides os (override_set o.0 o.1 set)

unfoldable pub effective_permissions : Role → List Override → List Permission
effective_permissions role overrides = apply_overrides overrides (role_permissions role)

unfoldable pub assert_can : List Permission → Permission → Result (Unit {0})
assert_can set p = refuse_if (not (has set p)) forbidden
