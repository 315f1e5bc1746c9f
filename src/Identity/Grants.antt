-- ===== src/Identity/Grants.antt =====
-- Who may do what, said without the sets of packages/core/src/identity/permissions.ts.
use ecom_platform.Base.{
  ◌≡◌, ◌≢◌, ◌⊎◌, inl, inr, refl, sym, ap, Bool, true, not, none, some, List, [], ◌∷◌, arith,
  if◌then◌else◌, ok, err, forbidden, Bool-cases, Reflects, Reflects-false, not-Reflects, Somewhere,
  any-Reflects,
}
use ecom_platform.Identity.Permissions.{
  Permission, catalog_read, catalog_write, inventory_read, inventory_write, orders_read,
  orders_write, orders_cancel, pos_operate, customers_read, customers_write, analytics_read,
  settings_read, payments_configure, payments_write, billing_manage, Role, owner, manager,
  catalog_manager, order_processor, cashier, same_permission, has, role_permissions,
  all_permissions, Override, effective_permissions, assert_can,
}
use ecom_platform.Identity.Verdict.{verdict, effective_permissions-verdict}

abbrev IsOneOf : List Permission → Permission → Type 0
IsOneOf ps p = Somewhere (λ q. q ≡ p) ps

-- What a role may do where no override says otherwise.
abbrev pub MayByDefault : Role → Permission → Type 0
MayByDefault owner p = Unit
MayByDefault manager p = ¬ IsOneOf (payments_configure ∷ payments_write ∷ billing_manage ∷ []) p
MayByDefault catalog_manager p =
    IsOneOf
      (catalog_read ∷ catalog_write ∷ inventory_read ∷ inventory_write ∷ analytics_read
        ∷ settings_read ∷ [])
      p
MayByDefault order_processor p =
    IsOneOf
      (orders_read ∷ orders_write ∷ orders_cancel ∷ catalog_read ∷ inventory_read ∷ customers_read
        ∷ settings_read ∷ [])
      p
MayByDefault cashier p =
    IsOneOf
      (pos_operate ∷ orders_read ∷ orders_write ∷ catalog_read ∷ inventory_read ∷ customers_read
        ∷ customers_write ∷ [])
      p

abbrev pub IsNamed : Permission → List Override → Type 0
IsNamed p = Somewhere (λ o. o.0 ≡ some p)

-- The last override that names the permission has this value.
abbrev pub IsLastWord : Permission → List Override → Bool → Type 0
IsLastWord p [] b = ⊥
IsLastWord p (o ∷ os) b = IsLastWord p os b ⊎ (¬ IsNamed p os × (o.0 ≡ some p) × (o.1 ≡ b))

abbrev pub May : Role → List Override → Permission → Type 0
May role os p = IsLastWord p os true ⊎ (¬ IsNamed p os × MayByDefault role p)

same_permission-Reflects : (p q : Permission) → Reflects (p ≡ q) (same_permission p q)
same_permission-Reflects p q = (λ h. coded p q h, λ h. rw h (ground arith))
  where
    coded : (x y : Permission) → same_permission x y ≡ true → x ≡ y
    coded catalog_read y h = ground (arith, h)
    coded _ y h = ground (arith, h)

has-Reflects : (ps : List Permission) (p : Permission) → Reflects (IsOneOf ps p) (has ps p)
has-Reflects ps p =
    any-Reflects (λ q. q ≡ p) (λ q. same_permission q p) (λ q. same_permission-Reflects q p) ps

owner_has : (p : Permission) → has all_permissions p ≡ true
owner_has catalog_read = refl
owner_has _ = refl

manager_has :
    (p : Permission)
    → has (role_permissions manager) p
      ≡ not (has (payments_configure ∷ payments_write ∷ billing_manage ∷ []) p)
unfolding role_permissions
manager_has catalog_read = refl
manager_has _ = refl

default-Reflects :
    (role : Role) (p : Permission) → Reflects (MayByDefault role p) (has (role_permissions role) p)
unfolding role_permissions
default-Reflects owner p = (λ h. tt, λ h. owner_has p)
default-Reflects manager p =
    let ps = payments_configure ∷ payments_write ∷ billing_manage ∷ [] in
    rw (sym (manager_has p)) at (not-Reflects (IsOneOf ps p) (has ps p) (has-Reflects ps p))
default-Reflects catalog_manager p = has-Reflects (role_permissions catalog_manager) p
default-Reflects order_processor p = has-Reflects (role_permissions order_processor) p
default-Reflects cashier p = has-Reflects (role_permissions cashier) p

module _ (p : Permission) where
  abbrev IsSaid : Override → Type 0 → Type 0
  IsSaid o D = ((o.0 ≡ some p) × (o.1 ≡ true)) ⊎ ((o.0 ≢ some p) × D)

  one-Reflects :
      (D : Type 0) (b : Bool) (o : Override)
      → Reflects D b
      → Reflects
          (IsSaid o D)
          (elim o.0 [ none ↦ b | some q ↦ if same_permission q p then o.1 else b ])
  one-Reflects D b (none, g) r = (λ h. inr (λ e. cc, r.0 h), λ h. by_default h)
    where
      by_default : IsSaid (none, g) D → b ≡ true
      by_default (inl (e, _)) = absurd (cc)
      by_default (inr (_, d)) = r.1 d
  one-Reflects D b (some q, g) r = elim (Bool-cases (same_permission q p)) [
    | inl e ↦
        let same : some q ≡ some p = ap (λ x. some x) ((same_permission-Reflects q p).0 e) in
        rw e (λ h. inl (same, h), λ h. of_own same h)
    | inr e ↦
        let other = Reflects-false _ _ (same_permission-Reflects q p) e in
        rw e (λ h. inr (λ s. other (cc), r.0 h), λ h. of_other other h)
  ]
    where
      of_own : some q ≡ some p → IsSaid (some q, g) D → g ≡ true
      of_own s (inl (_, h)) = h
      of_own s (inr (n, _)) = absurd (n s)

      of_other : (q ≡ p → ⊥) → IsSaid (some q, g) D → b ≡ true
      of_other n (inl (s, _)) = absurd (n (cc))
      of_other n (inr (_, d)) = r.1 d

  verdict-Reflects :
      (os : List Override) (D : Type 0) (b : Bool)
      → Reflects D b
      → Reflects (IsLastWord p os true ⊎ (¬ IsNamed p os × D)) (verdict os p b)
  verdict-Reflects [] D b r = (λ h. inr (λ m. m, r.0 h), λ h. by_default h)
    where
      by_default : ⊥ ⊎ (¬ ⊥ × D) → b ≡ true
      by_default (inl x) = absurd x
      by_default (inr (_, d)) = r.1 d
  verdict-Reflects (o ∷ os) D b r =
      let later = verdict-Reflects os (IsSaid o D) _ (one-Reflects D b o r) in
      (λ h. outward (later.0 h), λ h. later.1 (inward h))
    where
      outward :
          IsLastWord p os true ⊎ (¬ IsNamed p os × IsSaid o D)
          → IsLastWord p (o ∷ os) true ⊎ (¬ IsNamed p (o ∷ os) × D)
      outward (inl w) = inl (inl w)
      outward (inr (n, inl (e, g))) = inl (inr (n, e, g))
      outward (inr (n, inr (e, d))) = inr (λ m. unnamed m, d)
        where
          unnamed : IsNamed p (o ∷ os) → ⊥
          unnamed (inl x) = e x
          unnamed (inr x) = n x

      inward :
          IsLastWord p (o ∷ os) true ⊎ (¬ IsNamed p (o ∷ os) × D)
          → IsLastWord p os true ⊎ (¬ IsNamed p os × IsSaid o D)
      inward (inl (inl w)) = inl w
      inward (inl (inr (n, e, g))) = inr (n, inl (e, g))
      inward (inr (n, d)) = inr (λ m. n (inr m), inr (λ e. n (inl e), d))

-- assertCan lets a member through exactly where the last override that names the permission grants it
-- or, where none names it, the role has it by default; otherwise it throws `forbidden`. By default an
-- owner may do everything, a manager everything but configure and write payments and manage billing,
-- and the other three roles what is listed for each. Overrides under unknown names count for nothing.
pub effective_permissions-May :
    (role : Role) (overrides : List Override) (p : Permission)
    → (May role overrides p × (assert_can (effective_permissions role overrides) p ≡ ok tt))
      ⊎ (¬ May role overrides p
          × (assert_can (effective_permissions role overrides) p ≡ err forbidden))
effective_permissions-May role overrides p =
    let r =
      verdict-Reflects p overrides (MayByDefault role p) (has (role_permissions role) p)
        (default-Reflects role p) in
    elim (effective_permissions-verdict role overrides p) [
      | inl (granted, e) ↦ inl (r.0 granted, e)
      | inr (missing, e) ↦ inr (Reflects-false _ _ r missing, e)
    ]
