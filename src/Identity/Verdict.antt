-- ===== src/Identity/Verdict.antt =====
-- The set of a member's permissions in the end, in the terms of its definition.
use ecom_platform.Base.{
  ℕ, ◌≡◌, ◌⊎◌, refl, ap, ◌∙◌, Bool, true, false, not, none, some, List, [], ◌∷◌, any, keep, arith,
  ◌==◌, if◌then◌else◌, ok, err, forbidden, Bool-cases, inl, inr,
}
use ecom_platform.Identity.Permissions.{
  Permission, Role, permission_code, same_permission, has, role_permissions, Override, add_member,
  delete_member, apply_overrides, effective_permissions, assert_can,
}

-- What the overrides say of a permission, the last one counting.
abbrev pub verdict : List Override → Permission → Bool → Bool
verdict [] p default = default
verdict (o ∷ os) p default =
    verdict os p
      (elim o.0 [ none ↦ default | some q ↦ if same_permission q p then o.1 else default ])

-- Sets of elements that are told apart by a number.
module _ {A : Type 0} (code : A → ℕ) where
  abbrev member : List A → A → Bool
  member set p = any (λ q. code q == code p) set

  if_member : (q p : A) (set : List A) → member set q ≡ true → code q ≡ code p → member set p ≡ true
  if_member q p set h e = rw e at h

  member-add :
      (q p : A) (set : List A)
      → member (if member set q then set else q ∷ set) p
        ≡ (if code q == code p then true else member set p)
  member-add q p set = elim (Bool-cases (member set q)) [
    | inl there ↦ elim (Bool-cases (code q == code p)) [
      | inl hit ↦ rw (there, hit) (if_member q p set there (ground arith))
      | inr miss ↦ rw (there, miss) refl
    ]
    | inr new ↦ elim (Bool-cases (code q == code p)) [
      | inl hit ↦ rw (new, hit) refl
      | inr miss ↦ rw (new, miss) refl
    ]
  ]

  member-delete :
      (q p : A) (set : List A)
      → member (keep (λ x. not (code x == code q)) set) p
        ≡ (if code q == code p then false else member set p)
  member-delete q p [] = ground arith
  member-delete q p (x ∷ set) = ground (arith, member-delete q p set)

-- After the loop a permission is held as the last override that names it says, and otherwise as before.
held_after :
    (os : List Override) (set : List Permission) (p : Permission)
    → has (apply_overrides os set) p ≡ verdict os p (has set p)
unfolding apply_overrides
held_after [] set p = refl
held_after ((none, granted) ∷ os) set p = held_after os set p
held_after ((some q, true) ∷ os) set p =
    held_after os (add_member q set) p ∙ ap (verdict os p) (member-add permission_code q p set)
held_after ((some q, false) ∷ os) set p =
    held_after os (delete_member q set) p
    ∙ ap (verdict os p) (member-delete permission_code q p set)

pub effective_permissions-verdict :
    (role : Role) (overrides : List Override) (p : Permission)
    → ((verdict overrides p (has (role_permissions role) p) ≡ true)
        × (assert_can (effective_permissions role overrides) p ≡ ok tt))
      ⊎ ((verdict overrides p (has (role_permissions role) p) ≡ false)
          × (assert_can (effective_permissions role overrides) p ≡ err forbidden))
unfolding effective_permissions assert_can
effective_permissions-verdict role overrides p =
    let held = held_after overrides (role_permissions role) p in
    elim (Bool-cases (verdict overrides p (has (role_permissions role) p))) [
      | inl granted ↦ inl (granted, rw (held ∙ granted) refl)
      | inr missing ↦ inr (missing, rw (held ∙ missing) refl)
    ]
