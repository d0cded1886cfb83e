-- ===== src/Product/Auth/Policies.antt =====
-- `AuthRegistry.policy` of product_service.py: it does not matter which credential it finds.
use sigil_pi.Prelude.{
  ◌≡◌, inl, inr, refl, arith, ℕ, String, Bool, true, false, Option, some, List, [], ◌∷◌, all,
  eq_iff, eq_refl, Each, Bool-cases,
}
use sigil_pi.Product.Auth.{
  Principal, Credential, includes, same_identity, same_policy, has_policy, policy,
}
use sigil_pi.Product.Auth.Registry.{In, here, there, Apart, Pairwise}

includes-cons :
    (x : String) (xs ys : List String)
    → all (includes xs) ys ≡ true
    → all (includes (x ∷ xs)) ys ≡ true
includes-cons x xs [] h = refl
includes-cons x xs (y ∷ ys) h = ground (arith, includes-cons x xs ys)

all-includes : (xs : List String) → all (includes xs) xs ≡ true
all-includes [] = refl
all-includes (x ∷ xs) = ground (arith, eq_refl x, includes-cons x xs xs (all-includes xs))

module _ (digest : String → String) (strip : String → String) (require_expiry : Bool)
    (max_lifetime_s : Option ℕ) where
  same_policy_refl : (p : Principal) → same_policy digest strip p p ≡ true
  same_policy_refl p = ground (arith, all-includes p.scopes, all-includes p.tools)

  Each-In :
      (c d : Credential) (cs : List Credential)
      → Each (Apart digest strip require_expiry max_lifetime_s c) cs
      → In d cs
      → Apart digest strip require_expiry max_lifetime_s c d
  Each-In c d [] none_more found = elim found [ ]
  Each-In c d (e ∷ cs) (one, more) here = one
  Each-In c d (e ∷ cs) (one, more) (there found) = Each-In c d cs more found

  same_identity-has_policy :
      (t p : String) (now : ℕ) (c d : Credential)
      → has_policy digest t p now c ≡ true
      → has_policy digest t p now d ≡ true
      → same_identity digest strip c.principal d.principal ≡ true
  same_identity-has_policy t p now c d h k = ground (
    arith,
    eq_iff c.principal.principal_id p,
    eq_iff d.principal.principal_id p,
    eq_iff (digest c.principal.tenant_id) t,
    eq_iff (digest d.principal.tenant_id) t,
    eq_iff c.principal.principal_id d.principal.principal_id,
    eq_iff (digest c.principal.tenant_id) (digest d.principal.tenant_id),
  )

  agree :
      (t p : String) (now : ℕ) (c d : Credential) (cs : List Credential)
      → Each (Apart digest strip require_expiry max_lifetime_s d) cs
      → In c (d ∷ cs)
      → has_policy digest t p now d ≡ true
      → has_policy digest t p now c ≡ true
      → same_policy digest strip d.principal c.principal ≡ true
  agree t p now c d cs apart here first h = same_policy_refl d.principal
  agree t p now c d cs apart (there rest) first h =
      (Each-In d c cs apart rest).1 (same_identity-has_policy t p now d c first h)

  later :
      (t p : String) (now : ℕ) (c d : Credential) (cs : List Credential)
      → In c (d ∷ cs)
      → has_policy digest t p now d ≡ false
      → has_policy digest t p now c ≡ true
      → In c cs
  later t p now c d cs here other h = cc (other, h)
  later t p now c d cs (there rest) other h = rest

  -- In a registry where credentials of one identity agree, `policy` finds a principal as soon as an
  -- active credential of the identity is there, and with the scopes and tools that each such
  -- credential has.
  pub policy_agrees :
      (t p : String) (now : ℕ) (cs : List Credential) (c : Credential)
      → Pairwise digest strip require_expiry max_lifetime_s cs
      → In c cs
      → has_policy digest t p now c ≡ true
      → (q : Principal) × (policy digest t p now cs ≡ some q)
        × (same_policy digest strip q c.principal ≡ true)
  unfolding policy
  policy_agrees t p now [] c apart found h = elim found [ ]
  policy_agrees t p now (d ∷ cs) c (apart, more) found h =
      elim (Bool-cases (has_policy digest t p now d)) [
        | inl first ↦ (d.principal, rw first, agree t p now c d cs apart found first h)
        | inr other ↦
            let (q, it, same) =
              policy_agrees t p now cs c more (later t p now c d cs found other h) h in
            (q, rw other it, same)
      ]
