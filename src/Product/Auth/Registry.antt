-- ===== src/Product/Auth/Registry.antt =====
-- What a registry that was accepted satisfies, and what its answers mean.
use sigil_pi.Prelude.{
  after_prefix, ℕ, ◌≤◌, ◌<◌, ◌≡◌, ◌⊎◌, inl, inr, refl, ap, subst, ◌≢◌, ◌∙◌, arith, ◌&&◌, ◌||◌,
  String, Bool, true, false, Option, none, some, List, [], ◌∷◌, ◌++◌, any, all, str_eq, eq_iff, ltb,
  Each, Each-append, Bool-cases, Option-cases,
}
use sigil_pi.Agent.Json.{Json, pos, negsuc, lookup, object}
use sigil_pi.Product.Errors.{ok}
use sigil_pi.Product.Auth.{
  Principal, Credential, ConfigError, Checked, passed, failed, bad_principal, bad_tenant, ◌>>=◌,
  known_scope, validity_of, window_of, within, same_identity, same_policy, conflicts, sha_of,
  name_of, scopes_of, allowed_of, unless_conflict, credential_of, entries_from, active_at,
  registered, auth_registry, last_match, authenticate,
}

pub data In (c : Credential) : List Credential → Type 0 where
  here : {cs : List Credential} → In c (c ∷ cs)
  there : {d : Credential} {cs : List Credential} → In c cs → In c (d ∷ cs)

-- The answer of the loop is the principal of an active credential with the token's digest, or the
-- one it began with.
last_match-In :
    (candidate : String) (now : ℕ) (cs : List Credential) (m : Option Principal) (p : Principal)
    → last_match candidate now cs m ≡ some p
    → (m ≡ some p)
      ⊎ ((c : Credential) × In c cs
          × (c.digest ≡ candidate)
          × (active_at now c ≡ true)
          × (c.principal ≡ p))
unfolding last_match
last_match-In candidate now [] m p h = inl h
last_match-In candidate now (c ∷ cs) m p h = elim (last_match-In candidate now cs _ p h) [
  | inr (d, found, mine, live, whose) ↦ inr (d, there found, mine, live, whose)
  | inl now_is ↦ elim (Bool-cases (str_eq candidate c.digest && active_at now c)) [
    | inl match ↦
        inr (c, here, ground (arith, eq_iff candidate c.digest), ground arith, ground arith)
    | inr other ↦ inl (ground arith)
  ]
]

-- A principal is answered only for a bearer token whose digest an active credential has, and it is
-- that credential's principal.
pub authenticate_sound :
    (digest : String → String) (encoded_len : String → ℕ) (cs : List Credential)
    (header : Option String) (now : ℕ) (p : Principal)
    → authenticate digest encoded_len cs header now ≡ ok p
    → (h token : String) × (c : Credential) × (header ≡ some h)
      × (after_prefix "Bearer " h ≡ some token)
      × (encoded_len token ≤ 4096)
      × In c cs
      × (c.digest ≡ digest token)
      × (active_at now c ≡ true)
      × (c.principal ≡ p)
unfolding authenticate
authenticate_sound digest encoded_len cs none now p h = absurd (ground arith)
authenticate_sound digest encoded_len cs (some header) now p h =
    elim (Option-cases (after_prefix "Bearer " header)) [
      | inl missing ↦ absurd (ground arith)
      | inr (token, bearer) ↦ elim (Bool-cases (str_eq token "" || ltb 4096 (encoded_len token))) [
        | inl bad ↦ absurd (ground arith)
        | inr good ↦ elim (Option-cases (last_match (digest token) now cs none)) [
          | inl unknown ↦ absurd (ground arith)
          | inr (q, match) ↦
              let same : q ≡ p = ground arith in
              let short : encoded_len token ≤ 4096 = ground arith in
              elim (last_match-In (digest token) now cs none q match) [
                | inl nothing ↦ absurd (ground arith)
                | inr (c, found, mine, active, whose) ↦
                    (header, token, c, refl, bearer, short, found, mine, active, whose ∙ same)
              ]
        ]
      ]
    ]

entry-cases :
    (r : Checked Credential)
    → ((e : ConfigError) × (r ≡ failed e)) ⊎ ((c : Credential) × (r ≡ passed c))
entry-cases (failed e) = inl (e, refl)
entry-cases (passed c) = inr (c, refl)

-- The end of the constructor passes on the credentials that it parsed, and never none.
finished :
    (require_expiry : Bool) (now : ℕ) (r : Checked (List Credential)) (cs : List Credential)
    → registered require_expiry now r ≡ passed cs
    → (r ≡ passed cs) × (cs ≢ [])
unfolding registered
finished require_expiry now (failed e) cs h = absurd (ground arith)
finished require_expiry now (passed []) cs h = absurd (ground arith)
finished require_expiry now (passed (c ∷ xs)) cs h =
    let same : c ∷ xs ≡ cs = ground arith in (ap passed same, λ empty. cc (same, empty))

module _ (digest : String → String) (strip : String → String) (require_expiry : Bool)
    (max_lifetime_s : Option ℕ) where
  -- Two credentials of a registry: other digests, and one policy if they are one identity.
  abbrev pub Apart : Credential → Credential → Type 0
  Apart c d =
      (str_eq c.digest d.digest ≡ false)
      × (same_identity digest strip c.principal d.principal ≡ true
          → same_policy digest strip c.principal d.principal ≡ true)

  abbrev pub Pairwise : List Credential → Type 0
  Pairwise [] = Unit {0}
  Pairwise (c ∷ cs) = Each (Apart c) cs × Pairwise cs

  abbrev pub IsWindow : Option (ℕ × ℕ) → Type 0
  IsWindow none = require_expiry ≡ false
  IsWindow (some (a, b)) = (a < b) × (within max_lifetime_s (a, b) ≡ true)

  -- The scopes are known, and the validity is a time that is not empty and not too long.
  abbrev pub IsAccepted : Credential → Type 0
  IsAccepted c = (all known_scope c.principal.scopes ≡ true) × IsWindow c.validity

  Pairwise-append :
      (cs : List Credential) (d : Credential)
      → Pairwise cs
      → Each (λ c. Apart c d) cs
      → Pairwise (cs ++ d ∷ [])
  Pairwise-append [] d h e = (tt, tt)
  Pairwise-append (c ∷ cs) d (first, more) (one, rest) =
      (Each-append (Apart c) cs (d ∷ []) first (one, tt), Pairwise-append cs d more rest)

  Each-Apart :
      (cs : List Credential) (d : Credential)
      → any (λ (c : Credential). str_eq c.digest d.digest) cs ≡ false
      → any (conflicts digest strip d.principal) cs ≡ false
      → Each (λ c. Apart c d) cs
  Each-Apart [] d h k = tt
  Each-Apart (c ∷ cs) d h k =
      ((ground arith, λ same. ground arith), Each-Apart cs d (ground arith) (ground arith))

  then-passed :
      {A B : Type 0} (m : Checked A) (f : A → Checked B) {b : B}
      → (m >>= f) ≡ passed b
      → (a : A) × (m ≡ passed a) × (f a ≡ passed b)
  then-passed (passed a) f h = (a, refl, h)
  then-passed (failed e) f h = absurd (ground arith)

  sha_of-passed :
      (parsed : List Credential) (j : Option Json) (d : String)
      → sha_of digest strip parsed j ≡ passed d
      → any (λ (c : Credential). str_eq c.digest d) parsed ≡ false
  unfolding sha_of
  sha_of-passed parsed none d h = absurd (ground arith)
  sha_of-passed parsed (some (Json.string s)) d h = ground arith
  sha_of-passed parsed (some _) d h = absurd (ground arith)

  scopes_of-passed :
      (j : Option Json) (ss : List String)
      → scopes_of digest strip j ≡ passed ss
      → all known_scope ss ≡ true
  unfolding scopes_of
  scopes_of-passed j ss h = ground arith

  unless_conflict-passed :
      (parsed : List Credential) (c d : Credential)
      → unless_conflict digest strip parsed c ≡ passed d
      → (c ≡ d) × (any (conflicts digest strip c.principal) parsed ≡ false)
  unfolding unless_conflict
  unless_conflict-passed parsed c d h = ground arith

  window_of-passed : (a b : Option Json) (w : ℕ × ℕ) → window_of a b ≡ passed w → w.0 < w.1
  window_of-passed (some (Json.integer (pos a))) (some (Json.integer (pos b))) w h = ground arith
  window_of-passed (some (Json.integer (pos a))) (some (Json.integer (negsuc b))) w h =
      absurd (ground arith)
  window_of-passed (some (Json.integer (pos a))) none w h = absurd (ground arith)
  window_of-passed (some (Json.integer (pos a))) (some _) w h = absurd (ground arith)
  window_of-passed (some (Json.integer (negsuc a))) none w h = absurd (ground arith)
  window_of-passed (some (Json.integer (negsuc a))) (some _) w h = absurd (ground arith)
  window_of-passed none b w h = absurd (ground arith)
  window_of-passed (some _) b w h = absurd (ground arith)

  validity_of-passed :
      (a b : Option Json) (v : Option (ℕ × ℕ))
      → validity_of require_expiry max_lifetime_s a b ≡ passed v
      → IsWindow v
  unfolding validity_of
  validity_of-passed a b none h = ground arith
  validity_of-passed a b (some w) h = (ground (arith, window_of-passed a b w), ground arith)

  credential_of-IsAccepted :
      (parsed : List Credential) (j : Json) (c : Credential)
      → credential_of digest strip require_expiry max_lifetime_s parsed j ≡ passed c
      → Each (λ d. Apart d c) parsed × IsAccepted c
  unfolding credential_of
  credential_of-IsAccepted parsed (object fields) c h =
      let (sha, sha_ok, h1) =
        then-passed (sha_of digest strip parsed (lookup "sha256" fields)) _ h in
      let (principal, principal_ok, h2) =
        then-passed (name_of digest strip bad_principal (lookup "principal" fields)) _ h1 in
      let (tenant, tenant_ok, h3) =
        then-passed (name_of digest strip bad_tenant (lookup "tenant" fields)) _ h2 in
      let (scopes, scopes_ok, h4) =
        then-passed (scopes_of digest strip (lookup "scopes" fields)) _ h3 in
      let (tools, tools_ok, h5) =
        then-passed (allowed_of digest strip (lookup "tools" fields)) _ h4 in
      let (validity, validity_ok, h6) =
        then-passed
          (validity_of require_expiry max_lifetime_s (lookup "not_before_unix" fields)
            (lookup "expires_unix" fields))
          _ h5 in
      let made : Credential = record {
        digest = sha;
        principal = record {
          principal_id = principal;
          tenant_id = tenant;
          scopes = scopes;
          tools = tools;
        };
        validity = validity;
      } in
      let (same, apart) = unless_conflict-passed parsed made c h6 in
      subst (λ (x : Credential). Each (λ d. Apart d x) parsed × IsAccepted x) same
        (
          Each-Apart parsed made (sha_of-passed parsed (lookup "sha256" fields) sha sha_ok) apart,
          (
            scopes_of-passed (lookup "scopes" fields) scopes scopes_ok,
            validity_of-passed (lookup "not_before_unix" fields) (lookup "expires_unix" fields)
                validity validity_ok,
          ),
        )
  credential_of-IsAccepted parsed _ c h = absurd (ground arith)

  entries_from-IsAccepted :
      (js : List Json) (parsed cs : List Credential)
      → entries_from digest strip require_expiry max_lifetime_s parsed js ≡ passed cs
      → Pairwise parsed
      → Each IsAccepted parsed
      → Pairwise cs × Each IsAccepted cs
  unfolding entries_from
  entries_from-IsAccepted [] parsed cs h apart good =
      subst (λ xs. Pairwise xs × Each IsAccepted xs) (ground arith) (apart, good)
  entries_from-IsAccepted (j ∷ js) parsed cs h apart good =
      elim (entry-cases (credential_of digest strip require_expiry max_lifetime_s parsed j)) [
        | inl (e, bad) ↦ absurd (ground arith)
        | inr (c, fine) ↦
            let (new, accepted) = credential_of-IsAccepted parsed j c fine in
            entries_from-IsAccepted js (parsed ++ c ∷ []) cs (rw (fine, entries_from) at h)
              (Pairwise-append parsed c apart new)
              (Each-append IsAccepted parsed (c ∷ []) good (accepted, tt))
      ]

  -- A registry that was accepted has a credential; each has known scopes and, where it has one, a
  -- validity that is not empty and within the lifetime; each has one, where an expiry is required;
  -- no two have one digest, and two of one identity have the same scopes and the same tools.
  pub auth_registry-IsAccepted :
      (now : ℕ) (entries : List Json) (cs : List Credential)
      → auth_registry digest strip require_expiry max_lifetime_s now entries ≡ passed cs
      → (cs ≢ []) × Pairwise cs × Each IsAccepted cs
  unfolding auth_registry
  auth_registry-IsAccepted now entries cs h =
      let (parsed, some_one) =
        finished require_expiry now
          (entries_from digest strip require_expiry max_lifetime_s [] entries) cs (ground arith) in
      let (apart, accepted) = entries_from-IsAccepted entries [] cs parsed tt tt in
      (some_one, apart, accepted)
