-- ===== src/Audit/Redact.antt =====
-- `redact_grants` of agent.py. Text is its bytes; a kind's values are `None`, a bare string (from a
-- malformed manifest) or a list, in which a value may be `None`.
mod Tests
use sigil_pi.Prelude.{
  ℕ, String, Option, none, some, List, [], ◌∷◌, ◌++◌, ◌≡◌, refl, map, arith, ap, ◌==◌, str_eq,
  if◌then◌else◌, Each, Bool, true, false, Bool-cases, inl, inr,
}
use sigil_pi.Agent.Bytes.{bytes}

pub data Values : Type 0 where
  nothing : Values
  bare : List ℕ → Values
  many : List (Option (List ℕ)) → Values

abbrev pub Grants : Type 0
Grants = List (String × Values)

-- The shape that the loop works on: a list, whatever was given.
unfoldable pub normalized : Values → List (Option (List ℕ))
normalized nothing = []
normalized (bare s) = some s ∷ []
normalized (many vs) = vs

-- `s.split("=", 1)[0]`
unfoldable pub before_equals : List ℕ → List ℕ
before_equals [] = []
before_equals (c ∷ cs) = let rest = before_equals cs in if c == b'=' then [] else c ∷ rest

unfoldable pub redacted : Option (List ℕ) → Option (List ℕ)
unfolding before_equals
redacted none = some (bytes "<redacted>")
redacted (some v) = some (before_equals v ++ bytes "=<redacted>")

unfoldable pub redact_values : String → Values → List (Option (List ℕ))
unfolding normalized redacted
redact_values kind vs = if str_eq kind "secret" then map redacted (normalized vs) else normalized vs

unfoldable pub redact_grants : Grants → Grants
unfolding redact_values
redact_grants [] = []
redact_grants ((kind, vs) ∷ rest) = (kind, many (redact_values kind vs)) ∷ redact_grants rest

-- Two secret values that differ in the secret alone: the same name before the first `=`.
abbrev pub SameName : Option (List ℕ) → Option (List ℕ) → Type 0
SameName none none = Unit {0}
SameName (some v) (some w) = before_equals v ≡ before_equals w
SameName _ _ = ⊥

abbrev pub SameNames : List (Option (List ℕ)) → List (Option (List ℕ)) → Type 0
SameNames [] [] = Unit {0}
SameNames (v ∷ vs) (w ∷ ws) = SameName v w × SameNames vs ws
SameNames _ _ = ⊥

-- The same grants, but for the values of the secrets.
abbrev pub SameButSecrets : Grants → Grants → Type 0
SameButSecrets [] [] = Unit {0}
SameButSecrets ((k, vs) ∷ g) ((j, ws) ∷ h) =
    (k ≡ j)
    × (if str_eq k "secret" then SameNames (normalized vs) (normalized ws) else (vs ≡ ws))
    × SameButSecrets g h
SameButSecrets _ _ = ⊥

redacted-SameNames :
    (vs ws : List (Option (List ℕ))) → SameNames vs ws → map redacted vs ≡ map redacted ws
unfolding redacted
redacted-SameNames [] [] h = refl
redacted-SameNames [] (w ∷ ws) h = absurd h
redacted-SameNames (v ∷ vs) [] h = absurd h
redacted-SameNames (none ∷ vs) (none ∷ ws) (e, h) = cc (redacted-SameNames vs ws h)
redacted-SameNames (none ∷ vs) (some w ∷ ws) (e, h) = absurd e
redacted-SameNames (some v ∷ vs) (none ∷ ws) (e, h) = absurd e
redacted-SameNames (some v ∷ vs) (some w ∷ ws) (e, h) = cc (e, redacted-SameNames vs ws h)

redact_values_same :
    (k : String) (vs ws : Values)
    → (if str_eq k "secret" then SameNames (normalized vs) (normalized ws) else (vs ≡ ws))
    → redact_values k vs ≡ redact_values k ws
unfolding redact_values
redact_values_same k vs ws = elim (Bool-cases (str_eq k "secret")) [
  | inl secret ↦ rw secret (redacted-SameNames (normalized vs) (normalized ws))
  | inr plain ↦ rw plain (λ e. ap normalized e)
]

-- What is written to the log does not depend on the values of the secrets, only on their names.
pub redact_grants_hides : (g h : Grants) → SameButSecrets g h → redact_grants g ≡ redact_grants h
unfolding redact_grants
redact_grants_hides [] [] s = refl
redact_grants_hides [] (j ∷ h) s = absurd s
redact_grants_hides (k ∷ g) [] s = absurd s
redact_grants_hides ((k, vs) ∷ g) ((j, ws) ∷ h) (e, same, s) =
    cc (e, redact_values_same k vs ws same, redact_grants_hides g h s)
