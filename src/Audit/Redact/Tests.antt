-- ===== src/Audit/Redact/Tests.antt =====
-- Redaction of the grants of the LLM call and of a malformed manifest.
use sigil_pi.Prelude.{◌≡◌, refl, some, [], ◌∷◌}
use sigil_pi.Agent.Bytes.{bytes}
use sigil_pi.Audit.Redact.{
  Grants, bare, many, before_equals, normalized, redact_grants, redact_grants_hides,
}

abbrev one : Grants
one =
    ("net", many (some (bytes "api.host") ∷ []))
    ∷ ("secret", many (some (bytes "key=abc") ∷ []))
    ∷ []

abbrev two : Grants
two =
    ("net", many (some (bytes "api.host") ∷ []))
    ∷ ("secret", many (some (bytes "key=x=y") ∷ []))
    ∷ []

redact-one :
    redact_grants one
    ≡ ("net", many (some (bytes "api.host") ∷ []))
      ∷ ("secret", many (some (bytes "key=<redacted>") ∷ []))
      ∷ []
unfolding redact_grants
redact-one = refl

-- A bare string is redacted as one value, not letter by letter.
redact-bare :
    redact_grants (("secret", bare (bytes "key=abc")) ∷ [])
    ≡ ("secret", many (some (bytes "key=<redacted>") ∷ [])) ∷ []
unfolding redact_grants
redact-bare = refl

redact_grants_hides_example : redact_grants one ≡ redact_grants two
unfolding normalized before_equals
redact_grants_hides_example = redact_grants_hides one two (refl, refl, (refl, (refl, tt), tt))
