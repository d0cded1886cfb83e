-- ===== src/Product/RateLimit/Tests.antt =====
-- Two requests a minute: the third is refused, and one a minute later is admitted.
use sigil_pi.Prelude.{ℕ, ◌≡◌, refl, arith, String, List, [], ◌∷◌}
use sigil_pi.Prelude.Dict.{get, put}
use sigil_pi.Product.RateLimit.{admit, purge}
use sigil_pi.Product.RateLimit.Spacing.{Spaced, Forward, admissions, admissions-Spaced}

abbrev requests : List (String × ℕ)
requests = ("acme", 5) ∷ ("acme", 9) ∷ ("other", 11) ∷ ("acme", 30000000) ∷ ("acme", 60000005) ∷ []

admitted_times : admissions 2 "acme" requests [] [] ≡ 60000005 ∷ 9 ∷ 5 ∷ []
unfolding admissions admit purge get put
admitted_times = refl

requests-Forward : Forward 0 requests
requests-Forward = (omega arith, (omega arith, (omega arith, (omega arith, (omega arith, tt)))))

admissions-Spaced_example : Spaced 2 (admissions 2 "acme" requests [] [])
admissions-Spaced_example = admissions-Spaced 2 "acme" 0 requests requests-Forward
