-- ===== src/Product/RateLimit/Spacing.antt =====
-- No minute sees more admitted requests of a tenant than the limit.
use sigil_pi.Prelude.{
  ◌&&◌, ap, ℕ, ◌+◌, ◌≤◌, ◌<◌, ◌≡◌, ◌⊎◌, inl, inr, refl, arith, String, Bool, true, false, List, [],
  ◌∷◌, ◌++◌, leb, ltb, length, str_eq, eq_iff, if◌then◌else◌, Bool-cases,
}
use sigil_pi.Prelude.Dict.{Dict, put, get-put}
use sigil_pi.Prelude.Table.{count_where}
use sigil_pi.Product.RateLimit.{minute, purge, events_of, admit}

-- Admitted less than a minute before `t`.
abbrev pub recent : ℕ → ℕ → Bool
recent t e = ltb t (e + minute)

-- Times of admissions, newest first: at each, fewer than `limit` of the earlier ones were recent.
abbrev pub Spaced : ℕ → List ℕ → Type 0
Spaced limit [] = Unit {0}
Spaced limit (t ∷ earlier) = (count_where (recent t) earlier < limit) × Spaced limit earlier

-- The clock does not go back.
abbrev pub Forward : ℕ → List (String × ℕ) → Type 0
Forward start [] = Unit {0}
Forward start ((tenant_id, now) ∷ rest) = (start ≤ now) × Forward now rest

count-purge :
    (now t : ℕ) (events : List ℕ)
    → now ≤ t
    → count_where (recent t) (purge now events) ≡ count_where (recent t) events
unfolding purge count_where
count-purge now t [] h = refl
count-purge now t (e ∷ events) h = ground (arith, count-purge now t events h)

count-append :
    (t now : ℕ) (events : List ℕ)
    → count_where (recent t) (events ++ now ∷ [])
      ≡ (if recent t now then 1 else 0) + count_where (recent t) events
unfolding count_where
count-append t now [] = omega arith
count-append t now (e ∷ events) = ground (arith, count-append t now events)

count-le-length : (t : ℕ) (events : List ℕ) → count_where (recent t) events ≤ length events
unfolding count_where
count-le-length t [] = omega arith
count-le-length t (e ∷ events) = ground (arith, count-le-length t events)

events_of-put :
    (u tenant_id : String) (es : List ℕ) (events : Dict (List ℕ))
    → events_of u (put tenant_id es events)
      ≡ (if str_eq tenant_id u then es else events_of u events)
events_of-put u tenant_id es events = ground (arith, get-put tenant_id u es events)

-- An answer is a refusal, or an admission below the limit.
admit-cases :
    (limit : ℕ) (tenant_id : String) (now : ℕ) (events : Dict (List ℕ))
    → let live = purge now (events_of tenant_id events) in
      let r = admit limit tenant_id now events in
      ((r.0.0 ≡ false) × (r.1 ≡ put tenant_id live events))
      ⊎ ((r.0.0 ≡ true) × (length live < limit) × (r.1 ≡ put tenant_id (live ++ now ∷ []) events))
unfolding admit
admit-cases limit tenant_id now events =
    elim (Bool-cases (leb limit (length (purge now (events_of tenant_id events))))) [
      | inl full ↦ inl (rw full, rw full)
      | inr room ↦ inr (rw room, ground arith, rw room)
    ]

module _ (limit : ℕ) (tenant : String) where
  -- The times at which the requests of `tenant` were admitted, newest first.
  unfoldable pub admissions : List (String × ℕ) → Dict (List ℕ) → List ℕ → List ℕ
  admissions [] events log = log
  admissions ((tenant_id, now) ∷ rest) events log =
      let (answer, events') = admit limit tenant_id now events in
      admissions rest events' (if answer.0 && str_eq tenant_id tenant then now ∷ log else log)

  -- The limiter still holds each admission that is recent.
  abbrev Covers : ℕ → Dict (List ℕ) → List ℕ → Type 0
  Covers start events log =
      (t : ℕ)
      → start ≤ t
      → count_where (recent t) log ≤ count_where (recent t) (events_of tenant events)

  -- One request keeps the log spaced and covered.
  admit-Spaced :
      (start now : ℕ) (tenant_id : String) (events : Dict (List ℕ)) (log : List ℕ)
      → start ≤ now
      → Covers start events log
      → Spaced limit log
      → let (answer, events') = admit limit tenant_id now events in
        let log' = if answer.0 && str_eq tenant_id tenant then now ∷ log else log in
        Covers now events' log' × Spaced limit log'
  unfolding count_where
  admit-Spaced start now tenant_id events log le cover spaced =
      let live = purge now (events_of tenant_id events) in
      elim (Bool-cases (str_eq tenant_id tenant)) [
        | inr other ↦ elim (admit-cases limit tenant_id now events) [
          | inl (refusal, after) ↦
              rw (refusal, after)
                (
                  λ t h.
                      rw (events_of-put tenant tenant_id live events, other)
                        (cover t (omega arith)),
                  spaced,
                )
          | inr (granted, room, after) ↦
              rw (granted, other, after)
                (
                  λ t h.
                      rw (events_of-put tenant tenant_id (live ++ now ∷ []) events, other)
                        (cover t (omega arith)),
                  spaced,
                )
        ]
        | inl same ↦
            let mine : events_of tenant_id events ≡ events_of tenant events =
              ap (λ u. events_of u events) ((eq_iff tenant_id tenant).0 same) in
            elim (admit-cases limit tenant_id now events) [
              | inl (refusal, after) ↦
                  rw (refusal, after)
                    (
                      λ t h.
                          rw
                            (
                              events_of-put tenant tenant_id live events,
                              same,
                              mine,
                              count-purge now t (events_of tenant events) h,
                            )
                            (cover t (omega arith)),
                      spaced,
                    )
              | inr (granted, room, after) ↦
                  rw (granted, same, after)
                    (
                      λ t h.
                          rw (events_of-put tenant tenant_id (live ++ now ∷ []) events, same, mine)
                            (omega (
                              arith,
                              cover t (omega arith),
                              count-append t now (purge now (events_of tenant events)),
                              count-purge now t (events_of tenant events) h,
                            )),
                      (
                        omega (
                          arith,
                          room,
                          cover now le,
                          ap (count_where (recent now)) mine,
                          count-purge now now (events_of tenant_id events) (omega arith),
                          count-le-length now live,
                        ),
                        spaced,
                      ),
                    )
            ]
      ]

  Spaced-from :
      (start : ℕ) (requests : List (String × ℕ)) (events : Dict (List ℕ)) (log : List ℕ)
      → Forward start requests
      → Covers start events log
      → Spaced limit log
      → Spaced limit (admissions requests events log)
  unfolding admissions
  Spaced-from start [] events log fwd cover spaced = spaced
  Spaced-from start ((tenant_id, now) ∷ rest) events log (le, fwd) cover spaced =
      let (cover', spaced') = admit-Spaced start now tenant_id events log le cover spaced in
      Spaced-from now rest _ _ fwd cover' spaced'

  -- From the empty limiter, over any requests of any tenants on a clock that does not go back:
  -- whenever a request of a tenant is admitted, fewer than `limit` of its requests were admitted in
  -- the minute before.
  pub admissions-Spaced :
      (start : ℕ) (requests : List (String × ℕ))
      → Forward start requests
      → Spaced limit (admissions requests [] [])
  admissions-Spaced start requests fwd =
      Spaced-from start requests [] [] fwd (λ t h. unfold count_where in omega arith) tt
