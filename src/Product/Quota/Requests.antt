-- ===== src/Product/Quota/Requests.antt =====
-- The request rate of `admit_request`, over any run of requests within one window.
use sigil_pi.Prelude.{
  ℕ, ◌+◌, ◌-◌, ◌≤◌, ◌≡◌, String, false, List, [], ◌∷◌, arith, inl, inr, Bool-cases, str_eq, eq_iff,
  if◌then◌else◌, Each, ltb, leb, ◌&&◌,
}
use sigil_pi.Prelude.Dict.{get, get-put}
use sigil_pi.Product.Quota.{Window, Db, Limits, minute_of, counted, admit_request}

-- The requests of `tenant` that the database has counted in this window.
abbrev pub in_window : ℕ → String → Db → ℕ
in_window window tenant db = counted window (get tenant db.request_windows)

module _ (digest : String → String) (limits : Limits) where
  -- The answer says exactly whether the tenant has a request left in this minute, a refusal changes
  -- nothing, and an admission counts one request for this tenant and none for another.
  pub admit_request_lem :
      (tenant_id other : String) (now : ℕ) (db : Db)
      → let (answer, db') = admit_request digest limits tenant_id now db in
        let tenant = digest tenant_id in
        (answer.0 ≡ ltb (in_window (minute_of now) tenant db) limits.requests_per_minute)
        × (answer.0 ≡ false → db' ≡ db)
        × (in_window (minute_of now) other db'
            ≡ in_window (minute_of now) other db
              + (if answer.0 && str_eq tenant other then 1 else 0))
  unfolding admit_request
  admit_request_lem tenant_id other now db =
      let count = in_window (minute_of now) (digest tenant_id) db in
      let w : Window = record { window_start = minute_of now; count = count + 1 } in
      elim (Bool-cases (leb limits.requests_per_minute count)) [
        | inl full ↦ ground (arith, full)
        | inr free ↦ ground (
          arith,
          free,
          get-put (digest tenant_id) other w db.request_windows,
          eq_iff (digest tenant_id) other,
        )
      ]

  -- The requests of a tenant that a run of requests admits, each a tenant with a time.
  pub admissions : String → List (String × ℕ) → Db → ℕ
  admissions tenant [] db = 0
  admissions tenant ((tenant_id, now) ∷ rest) db =
      let (answer, db') = admit_request digest limits tenant_id now db in
      (if answer.0 && str_eq (digest tenant_id) tenant then 1 else 0) + admissions tenant rest db'

  -- Within one window of the clock, a whole minute from a multiple of 60 seconds: whatever requests of
  -- whatever tenants come in whatever order, a tenant is admitted at most as often as
  -- `requests_per_minute` leaves after the requests that the database has counted in this window.
  pub admissions-le :
      (tenant : String) (window : ℕ) (requests : List (String × ℕ)) (db : Db)
      → Each (λ (q : String × ℕ). minute_of q.1 ≡ window) requests
      → admissions tenant requests db ≤ limits.requests_per_minute - in_window window tenant db
  unfolding admissions
  admissions-le tenant window [] db same = omega arith
  admissions-le tenant window ((tenant_id, now) ∷ rest) db (e, same) =
      let (answer, db') = admit_request digest limits tenant_id now db in
      let (fits, kept, count) = admit_request_lem tenant_id tenant now db in
      let fits' = rw e at fits in
      let count' = rw e at count in
      ground (
        arith,
        fits',
        count',
        eq_iff (digest tenant_id) tenant,
        admissions-le tenant window rest db' same,
      )
