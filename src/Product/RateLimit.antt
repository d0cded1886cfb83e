-- ===== src/Product/RateLimit.antt =====
-- `FixedWindowRateLimiter` of product_service.py: for each tenant the times of its admitted
-- requests, oldest first, in microseconds of a monotonic clock.
pub mod Spacing
mod Tests
use sigil_pi.Prelude.{
  ℕ, suc, ◌+◌, ◌-◌, ◌/◌, max, String, Bool, true, false, Option, none, some, List, [], ◌∷◌, ◌++◌,
  leb, length, if◌then◌else◌,
}
use sigil_pi.Prelude.Dict.{Dict, get, put}

abbrev pub minute : ℕ
minute = 60000000

-- `while events and events[0] <= now - 60.0: events.popleft()`
unfoldable pub purge : ℕ → List ℕ → List ℕ
purge now [] = []
purge now (e ∷ events) =
    let rest = purge now events in if leb (e + minute) now then rest else e ∷ events

-- `max(1, int(61 - (now - events[0])))`
abbrev pub retry_after : ℕ → List ℕ → ℕ
retry_after now [] = 1
retry_after now (e ∷ events) = max 1 ((61000000 - (now - e)) / 1000000)

abbrev pub events_of : String → Dict (List ℕ) → List ℕ
events_of tenant_id events = elim (get tenant_id events) [ none ↦ [] | some es ↦ es ]

unfoldable pub admit : ℕ → String → ℕ → Dict (List ℕ) → (Bool × ℕ) × Dict (List ℕ)
unfolding purge
admit limit tenant_id now events =
    let live = purge now (events_of tenant_id events) in
    if leb limit (length live)
    then ((false, retry_after now live), put tenant_id live events)
    else ((true, 0), put tenant_id (live ++ now ∷ []) events)
