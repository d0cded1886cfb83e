-- ===== src/Product/Concurrency.antt =====
-- `TenantConcurrency` of product_service.py: for each tenant what its semaphore has left.
use sigil_pi.Prelude.{ℕ, zero, suc, ◌+◌, String, Option, none, some, ltb, if◌then◌else◌}
use sigil_pi.Prelude.Dict.{Dict, get, put}

-- `_for`: a semaphore is created with `limit`.
abbrev pub left_for : ℕ → String → Dict ℕ → ℕ
left_for limit tenant_id semaphores = elim (get tenant_id semaphores) [ none ↦ limit | some v ↦ v ]

abbrev pub taken : ℕ → String → Dict ℕ → Option (Dict ℕ)
taken zero tenant_id semaphores = none
taken (suc v) tenant_id semaphores = some (put tenant_id v semaphores)

-- `none` where the tenant is busy.
unfoldable pub take_turn : ℕ → String → Dict ℕ → Option (Dict ℕ)
take_turn limit tenant_id semaphores =
    taken (left_for limit tenant_id semaphores) tenant_id semaphores

-- `BoundedSemaphore.release`: never above `limit`, where it raises and leaves it.
unfoldable pub give_back : ℕ → String → Dict ℕ → Dict ℕ
give_back limit tenant_id semaphores =
    let v = left_for limit tenant_id semaphores in
    if ltb v limit then put tenant_id (v + 1) semaphores else semaphores
