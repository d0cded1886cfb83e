-- ===== src/Product/Quota/Reconcile.antt =====
-- `registered_sessions`, `reconcile_registered` and `inactive_sessions` of `DurableQuotaStore`.
use Prim.Native.String.{compare}
use Prim.Native.Nat.{Ordering}
use sigil_pi.Prelude.{
  ℕ, max, String, Bool, true, false, Option, none, some, List, [], ◌∷◌, leb, str_eq, if◌then◌else◌,
  length,
}
use sigil_pi.Prelude.Table.{update_where}
use sigil_pi.Product.Quota.{Db, Usage, usage_is}

-- `ORDER BY tenant, session`, by insertion.
abbrev pub later : Usage → Usage → Bool
later u v = elim (compare u.tenant v.tenant) [
  | Ordering.lt ↦ false
  | Ordering.gt ↦ true
  | Ordering.eq ↦ elim (compare u.session v.session) [ Ordering.gt ↦ true | _ ↦ false ]
]

unfoldable pub insert_row : Usage → List Usage → List Usage
insert_row u [] = u ∷ []
insert_row u (v ∷ rest) =
    let after = insert_row u rest in if later u v then v ∷ after else u ∷ v ∷ rest

unfoldable pub ordered : List Usage → List Usage
unfolding insert_row
ordered [] = []
ordered (u ∷ rest) = insert_row u (ordered rest)

abbrev pub Registered : Type 0
Registered = String × String × String

abbrev pub identity_of : Usage → Option Registered
identity_of u = elim u.internal_session [
  | none ↦ none
  | some internal ↦ if str_eq internal "" then none else some (u.tenant, u.session, internal)
]

abbrev pub identities : List Usage → Option (List Registered)
identities [] = some []
identities (u ∷ rest) = elim (identity_of u) [
  | none ↦ none
  | some r ↦ elim (identities rest) [ none ↦ none | some rs ↦ some (r ∷ rs) ]
]

-- `none` is its `ConfigError`: a row without registry identity.
unfoldable pub registered_sessions : Db → Option (List Registered)
unfolding ordered
registered_sessions db = identities (ordered db.session_usage)

-- What `measure` answers: the bytes of storage and of audit, and the last activity.
pub record Footprint : Type 0 where
  pub storage_bytes : ℕ
  pub audit_bytes : ℕ
  pub last_activity_unix : ℕ

abbrev pub measured_row : Footprint → Usage → Usage
measured_row f u = record u {
  storage_bytes = f.storage_bytes;
  audit_bytes = f.audit_bytes;
  last_activity_unix = max u.last_activity_unix f.last_activity_unix;
}

unfoldable pub measure_all : (String → Footprint) → List Registered → List Usage → List Usage
measure_all measure [] rows = rows
measure_all measure ((tenant, session, internal) ∷ rest) rows =
    measure_all measure rest
      (update_where (usage_is tenant session) (measured_row (measure internal)) rows)

unfoldable pub reconcile_registered : (String → Footprint) → Db → Option (ℕ × Db)
unfolding registered_sessions measure_all
reconcile_registered measure db = elim (registered_sessions db) [
  | none ↦ none
  | some rs ↦
      some (length rs, record db { session_usage = measure_all measure rs db.session_usage })
]

unfoldable pub among_inactive : ℕ → List Usage → List Usage
among_inactive cutoff [] = []
among_inactive cutoff (u ∷ rest) =
    let after = among_inactive cutoff rest in
    if leb u.last_activity_unix cutoff then u ∷ after else after

unfoldable pub inactive_sessions : ℕ → Db → List Usage
unfolding among_inactive ordered
inactive_sessions cutoff db = ordered (among_inactive cutoff db.session_usage)
