-- ===== src/Backup/Registry.antt =====
-- `_validate_quota_database` of state_tool.py: the quota database, and that it names every file of a
-- customer.
use Prim.Native.Char.{code}
use sigil_pi.Prelude.{
  String, Bool, true, false, not, ◌&&◌, ◌||◌, Option, none, some, List, [], ◌∷◌, any, all, map,
  str_eq, ◌==◌, if◌then◌else◌,
}
use sigil_pi.Agent.Json.{ℤ, pos, negsuc}
use sigil_pi.Product.Auth.{hex_digits}
use sigil_pi.Product.Service.Paths.{first_chars}
use sigil_pi.Backup.{
  Outcome, ok, refused, raised, ◌>>=◌, ◌>>◌, guard, Node, regular, directory, Tree, UsageRow,
  QuotaDb, Host, below, first_part, node_at, exists_at,
}

-- `s.split(":")`
unfoldable pub split_colons : String → List String
split_colons String.[] = "" ∷ []
split_colons (String.◌∷◌ c s) = elim (split_colons s) [
  | [] ↦ []
  | part ∷ parts ↦ if code c == b':' then "" ∷ part ∷ parts else (String.◌∷◌ c part) ∷ parts
]

abbrev pub is_negative : ℤ → Bool
is_negative (pos n) = false
is_negative (negsuc n) = true

abbrev pub is_negative_time : Option ℤ → Bool
is_negative_time none = true
is_negative_time (some n) = is_negative n

abbrev pub is_missing : Option String → Bool
is_missing none = true
is_missing (some s) = false

-- The rows that the second count of `invalid` finds.
unfoldable pub is_invalid_usage : UsageRow → Bool
is_invalid_usage r =
    is_negative r.storage_bytes
    || is_negative r.audit_bytes
    || is_negative_time r.last_activity_unix
    || not (hex_digits 64 r.tenant)
    || not (hex_digits 64 r.session)
    || is_missing r.internal_session

abbrev pub required_tables : List String
required_tables = "request_windows" ∷ "turn_leases" ∷ "token_windows" ∷ "session_usage" ∷ []

abbrev pub among : List String → String → Bool
among names name = any (str_eq name) names

-- The names directly in a directory, each with whether it is a directory.
unfoldable pub children : String → Tree → List (String × Bool)
unfolding first_part
children root [] = []
children root ((path, node) ∷ rest) =
    let others = children root rest in
    elim (below root path) [
      | none ↦ others
      | some relative ↦
          let (part, more) = first_part relative in
          (part, more || (elim node [ directory ↦ true | _ ↦ false ])) ∷ others
    ]

-- `glob("*" + end)`
abbrev pub ends_with : String → String → Bool
ends_with end String.[] = str_eq end ""
ends_with end (String.◌∷◌ c s) = str_eq end (String.◌∷◌ c s) || ends_with end s

module _ (host : Host) where
  abbrev pub named_well : String → UsageRow → List String → Bool
  named_well internal r (version ∷ tenant ∷ session ∷ []) =
      str_eq version "v1"
      && str_eq tenant r.tenant
      && hex_digits 64 session
      && str_eq (host.sha256_text internal) r.session
  named_well internal r _ = false

  -- The loop over the rows; a row without a name was counted above.
  unfoldable pub internals : List UsageRow → Outcome (List String)
  unfolding split_colons
  internals [] = ok []
  internals (r ∷ rest) =
      let others = internals rest in
      elim r.internal_session [
        | none ↦ raised
        | some internal ↦
            if named_well internal r (split_colons internal)
            then others >>= (λ names. ok (internal ∷ names))
            else refused "quota database contains invalid session registry"
      ]

  -- What the registry expects of the names in a directory.
  unfoldable pub are_stems : String → List String → List (String × Bool) → Bool
  are_stems end expected [] = true
  are_stems end expected ((name, is_dir) ∷ rest) =
      (not (ends_with end name) || among expected (host.stem name)) && are_stems end expected rest

  unfoldable pub are_directories : List String → List (String × Bool) → Bool
  are_directories expected [] = true
  are_directories expected ((name, is_dir) ∷ rest) =
      (not is_dir || among expected name) && are_directories expected rest

  unfoldable pub covers : List String → Tree → Bool
  unfolding are_stems are_directories children
  covers names tree =
      let full = map host.sha256_text names in
      are_stems ".kv" full (children "sessions" tree)
      && are_stems ".jsonl" full (children "audit" tree)
      && are_directories (map (first_chars 16) full) (children "sandboxes" tree)

  unfoldable pub validate_quota_rows : QuotaDb → Tree → Outcome (Unit {0})
  unfolding is_invalid_usage internals covers
  validate_quota_rows db tree = do
    guard db.quick_check "quota database failed integrity validation"
    guard (all (among db.tables) required_tables) "quota database schema is incomplete"
    guard (db.turn_leases == 0)
        "quota database contains active turn leases; clean drain is incomplete"
    guard (not (any is_negative db.tokens || any is_invalid_usage db.usage))
        "quota database contains invalid usage records"
    names ← internals db.usage
    guard (covers names tree) "customer state is missing quota registry entries"

  abbrev pub database_at : Option Node → Option QuotaDb
  database_at (some (regular content)) = host.open_db content
  database_at _ = none

  abbrev pub validate_opened : Option QuotaDb → Tree → Outcome (Unit {0})
  validate_opened none tree = refused "quota database is corrupt"
  validate_opened (some db) tree = validate_quota_rows db tree

  unfoldable pub validate_quota_database : Tree → Outcome (Unit {0})
  unfolding validate_quota_rows node_at
  validate_quota_database tree =
      if exists_at "product-quotas.sqlite3" tree
      then validate_opened (database_at (node_at "product-quotas.sqlite3" tree)) tree
      else guard
          (not (
            exists_at "sessions" tree
            || exists_at "sandboxes" tree
            || exists_at "audit" tree
            || exists_at "product-schedules.json" tree))
          "customer state has no durable quota registry"
