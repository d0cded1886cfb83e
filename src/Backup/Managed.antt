-- ===== src/Backup/Managed.antt =====
-- `_managed_backup_metadata`, `_prune_managed_backups_locked` and `run_managed_backup_cycle` of
-- state_tool.py. The lock of the directory and the names of staging files are left out; the directory
-- is its files in the order of their names.
-- Removing a file and syncing the directory do not fail.
use Prim.Native.Char.{code}
use Prim.Native.Nat.Ordering.{lt}
use Prim.Native.String.{compare, ◌++◌ as ◌<>◌}
use sigil_pi.Prelude.{
  ℕ, zero, suc, ◌+◌, ◌-◌, ◌*◌, String, Bool, true, false, not, ◌&&◌, Option, none, some, List, [],
  ◌∷◌, any, leb, ◌==◌, str_eq, after_prefix, if◌then◌else◌,
}
use sigil_pi.Prelude.Dict.{Dict, get, without}
use sigil_pi.Agent.Json.{
  Json, pos, integer, string, array, object, Items, nil, cons, Fields, lookup,
}
use sigil_pi.Agent.PyInt.{is_digit}
use sigil_pi.Audit.Chain.{Record, Hashing, is_number}
use sigil_pi.Product.Auth.{hex_digits}
use sigil_pi.Product.Service.Paths.{first_chars}
use sigil_pi.Backup.{
  Outcome, ok, refused, raised, ◌>>=◌, ◌>>◌, guard, Tree, Parsed, parsed, malformed, undecodable,
  Member, Host, or_default, safe_relative,
}
use sigil_pi.Backup.Create.{create_backup}
use sigil_pi.Backup.Restore.{members, found, is_short, size_is, keys_in}

-- A file of the directory: whether it is regular, with one link, and closed to group and other.
pub record BackupFile : Type 0 where
  pub is_private : Bool
  pub content : List ℕ

abbrev pub Directory : Type 0
Directory = Dict BackupFile

pub record Metadata : Type 0 where
  pub name : String
  pub sha256 : String
  pub created_unix : ℕ

-- The number of exactly n digits, and what follows.
unfoldable pub digits : ℕ → ℕ → String → Option (ℕ × String)
digits zero value s = some (value, s)
digits (suc n) value String.[] = none
digits (suc n) value (String.◌∷◌ c s) =
    let rest = digits n (value * 10 + (code c - b'0')) s in if is_digit (code c) then rest else none

abbrev pub drop_chars : ℕ → String → String
drop_chars zero s = s
drop_chars (suc n) String.[] = ""
drop_chars (suc n) (String.◌∷◌ c s) = drop_chars n s

abbrev pub digest_part : ℕ → String → Option (ℕ × String)
digest_part created s =
    if hex_digits 64 (first_chars 64 s) && str_eq (drop_chars 64 s) ".tar.gz"
    then some (created, first_chars 64 s)
    else none

-- `MANAGED_BACKUP_RE.fullmatch`: the time and the digest.
unfoldable pub managed_name : String → Option (ℕ × String)
unfolding digits
managed_name name = elim (after_prefix "sigil-pi-state-" name) [
  | none ↦ none
  | some s ↦ elim (digits 10 0 s) [
    | none ↦ none
    | some (created, rest) ↦ elim (after_prefix "-" rest) [
      | none ↦ none
      | some digest ↦ digest_part created digest
    ]
  ]
]

abbrev pub unreadable : String
unreadable = "managed backup cannot be validated"

abbrev pub manifest_of : Parsed → Outcome Fields
manifest_of malformed = refused unreadable
manifest_of undecodable = raised
manifest_of (parsed (object fields)) = ok fields
manifest_of (parsed _) = raised

abbrev pub list_of : Option Json → Outcome Items
list_of (some (array xs)) = ok xs
list_of _ = refused "managed backup manifest is invalid"

abbrev pub is_digest : Option Json → Bool
is_digest (some (string s)) = hex_digits 64 s
is_digest _ = false

-- An integer that is no Boolean, with this value.
abbrev pub is_int : Option Json → ℕ → Bool
is_int (some (integer (pos n))) value = n == value
is_int _ value = false

module _ (host : Host) {Bytes Key : Type 0} (H : Hashing Bytes Key)
    (line : List ℕ → Option Record) where
  unfoldable pub check_entry : Fields → Dict Member → List String → Outcome String
  unfolding safe_relative get
  check_entry e by_name expected = do
    relative ← safe_relative host (or_default (string "") (lookup "path" e))
    let name = "data/" <> relative.as_posix
    guard (not (any (str_eq name) expected)) "managed backup manifest repeats a path"
    m ← found "managed backup manifest entry is invalid" (get name by_name)
    guard (size_is host H line m.size (lookup "size" e) && is_digest (lookup "sha256" e))
        "managed backup manifest entry is invalid"
    ok name

  unfoldable pub check_entries : Items → Dict Member → List String → Outcome (List String)
  unfolding check_entry
  check_entries nil by_name expected = ok expected
  check_entries (cons (object e) rest) by_name expected =
      check_entry e by_name expected >>= λ name. check_entries rest by_name (name ∷ expected)
  check_entries (cons _ rest) by_name expected = refused "managed backup manifest entry is invalid"

  abbrev pub members_of : ℕ → Option (List Member) → Outcome (Dict Member)
  members_of max_bytes none = refused unreadable
  members_of max_bytes (some archive) = members host max_bytes archive

  -- What is checked of the archive: its manifest.
  unfoldable pub managed_manifest : ℕ → List ℕ → Outcome Fields
  unfolding members check_entries without
  managed_manifest max_bytes content = do
    all_members ← members_of max_bytes (host.unpack content)
    first ←
        found "managed backup manifest is missing or too large" (get "manifest.json" all_members)
    guard (is_short host H line first.size) "managed backup manifest is missing or too large"
    fields ← manifest_of (host.loads first.content)
    guard (is_number H (lookup "schema_version" fields) 1) "managed backup manifest is invalid"
    declared ← list_of (lookup "files" fields)
    let by_name = without "manifest.json" all_members
    expected ← check_entries declared by_name []
    guard (keys_in by_name expected) "managed backup has undeclared data members"
    ok fields

  abbrev pub match_of : Option (ℕ × String) → Outcome (ℕ × String)
  match_of none = refused "managed backup name is invalid"
  match_of (some m) = ok m

  unfoldable pub managed_backup_metadata : ℕ → String → BackupFile → Outcome Metadata
  unfolding managed_name managed_manifest
  managed_backup_metadata max_bytes name file = do
    matched ← match_of (managed_name name)
    guard file.is_private "managed backup is not one private regular file"
    guard (str_eq (host.sha256 file.content) matched.1)
        "managed backup digest does not match its name"
    fields ← managed_manifest max_bytes file.content
    guard (is_int (lookup "created_unix" fields) matched.0)
        "managed backup creation time does not match its name"
    ok record { name = name; sha256 = matched.1; created_unix = matched.0 }

  abbrev pub is_managed : String → Bool
  is_managed name = elim (managed_name name) [ none ↦ false | some m ↦ true ]

  unfoldable pub managed : ℕ → Directory → Outcome (List Metadata)
  unfolding managed_backup_metadata managed_name
  managed max_bytes [] = ok []
  managed max_bytes ((name, file) ∷ rest) =
      let others = managed max_bytes rest in
      if is_managed name
      then (managed_backup_metadata max_bytes name file >>= λ m. others >>= λ ms. ok (m ∷ ms))
      else others

  -- `now - created >= retention_s`
  unfoldable pub expired : ℕ → ℕ → List Metadata → List Metadata
  expired retention now [] = []
  expired retention now (m ∷ rest) =
      let others = expired retention now rest in
      if leb (m.created_unix + retention) now then m ∷ others else others

  unfoldable pub unlink_all : List Metadata → Directory → Directory
  unfolding without
  unlink_all [] dir = dir
  unlink_all (m ∷ rest) dir = unlink_all rest (without m.name dir)

  abbrev pub unlinked :
      ℕ → ℕ → Directory → Outcome (List Metadata) → Outcome (List Metadata) × Directory
  unlinked retention now dir (ok ms) =
      (ok (expired retention now ms), unlink_all (expired retention now ms) dir)
  unlinked retention now dir (refused message) = (refused message, dir)
  unlinked retention now dir raised = (raised, dir)

  -- The whole managed set is validated before the first file is removed.
  unfoldable pub prune_managed_backups : ℕ → ℕ → ℕ → Directory → Outcome (List Metadata) × Directory
  unfolding managed expired unlink_all
  prune_managed_backups max_bytes retention now dir =
      unlinked retention now dir (managed max_bytes dir)

  abbrev pub link : String → BackupFile → Directory → Directory
  link name file [] = (name, file) ∷ []
  link name file ((other, f) ∷ rest) = elim (compare name other) [
    | lt ↦ (name, file) ∷ (other, f) ∷ rest
    | _ ↦ (other, f) ∷ link name file rest
  ]

  -- The name of a backup: `zero_padded` is the format `010d`.
  abbrev pub final_name : (ℕ → String) → ℕ → String → String
  final_name zero_padded now digest =
      "sigil-pi-state-" <> (zero_padded now <> ("-" <> (digest <> ".tar.gz")))

  -- `os.link` of the staging file, or the file that is there with this name and content.
  unfoldable pub link_final :
      String → List ℕ → Option BackupFile → Directory → Outcome Bool × Directory
  link_final name content none dir =
      (ok true, link name record { is_private = true; content = content } dir)
  link_final name content (some file) dir =
      if str_eq (host.sha256 file.content) (host.sha256 content)
      then (ok false, dir)
      else (refused "managed backup name collision", dir)

  pub record Cycle : Type 0 where
    pub created_new_file : Bool
    pub created_unix : ℕ
    pub name : String
    pub sha256 : String
    pub deleted : List Metadata

  abbrev pub after_prune :
      Bool → ℕ → String → String → Outcome (List Metadata) × Directory → Outcome Cycle × Directory
  after_prune created now name digest (ok deleted, dir) = (
    ok record {
      created_new_file = created;
      created_unix = now;
      name = name;
      sha256 = digest;
      deleted = deleted;
    },
    dir,
  )
  after_prune created now name digest (refused message, dir) = (refused message, dir)
  after_prune created now name digest (raised, dir) = (raised, dir)

  module _ (zero_padded : ℕ → String) (max_bytes retention now : ℕ) where
    abbrev pub after_link : String → String → Outcome Bool × Directory → Outcome Cycle × Directory
    after_link name digest (ok created, dir) =
        after_prune created now name digest (prune_managed_backups max_bytes retention now dir)
    after_link name digest (refused message, dir) = (refused message, dir)
    after_link name digest (raised, dir) = (raised, dir)

    abbrev pub after_create :
        Outcome Fields × Option (List ℕ) → Directory → Outcome Cycle × Directory
    after_create (ok fields, some content) dir =
        let digest = host.sha256 content in
        let name = final_name zero_padded now digest in
        after_link name digest (link_final name content (get name dir) dir)
    after_create (ok fields, none) dir = (raised, dir)
    after_create (refused message, output) dir = (refused message, dir)
    after_create (raised, output) dir = (raised, dir)

    -- A negative retention acts as 0; the directory is private.
    unfoldable pub run_managed_backup_cycle :
        Option Tree → Option Key → Directory → Outcome Cycle × Directory
    unfolding create_backup link_final prune_managed_backups get
    run_managed_backup_cycle state audit_key dir =
        if retention == 0
        then (refused "retention_s must be a positive integer", dir)
        else after_create (create_backup host H line state audit_key max_bytes now none) dir
