-- ===== src/Backup/Restore.antt =====
-- `_members` and `restore_backup` of state_tool.py. The temporary directory is the tree that the loop
-- builds: it is removed on a failure and renamed to the target at the end.
use Prim.Native.String.{◌++◌ as ◌<>◌}
use sigil_pi.Prelude.{
  ℕ, ◌+◌, ◌*◌, String, Bool, true, false, not, ◌||◌, ◌&&◌, Option, none, some, List, [], ◌∷◌,
  length, leb, ◌==◌, str_eq, any, all, if◌then◌else◌,
}
use sigil_pi.Prelude.Dict.{Dict, get, put, without}
use sigil_pi.Agent.Json.{
  Json, null, ℤ, pos, negsuc, string, array, object, Items, nil, cons, Fields, end, field, lookup,
}
use sigil_pi.Audit.Chain.{Record, Hashing, is_number, is_text}
use sigil_pi.Backup.{
  Outcome, ok, refused, raised, ◌>>=◌, ◌>>◌, guard, Node, regular, Tree, Parsed, parsed, malformed,
  undecodable, Member, Host, or_default, is_below, safe_relative, safe_relative_text,
}
use sigil_pi.Backup.Validation.{validate_state}
use sigil_pi.Backup.Create.{count, key_of}

-- `total += size`, and the test after it.
abbrev pub add_size : ℕ → ℕ → ℤ → Outcome ℕ
add_size max_bytes total (pos n) =
    guard (leb (total + n) max_bytes) "backup exceeds the configured restore size limit"
    >> ok (total + n)
add_size max_bytes total (negsuc n) = refused "backup exceeds the configured restore size limit"

abbrev pub has_key {ℓ} : {V : Type ℓ} → String → Dict V → Bool
has_key name d = elim (get name d) [ none ↦ false | some v ↦ true ]

abbrev pub is_file : Node → Bool
is_file (regular content) = true
is_file _ = false

-- Whether a file cannot stand at a path, beside an entry.
abbrev pub clashes : String → String × Node → Bool
clashes path (other, node) = is_below path other || (is_below other path && is_file node)

-- `mkdir` of the parents and `write_bytes`, or their `OSError`.
unfoldable pub write : String → List ℕ → Tree → Outcome Tree
unfolding put
write path bytes tree =
    if any (clashes path) tree then raised else ok (put path (regular bytes) tree)

abbrev pub keys_in {ℓ} : {V : Type ℓ} → Dict V → List String → Bool
keys_in d names = all (λ e. any (str_eq e.0) names) d

abbrev pub manifest_limit : ℕ
manifest_limit = 4 * 1024 * 1024

abbrev pub entries_of : Option Json → Outcome Items
entries_of (some (array xs)) = ok xs
entries_of _ = refused "backup manifest file list is invalid"

abbrev pub fields_of : Parsed → Outcome Fields
fields_of malformed = refused "backup manifest is invalid"
fields_of undecodable = raised
fields_of (parsed (object fields)) = ok fields
fields_of (parsed _) = raised

abbrev pub found : String → Option Member → Outcome Member
found message none = refused message
found message (some m) = ok m

module _ (host : Host) where
  unfoldable pub collect_members : ℕ → ℕ → Dict Member → List Member → Outcome (Dict Member)
  unfolding put get safe_relative_text
  collect_members max_bytes total by_name [] = ok by_name
  collect_members max_bytes total by_name (m ∷ rest) = do
    guard m.is_regular "backup contains non-regular member"
    path ← safe_relative_text host m.name
    guard (not (has_key m.name by_name)) "backup contains duplicate member"
    sum ← add_size max_bytes total m.size
    collect_members max_bytes sum (put m.name m by_name) rest

  unfoldable pub members : ℕ → List Member → Outcome (Dict Member)
  unfolding collect_members
  members max_bytes archive =
      guard (leb (length archive) 1000000) "backup contains too many entries"
      >> collect_members max_bytes 0 [] archive

  module _ {Bytes Key : Type 0} (H : Hashing Bytes Key) (line : List ℕ → Option Record) where
    -- `member.size == value`
    abbrev pub size_is : ℤ → Option Json → Bool
    size_is (pos n) value = is_number H value n
    size_is (negsuc n) value = false

    -- One entry of the manifest: its member's name, and the tree with its file.
    unfoldable pub restore_entry :
        Fields → Dict Member → List String → Tree → Outcome (List String × Tree)
    unfolding write get safe_relative safe_relative_text
    restore_entry e by_name expected tree = do
      relative ← safe_relative host (or_default (string "") (lookup "path" e))
      let name = "data/" <> relative.as_posix
      guard (not (any (str_eq name) expected)) "backup manifest repeats a path"
      m ← found "backup member is missing or has wrong size" (get name by_name)
      guard (size_is m.size (lookup "size" e)) "backup member is missing or has wrong size"
      guard (is_text (lookup "sha256" e) (host.sha256 m.content)) "backup checksum failed"
      written ← write relative.as_posix m.content tree
      ok (name ∷ expected, written)

    -- The loop over the manifest.
    unfoldable pub restore_entries :
        Items → Dict Member → List String → Tree → Outcome (List String × Tree)
    unfolding restore_entry
    restore_entries nil by_name expected tree = ok (expected, tree)
    restore_entries (cons (object e) rest) by_name expected tree =
        restore_entry e by_name expected tree >>= λ r. restore_entries rest by_name r.0 r.1
    restore_entries (cons _ rest) by_name expected tree = refused "backup manifest entry is invalid"

    abbrev pub is_short : ℤ → Bool
    is_short (pos n) = leb n manifest_limit
    is_short (negsuc n) = true

    -- The manifest and the files of an archive. Each name that is expected is a member's, by the test in
    -- the loop. All are declared and with their checksums.
    unfoldable pub extract : ℕ → List Member → Outcome (Fields × Tree)
    unfolding members restore_entries without
    extract max_bytes archive = do
      all_members ← members max_bytes archive
      first ← found "backup manifest is missing or too large" (get "manifest.json" all_members)
      guard (is_short first.size) "backup manifest is missing or too large"
      fields ← fields_of (host.loads first.content)
      guard (is_number H (lookup "schema_version" fields) 1) "backup schema is unsupported"
      declared ← entries_of (lookup "files" fields)
      let by_name = without "manifest.json" all_members
      restored ← restore_entries declared by_name [] []
      guard (keys_in by_name restored.0) "backup contains undeclared data members"
      ok (fields, restored.1)

    abbrev pub restored_marker : Fields → ℕ → Fields
    restored_marker fields now =
        field "product_version" (or_default null (lookup "product_version" fields)) (
          field "restored_unix" (count now) (
            field "schema_version" (count 1)
              (field "source_created_unix" (or_default null (lookup "created_unix" fields)) end)))

    -- The marker, the last validation, and the rename.
    unfoldable pub finish : Option Key → ℕ → Fields × Tree → Outcome (Fields × Tree)
    unfolding write validate_state
    finish audit_key now (fields, tree) = do
      key ← key_of host H line audit_key
      marked ←
          write ".product-clean-shutdown.json" (host.dumps (object (restored_marker fields now)))
            tree
      checked ← validate_state host H line marked key
      ok (fields, marked)

    abbrev pub unpacked : Option (List Member) → Outcome (List Member)
    unpacked none = raised
    unpacked (some archive) = ok archive

    abbrev pub check_target : Option Tree → Outcome (Unit {0})
    check_target none = ok tt
    check_target (some tree) = refused "restore target already exists; refusing to overwrite state"

    unfoldable pub restored : List ℕ → Option Tree → Option Key → ℕ → ℕ → Outcome (Fields × Tree)
    unfolding extract finish
    restored backup target audit_key max_bytes now = do
      guard (not (max_bytes == 0)) "max_bytes must be positive"
      key ← key_of host H line audit_key
      check_target target
      archive ← unpacked (host.unpack backup)
      extracted ← extract max_bytes archive
      finish audit_key now extracted

    abbrev pub install : Option Tree → Outcome (Fields × Tree) → Outcome Fields × Option Tree
    install target (ok (fields, tree)) = (ok fields, some tree)
    install target (refused message) = (refused message, target)
    install target raised = (raised, target)

    unfoldable pub restore_backup :
        List ℕ → Option Tree → Option Key → ℕ → ℕ → Outcome Fields × Option Tree
    unfolding restored
    restore_backup backup target audit_key max_bytes now =
        install target (restored backup target audit_key max_bytes now)
