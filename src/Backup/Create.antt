-- ===== src/Backup/Create.antt =====
-- `_state_file_bytes` and `create_backup` of state_tool.py. What is at the output is `none` where
-- nothing is; the temporary file beside it is left out. A negative limit acts as 0.
use Prim.Native.String.{◌++◌ as ◌<>◌}
use sigil_pi.Prelude.{
  ℕ, ◌+◌, String, true, not, Option, none, some, List, [], ◌∷◌, length, leb, ◌==◌, str_eq,
  if◌then◌else◌,
}
use sigil_pi.Prelude.Dict.{Dict}
use sigil_pi.Agent.Json.{
  Json, null, integer, pos, string, array, object, Items, nil, cons, Fields, end, field, lookup,
}
use sigil_pi.Audit.Chain.{Record, Hashing}
use sigil_pi.Audit.Reader.{Report}
use sigil_pi.Backup.{
  Outcome, ok, refused, raised, ◌>>=◌, ◌>>◌, guard, Tree, Member, Host, or_default,
}
use sigil_pi.Backup.Validation.{regular_files, validate_state}

abbrev pub count : ℕ → Json
count n = integer (pos n)

abbrev pub Payloads : Type 0
Payloads = Dict (List ℕ)

module _ (host : Host) where
  abbrev pub snapshot_of : Option (List ℕ) → Outcome (List ℕ)
  snapshot_of none = raised
  snapshot_of (some content) = ok content

  unfoldable pub state_file_bytes : String → List ℕ → Outcome (List ℕ)
  state_file_bytes path content =
      if str_eq (host.name path) "product-quotas.sqlite3"
      then snapshot_of (host.snapshot content)
      else ok content

  -- The loop over the files, with the total of the bytes so far.
  unfoldable pub payloads : ℕ → ℕ → Payloads → Outcome Payloads
  unfolding state_file_bytes
  payloads max_bytes total [] = ok []
  payloads max_bytes total ((path, content) ∷ rest) = do
    bytes ← state_file_bytes path content
    guard (leb (total + length bytes) max_bytes) "state exceeds the configured backup size limit"
    others ← payloads max_bytes (total + length bytes) rest
    ok ((path, bytes) ∷ others)

  abbrev pub entry_fields : String → List ℕ → Fields
  entry_fields path bytes =
      field "path" (string path)
        (field "sha256" (string (host.sha256 bytes)) (field "size" (count (length bytes)) end))

  unfoldable pub entries : Payloads → Items
  entries [] = nil
  entries ((path, bytes) ∷ rest) = cons (object (entry_fields path bytes)) (entries rest)

  -- The manifest, its keys in the order of `sort_keys`.
  unfoldable pub manifest : Payloads → Fields → Report → ℕ → Fields
  unfolding entries
  manifest files marker report now = field "audit_chains" (count report.chains) (
      field "audit_records" (count report.record_count) (
        field "clean_shutdown_unix" (or_default null (lookup "clean_shutdown_unix" marker)) (
          field "created_unix" (count now) (
            field "files" (array (entries files)) (
              field "product_version" (or_default null (lookup "product_version" marker))
                (field "schema_version" (count 1) end))))))

  abbrev pub member : String → List ℕ → Member
  member name bytes = record {
    name = name;
    is_regular = true;
    size = pos (length bytes);
    content = bytes;
  }

  abbrev pub file_member : String → List ℕ → Member
  file_member path bytes = member ("data/" <> path) bytes

  unfoldable pub file_members : Payloads → List Member
  file_members [] = []
  file_members ((path, bytes) ∷ rest) = file_member path bytes ∷ file_members rest

  unfoldable pub archive : Payloads → Fields → List Member
  unfolding file_members
  archive files fields = member "manifest.json" (host.dumps (object fields)) ∷ file_members files

  module _ {Bytes Key : Type 0} (H : Hashing Bytes Key) (line : List ℕ → Option Record) where
    abbrev pub state_of : Option Tree → Outcome Tree
    state_of none = refused "state directory does not exist"
    state_of (some tree) = ok tree

    abbrev pub key_of : Option Key → Outcome Key
    key_of none = refused "an audit verification key is required"
    key_of (some key) = ok key

    -- What is written: the files, and the manifest with its time.
    unfoldable pub prepare : Option Tree → Option Key → ℕ → ℕ → Outcome (Payloads × Fields)
    unfolding regular_files validate_state payloads manifest
    prepare state audit_key max_bytes now = do
      tree ← state_of state
      key ← key_of audit_key
      guard (not (max_bytes == 0)) "max_bytes must be positive"
      files ← regular_files host tree
      checked ← validate_state host H line tree key
      contents ← payloads max_bytes 0 files
      ok (contents, manifest contents checked.0 checked.1 now)

    abbrev pub write_new :
        Outcome (Payloads × Fields) → Option (List ℕ) → Outcome Fields × Option (List ℕ)
    write_new (refused message) output = (refused message, output)
    write_new raised output = (raised, output)
    write_new (ok prepared) (some existing) =
        (refused "backup output already exists; refusing to overwrite", some existing)
    write_new (ok (files, fields)) none = (ok fields, some (host.pack (archive files fields)))

    unfoldable pub create_backup :
        Option Tree → Option Key → ℕ → ℕ → Option (List ℕ) → Outcome Fields × Option (List ℕ)
    unfolding prepare archive
    create_backup state audit_key max_bytes now output =
        write_new (prepare state audit_key max_bytes now) output
