-- ===== src/Backup/Validation.antt =====
-- `_regular_files` and `_validate_state` of state_tool.py.
use sigil_pi.Prelude.{
  ℕ, String, Bool, true, false, not, ◌&&◌, ◌||◌, Option, none, some, List, [], ◌∷◌, str_eq,
  if◌then◌else◌,
}
use sigil_pi.Prelude.Dict.{Dict}
use sigil_pi.Agent.Bytes.{bytes}
use sigil_pi.Agent.Json.{Json, array, object, Fields, lookup}
use sigil_pi.Audit.Chain.{Record, Hashing, is_number}
use sigil_pi.Audit.Reader.{Report, verify_audit_dir}
use sigil_pi.Backup.{
  Outcome, ok, refused, raised, ◌>>=◌, ◌>>◌, guard, Node, regular, symlink, directory, special,
  Tree, Parsed, parsed, malformed, undecodable, Host, below, is_below, first_part, node_at,
}
use sigil_pi.Backup.Registry.{ends_with, validate_quota_database}

-- The walk over a root: neither links nor special files.
unfoldable pub check_below : String → Tree → Outcome (Unit {0})
check_below root [] = ok tt
check_below root ((path, node) ∷ rest) =
    let others = check_below root rest in
    if is_below root path
    then elim node [
      | symlink ↦ refused "state backup refuses symlink"
      | special ↦ refused "state backup refuses special file"
      | _ ↦ others
    ]
    else others

abbrev pub check_root : String → Option Node → Tree → Outcome (Unit {0})
check_root root none tree = ok tt
check_root root (some directory) tree = check_below root tree
check_root root (some _) tree = refused "state surface is not a real directory"

abbrev pub check_file : String → Option Node → Outcome (Unit {0})
check_file message none = ok tt
check_file message (some (regular content)) = ok tt
check_file message (some _) = refused message

-- The whole of `_regular_files` but the selection.
unfoldable pub check_surfaces : Tree → Outcome (Unit {0})
unfolding check_below node_at
check_surfaces tree = do
  check_root "sessions" (node_at "sessions" tree) tree
  check_root "sandboxes" (node_at "sandboxes" tree) tree
  check_root "audit" (node_at "audit" tree) tree
  check_file "product-schedules.json must be a regular file" (node_at "product-schedules.json" tree)
  check_file "product-quotas.sqlite3 must be a regular file" (node_at "product-quotas.sqlite3" tree)

-- The JSON files with an end, directly in a directory, in order: `none` where one is a directory.
unfoldable pub globbed : String → String → Tree → List (Option (List ℕ))
unfolding first_part
globbed root end [] = []
globbed root end ((path, node) ∷ rest) =
    let others = globbed root end rest in
    elim (below root path) [
      | none ↦ others
      | some relative ↦
          let (part, more) = first_part relative in
          if ends_with end part
          then (if more then none else elim node [ regular content ↦ some content | _ ↦ none ])
            ∷ others
          else others
    ]

-- `content or default`
abbrev pub or_bytes : List ℕ → String → List ℕ
or_bytes [] default = bytes default
or_bytes (b ∷ bs) default = b ∷ bs

abbrev pub is_array : Json → Bool
is_array (array xs) = true
is_array _ = false

abbrev pub is_object : Json → Bool
is_object (object fields) = true
is_object _ = false

abbrev pub check_parsed : (Json → Bool) → String → String → Parsed → Outcome (Unit {0})
check_parsed wanted corrupt wrong (parsed v) = guard (wanted v) wrong
check_parsed wanted corrupt wrong malformed = refused corrupt
check_parsed wanted corrupt wrong undecodable = raised

module _ (host : Host) where
  -- What a backup keeps.
  abbrev pub is_kept : String → Bool
  is_kept path =
      (is_below "sessions" path && str_eq (host.suffix path) ".kv")
      || (is_below "audit" path && str_eq (host.suffix path) ".jsonl")
      || is_below "sandboxes" path
      || str_eq path "product-schedules.json"
      || str_eq path "product-quotas.sqlite3"

  unfoldable pub kept_files : Tree → Dict (List ℕ)
  kept_files [] = []
  kept_files ((path, node) ∷ rest) =
      let others = kept_files rest in
      elim node [
        | regular content ↦ if is_kept path then (path, content) ∷ others else others
        | _ ↦ others
      ]

  unfoldable pub regular_files : Tree → Outcome (Dict (List ℕ))
  unfolding check_surfaces kept_files
  regular_files tree = check_surfaces tree >> ok (kept_files tree)

  -- The chains of the audit directory, by their names.
  unfoldable pub audit_files : Tree → Dict (List ℕ)
  unfolding first_part
  audit_files [] = []
  audit_files ((path, node) ∷ rest) =
      let others = audit_files rest in
      elim (below "audit" path) [
        | none ↦ others
        | some relative ↦
            let (part, more) = first_part relative in
            elim node [
              | regular content ↦
                  if ends_with ".jsonl" part && not more
                  then (part, host.decode content) ∷ others
                  else others
              | _ ↦ others
            ]
      ]

  unfoldable pub check_conversations : List (Option (List ℕ)) → Outcome (Unit {0})
  check_conversations [] = ok tt
  check_conversations (none ∷ rest) = refused "conversation state is corrupt"
  check_conversations (some content ∷ rest) = do
    check_parsed is_array "conversation state is corrupt" "conversation state is not a message list"
        (host.loads (or_bytes content "[]"))
    check_conversations rest

  unfoldable pub check_schedules : Option Node → Outcome (Unit {0})
  check_schedules none = ok tt
  check_schedules (some (regular content)) =
      check_parsed is_object "schedule state is corrupt" "schedule state is not an object"
        (host.loads (or_bytes content "{}"))
  check_schedules (some _) = refused "schedule state is corrupt"

  module _ {Bytes Key : Type 0} (H : Hashing Bytes Key) (line : List ℕ → Option Record) where
    abbrev pub read_marker : Parsed → Outcome Fields
    read_marker malformed = refused "clean-shutdown marker is invalid"
    read_marker undecodable = raised
    read_marker (parsed (object fields)) =
        guard (is_number H (lookup "schema_version" fields) 1)
          "clean-shutdown marker schema is unsupported"
        >> ok fields
    read_marker (parsed _) = raised

    unfoldable pub clean_marker : Option Node → Outcome Fields
    clean_marker (some (regular content)) = read_marker (host.loads content)
    clean_marker _ = refused "state has no clean-shutdown marker; drain the product service first"

    unfoldable pub validate_state : Tree → Key → Outcome (Fields × Report)
    unfolding clean_marker check_conversations check_schedules validate_quota_database globbed
        audit_files
    validate_state tree key = do
      marker ← clean_marker (node_at ".product-clean-shutdown.json" tree)
      check_conversations (globbed "sessions" ".kv" tree)
      check_schedules (node_at "product-schedules.json" tree)
      validate_quota_database host tree
      let report = verify_audit_dir line H (some key) (audit_files tree)
      guard report.is_ok "audit verification failed"
      ok (marker, report)
