-- ===== src/Backup/Tests.antt =====
-- A state with its schedules and its quota database, backed up and restored.
use sigil_pi.Prelude.{
  ℕ, ◌≡◌, ◌≢◌, refl, arith, String, true, false, Option, none, some, inl, inr, List, [], ◌∷◌,
  str_eq, if◌then◌else◌, ◌==◌,
}
use sigil_pi.Prelude.Dict.{get}
use sigil_pi.Agent.Json.{
  Json, null, integer, pos, string, array, object, nil, cons, Fields, end, field,
}
use sigil_pi.Audit.Chain.{Record, Hashing}
use sigil_pi.Audit.Reader.{verify_audit_dir}
use sigil_pi.Backup.{
  ok, refused, PosixPath, regular, Tree, Parsed, parsed, malformed, Member, QuotaDb, Host,
  safe_relative_text,
}
use sigil_pi.Backup.Validation.{kept_files}
use sigil_pi.Backup.Create.{Payloads, archive, count, prepare, create_backup}
use sigil_pi.Backup.Restore.{restore_backup, install, finish}
use sigil_pi.Backup.Reading.{nodes}
use sigil_pi.Backup.RoundTrip.{IsReadable, restore_created}
use sigil_pi.Backup.Installed.{Installs, restore_backup_lem}
use sigil_pi.Backup.Limits.{too_large, Has, restore_over_limit, create_backup_foreign}
use sigil_pi.Backup.Managed.{Directory, prune_managed_backups}
use sigil_pi.Backup.Expiry.{IsPruned, prune_managed_backups_lem}

abbrev hashing : Hashing ℕ ℕ
hashing = record {
  canonical = λ r. 0;
  sha256 = λ b. "h";
  hmac = λ k s. "m";
  float_is = λ literal n. false;
}

abbrev database : QuotaDb
database = record {
  quick_check = true;
  tables = "request_windows" ∷ "turn_leases" ∷ "token_windows" ∷ "session_usage" ∷ [];
  turn_leases = 0;
  tokens = [];
  usage = [];
}

abbrev manifest_entry : String → Json
manifest_entry path =
    object (
      field "path" (string path) (field "sha256" (string "h") (field "size" (integer (pos 1)) end)))

abbrev saved : Fields
saved = field "audit_chains" (count 0) (
    field "audit_records" (count 0) (
      field "clean_shutdown_unix" null (
        field "created_unix" (count 5) (
          field "files"
            (array (
              cons (manifest_entry "product-quotas.sqlite3")
                (cons (manifest_entry "product-schedules.json") nil)))
            (field "product_version" null (field "schema_version" (count 1) end))))))

abbrev plain_member : String → List ℕ → Member
plain_member name content = record {
  name = name;
  is_regular = true;
  size = pos 1;
  content = content;
}

abbrev members : List Member
members =
    plain_member "manifest.json" (1 ∷ [])
    ∷ plain_member "data/product-quotas.sqlite3" (9 ∷ [])
    ∷ plain_member "data/product-schedules.json" (3 ∷ [])
    ∷ []

abbrev loads : List ℕ → Parsed
loads [] = malformed
loads (b ∷ bs) =
    if b == 1
    then parsed (object saved)
    else if b == 2
    then parsed (object (field "schema_version" (count 1) end))
    else parsed (object end)

abbrev dumps : Json → List ℕ
dumps (object (field key v rest)) = if str_eq key "audit_chains" then 1 ∷ [] else 2 ∷ []
dumps _ = []

-- A snapshot of anything but 8 is what it is.
abbrev snapshot : List ℕ → Option (List ℕ)
snapshot [] = some []
snapshot (b ∷ bs) = if b == 8 then none else some (b ∷ bs)

abbrev host : Host
host = record {
  posix = λ p. record { is_absolute = false; parts = p ∷ []; as_posix = p };
  name = λ p. if str_eq p "sandboxes/s/product-quotas.sqlite3" then "product-quotas.sqlite3" else p;
  suffix = λ p. "";
  stem = λ p. p;
  decode = λ b. b;
  loads = loads;
  dumps = dumps;
  sha256 = λ b. "h";
  sha256_text = λ s. s;
  open_db = λ b. some database;
  snapshot = snapshot;
  pack = λ ms. 7 ∷ [];
  unpack = λ b. some members;
}

abbrev line : List ℕ → Option Record
line text = none

abbrev state : Tree
state =
    (".product-clean-shutdown.json", regular (2 ∷ []))
    ∷ ("product-quotas.sqlite3", regular (9 ∷ []))
    ∷ ("product-schedules.json", regular (3 ∷ []))
    ∷ []

abbrev files : Payloads
files = ("product-quotas.sqlite3", 9 ∷ []) ∷ ("product-schedules.json", 3 ∷ []) ∷ []

prepared : prepare host hashing line (some state) (some 1) 100 5 ≡ ok (files, saved)
unfolding prepare get verify_audit_dir
prepared = refl

abbrev path_of : String → PosixPath
path_of p = record { is_absolute = false; parts = p ∷ []; as_posix = p }

files-IsReadable : IsReadable host files saved 100
unfolding safe_relative_text
files-IsReadable = record {
  plain = (
    ((path_of "product-quotas.sqlite3", refl, refl), (path_of "data/product-quotas.sqlite3", refl)),
    (
      (
        (path_of "product-schedules.json", refl, refl),
        (path_of "data/product-schedules.json", refl),
      ),
      tt,
    ),
  );
  flat = (((refl, refl, refl, refl), tt), (tt, tt));
  manifest_plain = (path_of "manifest.json", refl);
  loads-dumps = refl;
  short = omega arith;
  few = omega arith;
  fits = omega arith;
}

archived : host.unpack (host.pack (archive host files saved)) ≡ some (archive host files saved)
unfolding archive
archived = refl

restore_created_example :
    (backup : List ℕ) × (create_backup host hashing line (some state) (some 1) 100 5 none
      ≡ (ok saved, some backup))
    × (restore_backup host hashing line backup none (some 2) 100 9
        ≡ install host hashing line none
            (finish host hashing line (some 2) 9 (saved, nodes host files)))
restore_created_example =
    restore_created host hashing line (some state) 1 2 100 100 5 9 files saved prepared
      files-IsReadable archived (omega arith)

-- The restored state is the one that was saved, with a new marker.
restored_state :
    (restore_backup host hashing line (7 ∷ []) none (some 2) 100 9).1
    ≡ some (
        ("product-quotas.sqlite3", regular (9 ∷ []))
        ∷ ("product-schedules.json", regular (3 ∷ []))
        ∷ (".product-clean-shutdown.json", regular (2 ∷ []))
        ∷ [])
unfolding restore_backup get verify_audit_dir
restored_state = refl

restore_backup_lem_example :
    Installs host hashing line 100
      (7 ∷ [])
      (some 2)
      none
      (restore_backup host hashing line (7 ∷ []) none (some 2) 100 9)
restore_backup_lem_example = restore_backup_lem host hashing line 100 (7 ∷ []) (some 2) none 9

prepared_2 : prepare host hashing line (some state) (some 1) 2 5 ≡ ok (files, saved)
unfolding prepare get verify_audit_dir
prepared_2 = refl

restore_over_limit_example :
    (backup : List ℕ) × (create_backup host hashing line (some state) (some 1) 2 5 none
      ≡ (ok saved, some backup))
    × (restore_backup host hashing line backup none (some 1) 2 9 ≡ (refused too_large, none))
restore_over_limit_example =
    restore_over_limit host hashing line (some state) 1 2 100 5 9 files saved prepared_2
      files-IsReadable archived (omega arith) (omega arith)

abbrev with_sandbox : Tree
with_sandbox =
    (".product-clean-shutdown.json", regular (2 ∷ []))
    ∷ ("product-quotas.sqlite3", regular (9 ∷ []))
    ∷ ("sandboxes/s/product-quotas.sqlite3", regular (8 ∷ []))
    ∷ []

sandbox-Has : Has "sandboxes/s/product-quotas.sqlite3" (8 ∷ []) (kept_files host with_sandbox)
unfolding kept_files
sandbox-Has = inr (inl (refl, refl))

create_backup_foreign_example :
    ((create_backup host hashing line (some with_sandbox) (some 1) 100 5 none).1 ≡ none)
    × ((fields : Fields)
        → (create_backup host hashing line (some with_sandbox) (some 1) 100 5 none).0 ≢ ok fields)
create_backup_foreign_example =
    create_backup_foreign host "sandboxes/s/product-quotas.sqlite3" (8 ∷ []) refl refl hashing line
      with_sandbox (some 1) 100 5 none sandbox-Has

abbrev digest : String
digest = "0000000000000000000000000000000000000000000000000000000000000000"

abbrev empty_manifest : Fields
empty_manifest =
    field "created_unix" (count 5)
      (field "files" (array nil) (field "schema_version" (count 1) end))

-- Each file of this host is a backup of nothing, made at 5.
abbrev managing : Host
managing = record host {
  sha256 = λ b. digest;
  unpack = λ b. some (plain_member "manifest.json" (1 ∷ []) ∷ []);
  loads = λ b. parsed (object empty_manifest);
}

abbrev old_name : String
old_name =
    "sigil-pi-state-0000000005-0000000000000000000000000000000000000000000000000000000000000000.tar.gz"

abbrev backups : Directory
backups =
    ("notes.txt", record { is_private = false; content = [] })
    ∷ (old_name, record { is_private = true; content = 7 ∷ [] })
    ∷ []

prune_removes : prune_managed_backups managing hashing line 100 50 60 backups ≡ (
  ok (record { name = old_name; sha256 = digest; created_unix = 5 } ∷ []),
  ("notes.txt", record { is_private = false; content = [] }) ∷ [],
)
unfolding prune_managed_backups get
prune_removes = refl

prune_managed_backups_lem_example :
    IsPruned managing hashing line 100 50 60 backups
      (prune_managed_backups managing hashing line 100 50 60 backups)
prune_managed_backups_lem_example =
    prune_managed_backups_lem managing hashing line 100 50 60 backups
