-- ===== src/Product/Data.antt =====
-- `ProductDataManager` of product_service.py: footprint, export, deletion, and the check of the
-- files against the quota registry. The files are their contents by their stems; a sandbox holds its
-- paths in order. What is done under a session's lock is one step. Times are in microseconds.
pub mod Attribution
pub mod Deletion
mod Tests
use sigil_pi.Prelude.{
  ℕ, ◌+◌, max, String, Bool, true, false, not, ◌||◌, ◌&&◌, Option, none, some, List, [], ◌∷◌, any,
  all, map, ltb, leb, ◌==◌, str_eq, if◌then◌else◌,
}
use sigil_pi.Prelude.Dict.{Dict, get, put, without}
use sigil_pi.Agent.Json.{Json, string}
use sigil_pi.Product.Errors.{ProductError, Reply, ok, err}
use sigil_pi.Product.Requests.{validate_session}
use sigil_pi.Product.Quota.{Db}
use sigil_pi.Product.Quota.Turns.{remove_session_usage}
use sigil_pi.Product.Quota.Reconcile.{Footprint, Registered}
use sigil_pi.Product.Schedules.{Entry, remove_session, internal_session_of}
use sigil_pi.Product.Service.{Shown}
use sigil_pi.Product.Service.Paths.{first_chars}
use sigil_pi.Product.Service.Dispatch.{for_tenant}

-- A file with its JSON value, as `load` and `read` give it.
pub record JsonFile : Type 0 where
  pub size : ℕ
  pub mtime : ℕ
  pub content : Json

-- What a path of a sandbox is: a file of `size` bytes, a link, or else.
pub data Node : Type 0 where
  regular : ℕ → ℕ → List ℕ → Node
  symlink directory : Node

pub record Files : Type 0 where
  pub conversations : Dict JsonFile
  pub sandboxes : Dict (Dict Node)
  pub audits : Dict JsonFile

pub record Stored : Type 0 where
  pub files : Files
  pub schedules : Dict Entry
  pub db : Db

abbrev pub exists_in {ℓ} : {V : Type ℓ} → String → Dict V → Bool
exists_in name d = elim (get name d) [ none ↦ false | some v ↦ true ]

abbrev pub size_in : Option JsonFile → ℕ
size_in none = 0
size_in (some f) = f.size

abbrev pub mtime_in : Option JsonFile → ℕ
mtime_in none = 0
mtime_in (some f) = f.mtime

abbrev pub nodes_in : Option (Dict Node) → Dict Node
nodes_in none = []
nodes_in (some nodes) = nodes

-- The walk over a sandbox: no link is followed or counted.
unfoldable pub walk : Dict Node → ℕ × ℕ → ℕ × ℕ
walk [] sums = sums
walk ((path, regular size mtime raw) ∷ rest) (bytes, activity) =
    walk rest (bytes + size, max activity mtime)
walk ((path, symlink) ∷ rest) sums = walk rest sums
walk ((path, directory) ∷ rest) sums = walk rest sums

pub record Deleted : Type 0 where
  pub conversation : Bool
  pub sandbox : Bool
  pub audit : Bool
  pub schedules : ℕ

pub record Export : Type 0 where
  pub session : String
  pub conversation : Option Json
  pub files : List (String × List ℕ)
  pub schedules : List Shown
  pub audit : Option Json

abbrev pub content_in : Option JsonFile → Option Json
content_in none = none
content_in (some f) = some f.content

abbrev pub session_not_found : ProductError
session_not_found = record {
  status = 404;
  code = "session_not_found";
  message = "session not found";
  retry_after = none;
}

abbrev pub unsafe_session_data : ProductError
unsafe_session_data = record {
  status = 409;
  code = "unsafe_session_data";
  message = "session sandbox contains an unsupported symlink";
  retry_after = none;
}

abbrev pub export_too_large : ProductError
export_too_large = record {
  status = 413;
  code = "export_too_large";
  message = "session export exceeds the configured limit";
  retry_after = none;
}

-- The loop over a sandbox: the files with the total of the bytes.
unfoldable pub collect : ℕ → Dict Node → ℕ → Reply (List (String × List ℕ) × ℕ)
collect max_bytes [] total = ok ([], total)
collect max_bytes ((path, symlink) ∷ rest) total = err unsafe_session_data
collect max_bytes ((path, directory) ∷ rest) total = collect max_bytes rest total
collect max_bytes ((path, regular size mtime raw) ∷ rest) total =
    let after = collect max_bytes rest (total + size) in
    if ltb max_bytes (total + size)
    then err export_too_large
    else elim after [ err e ↦ err e | ok (files, sum) ↦ ok ((path, raw) ∷ files, sum) ]

abbrev pub of_external : String → List Shown → List Shown
of_external session [] = []
of_external session (s ∷ rest) =
    let after = of_external session rest in if str_eq s.session session then s ∷ after else after

abbrev pub is_empty {ℓ} : {A : Type ℓ} → List A → Bool
is_empty [] = true
is_empty (x ∷ xs) = false

abbrev pub all_among {ℓ} : {V : Type ℓ} → List String → Dict V → Bool
all_among names d = all (λ p. any (str_eq p.0) names) d

abbrev pub found_any : Deleted → Bool
found_any d = d.conversation || d.sandbox || d.audit || not (d.schedules == 0)

module _ (digest : String → String) where
  -- `_paths`: the stems of the files of a session.
  abbrev pub stem : String → String
  stem internal = digest internal

  abbrev pub short_stem : String → String
  short_stem internal = first_chars 16 (digest internal)

  unfoldable pub footprint : Files → String → Footprint
  unfolding walk
  footprint files internal =
      let conversation = get (stem internal) files.conversations in
      let audit = get (stem internal) files.audits in
      let (bytes, activity) =
        walk (nodes_in (get (short_stem internal) files.sandboxes))
          (size_in conversation, mtime_in conversation) in
      record {
        storage_bytes = bytes;
        audit_bytes = size_in audit;
        last_activity_unix = max activity (mtime_in audit);
      }

  abbrev pub unlink_conversation : String → Files → Files
  unlink_conversation internal files = record files {
    conversations = without (stem internal) files.conversations;
  }

  abbrev pub remove_sandbox : String → Files → Files
  remove_sandbox internal files = record files {
    sandboxes = without (short_stem internal) files.sandboxes;
  }

  abbrev pub unlink_audit : String → Files → Files
  unlink_audit internal files = record files { audits = without (stem internal) files.audits }

  unfoldable pub delete_internal_files : String → Files → Files
  delete_internal_files internal files =
      unlink_audit internal (remove_sandbox internal (unlink_conversation internal files))

  -- Whether all files belong to registered sessions; if not, a `ConfigError` is raised.
  unfoldable pub verify_quota_registry : List String → Files → Bool
  verify_quota_registry internals files =
      all_among (map stem internals) files.conversations
      && all_among (map stem internals) files.audits
      && all_among (map short_stem internals) files.sandboxes

  -- Under the lock: the schedules and the files are deleted before anything is answered.
  unfoldable pub delete_locked : Bool → String → String → Stored → Reply Deleted × Stored
  unfolding delete_internal_files
  delete_locked has_quota tenant_id session s =
      let internal = internal_session_of digest tenant_id session in
      let (count, schedules) = remove_session digest tenant_id session s.schedules in
      let deleted : Deleted = record {
        conversation = exists_in (stem internal) s.files.conversations;
        sandbox = exists_in (short_stem internal) s.files.sandboxes;
        audit = exists_in (stem internal) s.files.audits;
        schedules = count;
      } in
      let files = delete_internal_files internal s.files in
      let db = if has_quota then remove_session_usage digest tenant_id internal s.db else s.db in
      if found_any deleted
      then (ok deleted, record { schedules = schedules; files = files; db = db })
      else (err session_not_found, record s { schedules = schedules; files = files })

  unfoldable pub delete : (String → ℕ) → Bool → String → String → Stored → Reply Deleted × Stored
  unfolding delete_locked
  delete encoded_len has_quota tenant_id session s =
      elim (validate_session encoded_len (string session)) [
        | err e ↦ (err e, s)
        | ok name ↦ delete_locked has_quota tenant_id name s
      ]

  abbrev pub within_limit : ℕ → Export → Reply (List (String × List ℕ) × ℕ) → Reply Export
  within_limit max_bytes x (err e) = err e
  within_limit max_bytes x (ok (files, sum)) =
      if ltb max_bytes sum then err export_too_large else ok (record x { files = files })

  -- `dumped` is the length of a value's JSON text, at `none` that of the empty list.
  unfoldable pub export_locked : (Option Json → ℕ) → ℕ → String → String → Stored → Reply Export
  unfolding collect for_tenant
  export_locked dumped max_bytes tenant_id session s =
      let internal = internal_session_of digest tenant_id session in
      let conversation = get (stem internal) s.files.conversations in
      let sandbox = get (short_stem internal) s.files.sandboxes in
      let audit = get (stem internal) s.files.audits in
      let shown = of_external session (for_tenant (digest tenant_id) s.schedules) in
      let total = dumped (content_in conversation) + dumped (content_in audit) in
      let exported : Export = record {
        session = session;
        conversation = content_in conversation;
        files = [];
        schedules = shown;
        audit = content_in audit;
      } in
      if exists_in (stem internal) s.files.conversations
        || exists_in (short_stem internal) s.files.sandboxes
        || exists_in (stem internal) s.files.audits
        || not (is_empty shown)
      then within_limit max_bytes exported (collect max_bytes (nodes_in sandbox) total)
      else err session_not_found

  unfoldable pub export :
      (String → ℕ) → (Option Json → ℕ) → ℕ → String → String → Stored → Reply Export
  unfolding export_locked
  export encoded_len dumped max_bytes tenant_id session s =
      elim (validate_session encoded_len (string session)) [
        | err e ↦ err e
        | ok name ↦ export_locked dumped max_bytes tenant_id name s
      ]
