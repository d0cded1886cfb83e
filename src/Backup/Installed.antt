-- ===== src/Backup/Installed.antt =====
-- What a restoration installs, and that it overwrites nothing.
use sigil_pi.Prelude.{ℕ, ◌≡◌, refl, Option, none, some, List}
use sigil_pi.Agent.Json.{Fields}
use sigil_pi.Audit.Chain.{Record, Hashing}
use sigil_pi.Audit.Reader.{Report}
use sigil_pi.Backup.Declared.{IsExtracted, extract-IsExtracted}
use sigil_pi.Backup.{
  Outcome, ok, refused, raised, Ensures, of_ok, of_refused, Ensures-bind, Ensures-map, Ensures-at,
  Tree, Member, Host,
}
use sigil_pi.Backup.Create.{key_of}
use sigil_pi.Backup.Validation.{validate_state}
use sigil_pi.Backup.Restore.{install, unpacked, write, extract, finish, restored, restore_backup}

module _ (host : Host) {Bytes Key : Type 0} (H : Hashing Bytes Key)
    (line : List ℕ → Option Record) where
  -- A tree that is installed: the files of the archive, all of them, with the marker, and it is valid.
  pub record IsInstalled (max_bytes : ℕ) (backup : List ℕ) (audit_key : Option Key)
      (r : Fields × Tree) : Type 0 where
    pub archive : List Member
    pub key : Key
    pub files : Tree
    pub marker : List ℕ
    pub report : Fields × Report
    pub is_key : audit_key ≡ some key
    pub is_archive : host.unpack backup ≡ some archive
    pub is_extracted : IsExtracted host H line max_bytes archive (r.0, files)
    pub is_marked : write ".product-clean-shutdown.json" marker files ≡ ok r.1
    pub is_valid : validate_state host H line r.1 key ≡ ok report

  key_of-some : (o : Option Key) (key : Key) → key_of host H line o ≡ ok key → o ≡ some key
  key_of-some none key h = cc
  key_of-some (some k) key h = cc

  unpacked-some :
      (o : Option (List Member)) (archive : List Member)
      → unpacked host H line o ≡ ok archive
      → o ≡ some archive
  unpacked-some none archive h = cc
  unpacked-some (some a) archive h = cc

  module _ (max_bytes : ℕ) (backup : List ℕ) (audit_key : Option Key) where
    installed :
        (archive : List Member) (key : Key) (fields : Fields) (tree marked : Tree) (marker : List ℕ)
        (report : Fields × Report)
        → key_of host H line audit_key ≡ ok key
        → unpacked host H line (host.unpack backup) ≡ ok archive
        → extract host H line max_bytes archive ≡ ok (fields, tree)
        → write ".product-clean-shutdown.json" marker tree ≡ ok marked
        → validate_state host H line marked key ≡ ok report
        → Ensures (IsInstalled max_bytes backup audit_key) (ok (fields, marked))
    installed archive key fields tree marked marker report is_key is_archive is_extracted is_marked
          is_valid =
        of_ok _ record {
          archive = archive;
          key = key;
          files = tree;
          marker = marker;
          report = report;
          is_key = key_of-some _ key is_key;
          is_archive = unpacked-some _ archive is_archive;
          is_extracted =
              Ensures-at (IsExtracted host H line max_bytes archive) _ (fields, tree)
                (extract-IsExtracted host H line max_bytes archive) is_extracted;
          is_marked = is_marked;
          is_valid = is_valid;
        }

    finish-IsInstalled :
        (archive : List Member) (now : ℕ) (r : Fields × Tree)
        → unpacked host H line (host.unpack backup) ≡ ok archive
        → extract host H line max_bytes archive ≡ ok r
        → Ensures (IsInstalled max_bytes backup audit_key) (finish host H line audit_key now r)
    unfolding finish
    finish-IsInstalled archive now r is_archive is_extracted =
        search (Ensures-bind (IsInstalled max_bytes backup audit_key), installed) depth 12

    restored-IsInstalled :
        (now : ℕ)
        → Ensures
            (IsInstalled max_bytes backup audit_key)
            (restored host H line backup none audit_key max_bytes now)
    unfolding restored
    restored-IsInstalled now =
        search (Ensures-bind (IsInstalled max_bytes backup audit_key), finish-IsInstalled) depth 12

    restored_over :
        (tree : Tree) (now : ℕ)
        → Ensures (λ r. ⊥) (restored host H line backup (some tree) audit_key max_bytes now)
    unfolding restored
    restored_over tree now = search (Ensures-bind (λ (r : Fields × Tree). ⊥), of_refused) depth 12

    abbrev pub Installs : Option Tree → Outcome Fields × Option Tree → Type 0
    Installs target (ok fields, after) =
        (target ≡ none)
        × ((tree : Tree) × (after ≡ some tree)
            × IsInstalled max_bytes backup audit_key (fields, tree))
    Installs target (_, after) = after ≡ target

    install-Installs :
        (target : Option Tree) (r : Outcome (Fields × Tree))
        → Ensures (λ x. (target ≡ none) × IsInstalled max_bytes backup audit_key x) r
        → Installs target (install host H line target r)
    install-Installs target (ok (fields, tree)) (of_ok _ (free, is_installed)) =
        (free, (tree, refl, is_installed))
    install-Installs target (refused message) h = refl
    install-Installs target raised h = refl

    -- A restoration that fails leaves the target as it was. One that succeeds found no target, and the
    -- target is then the files of the archive and the marker: each file is declared by the manifest, at a
    -- path that is safe, with the content that the archive has for it and the checksum; each file that the
    -- manifest declares and each data member of the archive is there; and the whole is valid under the key.
    pub restore_backup_lem :
        (target : Option Tree) (now : ℕ)
        → Installs target (restore_backup host H line backup target audit_key max_bytes now)
    unfolding restore_backup
    restore_backup_lem none now =
        install-Installs none _ (Ensures-map _ (λ r h. (refl, h)) (restored-IsInstalled now))
    restore_backup_lem (some tree) now =
        install-Installs (some tree) _ (Ensures-map _ (λ r h. absurd h) (restored_over tree now))
