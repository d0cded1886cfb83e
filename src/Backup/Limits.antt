-- ===== src/Backup/Limits.antt =====
-- Where the limits of a backup and of its restoration do not agree, and which files end a backup.
use Prim.Native.String.{◌++◌ as ◌<>◌}
use sigil_pi.Prelude.{
  ℕ, not, ◌==◌, suc, ◌+◌, ◌≤◌, ◌<◌, ◌≡◌, ◌≢◌, refl, arith, String, true, Option, none, some, List,
  [], ◌∷◌, ◌++◌, ◌⊎◌, inl, inr, length, leb, le→leb, leb→le, sum_by, str_eq, Each, Bool-cases,
}
use sigil_pi.Prelude.Dict.{Dict, get, put, put-fresh}
use sigil_pi.Agent.Json.{Fields, object}
use sigil_pi.Audit.Chain.{Record, Hashing}
use sigil_pi.Audit.Reader.{Report}
use sigil_pi.Backup.{
  Outcome, ok, refused, raised, guard, Ensures, of_ok, of_raised, Ensures-bind, Ensures-map,
  Ensures-at, Tree, Member, Host,
}
use sigil_pi.Backup.Validation.{kept_files, regular_files, validate_state}
use sigil_pi.Backup.Create.{
  Payloads, member, file_member, file_members, archive, state_file_bytes, payloads, key_of,
  manifest, prepare, write_new, create_backup,
}
use sigil_pi.Backup.Restore.{collect_members, members, has_key, extract, restore_backup}
use sigil_pi.Backup.Reading.{IsFlat, IsPlain, Fresh, Fresh-append}
use sigil_pi.Backup.RoundTrip.{IsReadable, written, read_back, Fresh-manifest, length-file_members}

abbrev pub too_large : String
too_large = "backup exceeds the configured restore size limit"

module _ (host : Host) where
  collect_members_over :
      (max_bytes total : ℕ) (d : Dict Member) (fs : Payloads)
      → Each (λ f. IsPlain host f.0) fs
      → IsFlat fs
      → Fresh host d fs
      → total ≤ max_bytes
      → max_bytes < total + sum_by (λ f. length f.1) fs
      → collect_members host max_bytes total d (file_members host fs) ≡ refused too_large
  unfolding collect_members file_members
  collect_members_over max_bytes total d [] plain flat fresh within over = absurd (omega arith)
  collect_members_over max_bytes total d ((p, content) ∷ fs) (first, plain) (apart, flat)
        (absent, fresh) within over =
      elim (Bool-cases (leb (total + length content) max_bytes)) [
        | inr full ↦ rw (first.1.1, has_key, absent, full) refl
        | inl room ↦
            let m = file_member host p content in
            rw (first.1.1, has_key, absent, room, put-fresh ("data/" <> p) m d absent)
              (collect_members_over max_bytes (total + length content) (d ++ ("data/" <> p, m) ∷ [])
                fs plain flat (Fresh-append host d p m fs apart fresh) (leb→le _ _ room)
                (omega arith))
      ]

  members_over :
      (fs : Payloads) (fields : Fields) (max_bytes larger : ℕ)
      → IsReadable host fs fields larger
      → max_bytes < length (host.dumps (object fields)) + sum_by (λ f. length f.1) fs
      → members host max_bytes (archive host fs fields) ≡ refused too_large
  unfolding members archive collect_members put get
  members_over fs fields max_bytes larger r over =
      let n = length (host.dumps (object fields)) in
      let m = member host "manifest.json" (host.dumps (object fields)) in
      let from_zero : 0 + n ≡ n = omega arith in
      let enough : leb (suc (length (file_members host fs))) 1000000 ≡ true =
        le→leb (suc (length (file_members host fs))) 1000000
          (omega (arith, r.few, length-file_members host fs)) in
      elim (Bool-cases (leb n max_bytes)) [
        | inr full ↦ rw (enough, r.manifest_plain.1, has_key, from_zero, full) refl
        | inl room ↦
            rw (enough, r.manifest_plain.1, has_key, from_zero, room)
              (collect_members_over max_bytes n (("manifest.json", m) ∷ []) fs r.plain r.flat
                (Fresh-manifest host m fs) (leb→le _ _ room) over)
      ]

  module _ {Bytes Key : Type 0} (H : Hashing Bytes Key) (line : List ℕ → Option Record) where
    -- The limit of a backup counts the files, that of a restoration also the manifest: where the files are
    -- within the limit and the manifest takes them past it, the backup is written, and no restoration with
    -- the same limit takes it.
    pub restore_over_limit :
        (state : Option Tree) (key : Key) (max_bytes larger now now' : ℕ) (fs : Payloads)
        (fields : Fields)
        → prepare host H line state (some key) max_bytes now ≡ ok (fs, fields)
        → IsReadable host fs fields larger
        → host.unpack (host.pack (archive host fs fields)) ≡ some (archive host fs fields)
        → 0 < max_bytes
        → max_bytes < length (host.dumps (object fields)) + sum_by (λ f. length f.1) fs
        → (backup : List ℕ) × (create_backup host H line state (some key) max_bytes now none
            ≡ (ok fields, some backup))
          × (restore_backup host H line backup none (some key) max_bytes now'
              ≡ (refused too_large, none))
    unfolding restore_backup extract
    restore_over_limit state key max_bytes larger now now' fs fields prepared r unpacked positive
          over =
        (
          host.pack (archive host fs fields),
          written host H line state (some key) max_bytes now fs fields prepared,
          rw
              (
                read_back host H line fs fields key max_bytes now' unpacked positive,
                members_over fs fields max_bytes larger r over,
              )
              refl,
        )

-- A file with its content.
abbrev pub Has : String → List ℕ → Payloads → Type 0
Has path content [] = ⊥
Has path content ((p, c) ∷ rest) = ((p ≡ path) × (c ≡ content)) ⊎ Has path content rest

module _ (host : Host) (path : String) (content : List ℕ)
    (same_name : str_eq (host.name path) "product-quotas.sqlite3" ≡ true)
    (no_database : host.snapshot content ≡ none) where
  state_file_bytes_foreign : state_file_bytes host path content ≡ raised
  unfolding state_file_bytes
  state_file_bytes_foreign = rw (same_name, no_database) refl

  payloads_foreign :
      (max_bytes total : ℕ) (fs : Payloads)
      → Has path content fs
      → Ensures (λ r. ⊥) (payloads host max_bytes total fs)
  unfolding payloads
  payloads_foreign max_bytes total [] h = absurd h
  payloads_foreign max_bytes total ((p, c) ∷ fs) (inl (is_path, is_content)) =
      rw (is_path, is_content, state_file_bytes_foreign) of_raised
  payloads_foreign max_bytes total ((p, c) ∷ fs) (inr later) =
      let never : (t : ℕ) (others saved : Payloads)
          → payloads host max_bytes t fs ≡ ok others
          → Ensures (λ (r : Payloads). ⊥) (ok saved) =
        λ t others saved e.
          absurd
            (Ensures-at (λ (r : Payloads). ⊥) _ others (payloads_foreign max_bytes t fs later) e) in
      search (Ensures-bind (λ (r : Payloads). ⊥), never) depth 8

  module _ {Bytes Key : Type 0} (H : Hashing Bytes Key) (line : List ℕ → Option Record) where
    module _ (tree : Tree) (max_bytes : ℕ) where
      -- The files of the tree are what is saved.
      abbrev Saves : Payloads × Fields → Type 0
      Saves r = payloads host max_bytes 0 (kept_files host tree) ≡ ok r.0

      saved-Saves :
          (files contents : Payloads) (marker : Fields) (report : Report) (now : ℕ)
          → regular_files host tree ≡ ok files
          → payloads host max_bytes 0 files ≡ ok contents
          → Ensures Saves (ok (contents, manifest host contents marker report now))
      unfolding regular_files
      saved-Saves files contents marker report now are_files saved =
          let same : kept_files host tree ≡ files = ground (arith, are_files) in
          of_ok _ (rw same saved)

      prepare-Saves :
          (key : Option Key) (now : ℕ)
          → Ensures Saves (prepare host H line (some tree) key max_bytes now)
      unfolding prepare
      prepare-Saves key now = Ensures-bind Saves (key_of host H line key) _ (λ used _.
          Ensures-bind Saves (guard (not (max_bytes == 0)) "max_bytes must be positive") _
            (λ positive _. Ensures-bind Saves (regular_files host tree) _ (λ files are_files.
              Ensures-bind Saves (validate_state host H line tree used) _ (λ checked _.
                Ensures-bind Saves (payloads host max_bytes 0 files) _ (λ contents saved.
                  saved-Saves files contents checked.0 checked.1 now are_files saved)))))

    prepare_foreign :
        (tree : Tree) (key : Option Key) (max_bytes now : ℕ)
        → Has path content (kept_files host tree)
        → Ensures (λ r. ⊥) (prepare host H line (some tree) key max_bytes now)
    prepare_foreign tree key max_bytes now here =
        Ensures-map _
          (λ r saved.
            Ensures-at (λ (x : Payloads). ⊥) _ r.0
              (payloads_foreign max_bytes 0 (kept_files host tree) here) saved)
          (prepare-Saves tree max_bytes key now)

    write_new_failed :
        (r : Outcome (Payloads × Fields)) (output : Option (List ℕ))
        → Ensures (λ x. ⊥) r
        → ((write_new host H line r output).1 ≡ output)
          × ((fields : Fields) → (write_new host H line r output).0 ≢ ok fields)
    write_new_failed (ok x) output (of_ok _ h) = absurd h
    write_new_failed (refused message) output h = (refl, λ fields e. cc)
    write_new_failed raised output h = (refl, λ fields e. cc)

    -- A file of the state, in a sandbox too, that has the name of the quota database and is no database: no
    -- backup of this state is ever made, and what is at the output stays.
    pub create_backup_foreign :
        (tree : Tree) (key : Option Key) (max_bytes now : ℕ) (output : Option (List ℕ))
        → Has path content (kept_files host tree)
        → ((create_backup host H line (some tree) key max_bytes now output).1 ≡ output)
          × ((fields : Fields)
              → (create_backup host H line (some tree) key max_bytes now output).0 ≢ ok fields)
    unfolding create_backup
    create_backup_foreign tree key max_bytes now output here =
        write_new_failed _ output (prepare_foreign tree key max_bytes now here)
