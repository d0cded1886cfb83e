-- ===== src/Backup/RoundTrip.antt =====
-- What a backup writes is what its restoration reads.
use Prim.Native.String.{◌++◌ as ◌<>◌}
use sigil_pi.Prelude.{
  ℕ, suc, ◌+◌, ◌≤◌, ◌<◌, ◌≡◌, refl, Each-map, Each-zip, le→leb, sum_by, ap, arith, String, true,
  false, Option, none, some, List, [], ◌∷◌, length, leb, ◌==◌, str_eq, any, Each, eq_iff, eq_refl,
}
use sigil_pi.Prelude.Dict.{Dict, get, put, without}
use sigil_pi.Agent.Json.{Fields, object, array, lookup}
use sigil_pi.Audit.Chain.{Record, Hashing}
use sigil_pi.Audit.Reader.{Report}
use sigil_pi.Backup.{
  ok, ◌>>=◌, Ensures, of_ok, Ensures-bind, Ensures-at, PosixPath, parsed, Tree, Member, Host,
  safe_relative_text,
}
use sigil_pi.Backup.Create.{
  Payloads, count, entries, member, file_member, file_members, archive, prepare, manifest,
  create_backup,
}
use sigil_pi.Backup.Restore.{
  collect_members, members, keys_in, has_key, extract, finish, restored, restore_backup, install,
  manifest_limit,
}
use sigil_pi.Backup.Reading.{
  IsFlat, IsPlain, nodes, named, names_onto, Found, Fresh, data_ne, data_name-inj,
  collect_members-file_members, restore_entries-entries,
}

ne_data : (p : String) → str_eq ("data/" <> p) "manifest.json" ≡ false
ne_data p =
    ground (
      arith,
      data_ne p,
      eq_iff "manifest.json" ("data/" <> p),
      eq_iff ("data/" <> p) "manifest.json",
    )

module _ (host : Host) where
  -- What a restoration relies on: the paths are those of one tree, pathlib and json read them as they were
  -- written, and the limits leave room for the manifest too.
  pub record IsReadable (fs : Payloads) (fields : Fields) (max_bytes : ℕ) : Type 0 where
    pub plain : Each (λ f. IsPlain host f.0) fs
    pub flat : IsFlat fs
    pub manifest_plain : (path : PosixPath) × (safe_relative_text host "manifest.json" ≡ ok path)
    pub loads-dumps : host.loads (host.dumps (object fields)) ≡ parsed (object fields)
    pub short : length (host.dumps (object fields)) ≤ manifest_limit
    pub few : length fs < 1000000
    pub fits : length (host.dumps (object fields)) + sum_by (λ f. length f.1) fs ≤ max_bytes

  Found-named : (fs : Payloads) → IsFlat fs → Found host (named host fs) fs
  unfolding get
  Found-named [] flat = tt
  Found-named ((p, content) ∷ fs) (apart, flat) = (
    rw (eq_refl ("data/" <> p)) refl,
    Each-zip fs (λ f away found. rw (data_name-inj p f.0 away.0) found) apart (Found-named fs flat),
  )

  without-named : (fs : Payloads) → without "manifest.json" (named host fs) ≡ named host fs
  unfolding without
  without-named [] = refl
  without-named ((p, content) ∷ fs) =
      rw (ne_data p) (ap (λ d. ("data/" <> p, file_member host p content) ∷ d) (without-named fs))

  any-names_onto :
      (name : String) (fs : Payloads) (names : List String)
      → any (str_eq name) names ≡ true
      → any (str_eq name) (names_onto host fs names) ≡ true
  any-names_onto name [] names h = h
  any-names_onto name ((p, content) ∷ fs) names h =
      any-names_onto name fs (("data/" <> p) ∷ names) (ground (arith, h))

  keys_in-named :
      (fs : Payloads) (names : List String)
      → keys_in (named host fs) (names_onto host fs names) ≡ true
  keys_in-named [] names = refl
  keys_in-named ((p, content) ∷ fs) names =
      rw
        (any-names_onto ("data/" <> p) fs (("data/" <> p) ∷ names)
          (rw (eq_refl ("data/" <> p)) refl))
        (keys_in-named fs (("data/" <> p) ∷ names))

  pub length-file_members : (fs : Payloads) → length (file_members host fs) ≡ length fs
  unfolding file_members
  length-file_members [] = refl
  length-file_members (f ∷ fs) = omega (arith, length-file_members fs)

  -- The members that the archive of a backup gives.
  read_members : (fs : Payloads) (fields : Fields) → Dict Member
  read_members fs fields =
      ("manifest.json", member host "manifest.json" (host.dumps (object fields))) ∷ named host fs

  pub Fresh-manifest : (m : Member) (fs : Payloads) → Fresh host (("manifest.json", m) ∷ []) fs
  unfolding get
  Fresh-manifest m [] = tt
  Fresh-manifest m ((p, content) ∷ fs) = (rw (data_ne p) refl, Fresh-manifest m fs)

  members-archive :
      (fs : Payloads) (fields : Fields) (max_bytes : ℕ)
      → IsReadable fs fields max_bytes
      → members host max_bytes (archive host fs fields) ≡ ok (read_members fs fields)
  unfolding members archive collect_members read_members put get
  members-archive fs fields max_bytes r =
      let m = member host "manifest.json" (host.dumps (object fields)) in
      let from_zero : 0 + length (host.dumps (object fields))
          ≡ length (host.dumps (object fields)) =
        omega arith in
      let room = le→leb (length (host.dumps (object fields))) max_bytes (omega (arith, r.fits)) in
      let enough : leb (suc (length (file_members host fs))) 1000000 ≡ true =
        le→leb (suc (length (file_members host fs))) 1000000
          (omega (arith, r.few, length-file_members fs)) in
      let rest =
        collect_members-file_members host max_bytes (length (host.dumps (object fields)))
          (("manifest.json", m) ∷ []) fs r.plain r.flat (Fresh-manifest m fs) r.fits in
      rw (enough, r.manifest_plain.1, has_key, from_zero, room) rest

  module _ {Bytes Key : Type 0} (H : Hashing Bytes Key) (line : List ℕ → Option Record) where
    extract-archive :
        (fs : Payloads) (fields : Fields) (max_bytes : ℕ)
        → IsReadable fs fields max_bytes
        → lookup "schema_version" fields ≡ some (count 1)
        → lookup "files" fields ≡ some (array (entries host fs))
        → extract host H line max_bytes (archive host fs fields) ≡ ok (fields, nodes host fs)
    unfolding extract read_members get without
    extract-archive fs fields max_bytes r schema files =
        let read =
          restore_entries-entries host H line (named host fs) [] [] fs r.plain r.flat
            (Found-named fs r.flat) (Each-map fs (λ f plain. refl) r.plain)
            (Each-map fs (λ f plain. (refl, refl)) r.plain) in
        rw
          (
            members-archive fs fields max_bytes r,
            le→leb (length (host.dumps (object fields))) manifest_limit r.short,
            r.loads-dumps,
            schema,
            files,
            without-named fs,
            read,
            keys_in-named fs [],
          )
          refl

    pub written :
        (state : Option Tree) (key : Option Key) (max_bytes now : ℕ) (fs : Payloads)
        (fields : Fields)
        → prepare host H line state key max_bytes now ≡ ok (fs, fields)
        → create_backup host H line state key max_bytes now none
          ≡ (ok fields, some (host.pack (archive host fs fields)))
    unfolding create_backup
    written state key max_bytes now fs fields prepared = rw prepared refl

    pub read_back :
        (fs : Payloads) (fields : Fields) (key : Key) (max_bytes now : ℕ)
        → host.unpack (host.pack (archive host fs fields)) ≡ some (archive host fs fields)
        → 0 < max_bytes
        → restored host H line (host.pack (archive host fs fields)) none (some key) max_bytes now
          ≡ (extract host H line max_bytes (archive host fs fields)
              >>= finish host H line (some key) now)
    unfolding restored
    read_back fs fields key max_bytes now unpacked positive =
        let nonzero : (max_bytes == 0) ≡ false = ground arith in rw (nonzero, unpacked) refl

    -- What the manifest says of itself.
    abbrev Describes : Payloads × Fields → Type 0
    Describes (fs, fields) =
        (lookup "schema_version" fields ≡ some (count 1))
        × (lookup "files" fields ≡ some (array (entries host fs)))

    manifest-Describes :
        (fs : Payloads) (marker : Fields) (report : Report) (now : ℕ)
        → Ensures Describes (ok (fs, manifest host fs marker report now))
    unfolding manifest
    manifest-Describes fs marker report now = of_ok _ (refl, refl)

    prepare-Describes :
        (state : Option Tree) (key : Option Key) (max_bytes now : ℕ)
        → Ensures Describes (prepare host H line state key max_bytes now)
    unfolding prepare
    prepare-Describes state key max_bytes now =
        search (Ensures-bind Describes, manifest-Describes) depth 12

    -- Of a state that can be backed up, where pathlib, json and tarfile read what was written and the
    -- limits leave room for the manifest: the backup is written, and its restoration, with whatever
    -- key, reads exactly the files that were saved; what is left to it is the marker, the validation of
    -- these files and their installation.
    pub restore_created :
        (state : Option Tree) (key key' : Key) (max_bytes max_bytes' now now' : ℕ) (fs : Payloads)
        (fields : Fields)
        → prepare host H line state (some key) max_bytes now ≡ ok (fs, fields)
        → IsReadable fs fields max_bytes'
        → host.unpack (host.pack (archive host fs fields)) ≡ some (archive host fs fields)
        → 0 < max_bytes'
        → (backup : List ℕ) × (create_backup host H line state (some key) max_bytes now none
            ≡ (ok fields, some backup))
          × (restore_backup host H line backup none (some key') max_bytes' now'
              ≡ install host H line none
                  (finish host H line (some key') now' (fields, nodes host fs)))
    unfolding restore_backup
    restore_created state key key' max_bytes max_bytes' now now' fs fields prepared r unpacked
          positive =
        let described =
          Ensures-at Describes _ (fs, fields) (prepare-Describes state (some key) max_bytes now)
            prepared in
        (
          host.pack (archive host fs fields),
          written state (some key) max_bytes now fs fields prepared,
          rw
              (
                read_back fs fields key' max_bytes' now' unpacked positive,
                extract-archive fs fields max_bytes' r described.0 described.1,
              )
              refl,
        )
