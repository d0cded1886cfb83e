-- ===== src/Backup/Expiry.antt =====
-- Which backups a retention cycle removes.
use sigil_pi.Prelude.{
  ℕ, ◌+◌, ◌≡◌, refl, sym, ap, subst, ◌∙◌, arith, String, Bool, true, false, not, Option, none, some,
  List, [], ◌∷◌, inl, inr, Each, Each-map, Bool-cases, Option-cases, any, leb, ltb, str_eq, eq_iff,
  if◌then◌else◌,
}
use sigil_pi.Prelude.Dict.{without}
use sigil_pi.Audit.Chain.{Record, Hashing}
use sigil_pi.Backup.{
  Outcome, ok, refused, raised, Ensures, of_ok, Ensures-bind, Ensures-map, Ensures-at, Host,
}
use sigil_pi.Backup.Managed.{
  BackupFile, Directory, Metadata, managed_name, match_of, managed_backup_metadata, is_managed,
  managed, expired, unlink_all, unlinked, prune_managed_backups,
}

module _ (host : Host) {Bytes Key : Type 0} (H : Hashing Bytes Key) (line : List ℕ → Option Record)
    (max_bytes retention now : ℕ) where
  -- Whether a file outlives the cycle, by its name.
  abbrev pub keeps : String → Bool
  keeps name = elim (managed_name name) [ none ↦ true | some m ↦ ltb now (m.0 + retention) ]

  abbrev pub young : Directory → Directory
  young [] = []
  young ((name, file) ∷ rest) =
      let others = young rest in if keeps name then (name, file) ∷ others else others

  abbrev HasName : String → Metadata → Type 0
  HasName name m = (m.name ≡ name) × (managed_name name ≡ some (m.created_unix, m.sha256))

  matched-HasName :
      (name : String) (matched : ℕ × String)
      → match_of host H line (managed_name name) ≡ ok matched
      → HasName name record { name = name; sha256 = matched.1; created_unix = matched.0 }
  matched-HasName name (created, digest) h = (refl, from_match (managed_name name) h)
    where
      from_match :
          (o : Option (ℕ × String))
          → match_of host H line o ≡ ok (created, digest)
          → o ≡ some (created, digest)
      from_match none e = cc
      from_match (some m) e = cc

  metadata-HasName :
      (name : String) (file : BackupFile)
      → Ensures (HasName name) (managed_backup_metadata host H line max_bytes name file)
  unfolding managed_backup_metadata
  metadata-HasName name file =
      Ensures-bind (HasName name) (match_of host H line (managed_name name)) _ λ matched is_match.
        let named : Ensures (HasName name)
            (ok record { name = name; sha256 = matched.1; created_unix = matched.0 }) =
          of_ok _ (matched-HasName name matched is_match) in
        search (Ensures-bind (HasName name), named) depth 8

  names_any : String → List Metadata → Bool
  names_any name ms = any (λ (m : Metadata). str_eq m.name name) ms

  without_all : List Metadata → Directory → Directory
  without_all ms [] = []
  without_all ms ((name, file) ∷ rest) =
      let others = without_all ms rest in
      if names_any name ms then others else (name, file) ∷ others

  without_all-nil : (dir : Directory) → without_all [] dir ≡ dir
  unfolding without_all names_any
  without_all-nil [] = refl
  without_all-nil (e ∷ rest) = ap (λ d. e ∷ d) (without_all-nil rest)

  without_all-cons :
      (m : Metadata) (ms : List Metadata) (dir : Directory)
      → without_all ms (without m.name dir) ≡ without_all (m ∷ ms) dir
  unfolding without_all names_any without
  without_all-cons m ms [] = refl
  without_all-cons m ms ((name, file) ∷ rest) =
      ground (arith, without_all-cons m ms rest, eq_iff name m.name, eq_iff m.name name)

  unlink_all-eq :
      (ms : List Metadata) (dir : Directory) → unlink_all host H line ms dir ≡ without_all ms dir
  unfolding unlink_all
  unlink_all-eq [] dir = sym (without_all-nil dir)
  unlink_all-eq (m ∷ ms) dir = unlink_all-eq ms (without m.name dir) ∙ without_all-cons m ms dir

  names_any-append :
      (name : String) (m : Metadata) (ms : List Metadata)
      → names_any name ms ≡ true
      → names_any name (m ∷ ms) ≡ true
  unfolding names_any
  names_any-append name m ms h = ground (arith, h)

  old_name :
      (name : String) (m : Metadata)
      → HasName name m
      → keeps name ≡ not (leb (m.created_unix + retention) now)
  old_name name m (same, is_name) = rw (is_name, keeps) (ground arith)

  -- What the files that are validated say of the directory.
  abbrev pub IsValid : String × BackupFile → Type 0
  IsValid (name, file) =
      (is_managed host H line name ≡ true)
      → (m : Metadata) × (managed_backup_metadata host H line max_bytes name file ≡ ok m)

  record IsCovered (dir : Directory) (ms : List Metadata) : Type 0 where
    valid : Each IsValid dir
    -- a name that is removed is too old
    old : Each (λ m. HasName m.name m) ms
    -- a file that is too old is removed
    gone :
        Each
          (λ e. keeps e.0 ≡ false → names_any e.0 (expired host H line retention now ms) ≡ true)
          dir

  expired_keeps :
      (name : String) (ms : List Metadata)
      → Each (λ m. HasName m.name m) ms
      → names_any name (expired host H line retention now ms) ≡ true
      → keeps name ≡ false
  unfolding names_any expired
  expired_keeps name [] h found = cc
  expired_keeps name (m ∷ ms) (first, rest) found =
      ground (arith, expired_keeps name ms rest, old_name m.name m first, eq_iff m.name name)

  expired_cons :
      (name : String) (m : Metadata) (ms : List Metadata)
      → names_any name (expired host H line retention now ms) ≡ true
      → names_any name (expired host H line retention now (m ∷ ms)) ≡ true
  unfolding names_any expired
  expired_cons name m ms h = ground (arith, h)

  expired_first :
      (name : String) (m : Metadata) (ms : List Metadata)
      → HasName name m
      → keeps name ≡ false
      → names_any name (expired host H line retention now (m ∷ ms)) ≡ true
  unfolding names_any expired
  expired_first name m ms h old = ground (arith, old_name name m h, eq_iff m.name name, h.0)

  Covered-cons :
      (name : String) (file : BackupFile) (rest : Directory) (m : Metadata) (ms : List Metadata)
      → managed_backup_metadata host H line max_bytes name file ≡ ok m
      → IsCovered rest ms
      → IsCovered ((name, file) ∷ rest) (m ∷ ms)
  Covered-cons name file rest m ms validated covered =
      let named = Ensures-at (HasName name) _ m (metadata-HasName name file) validated in
      record {
        valid = (λ is_managed. (m, validated), covered.valid);
        old = (subst (λ (n : String). HasName n m) (sym (named.0)) named, covered.old);
        gone = (
          λ too_old. expired_first name m ms named too_old,
          Each-map rest (λ e h too_old. expired_cons e.0 m ms (h too_old)) covered.gone,
        );
      }

  foreign_keeps : (name : String) → is_managed host H line name ≡ false → keeps name ≡ true
  foreign_keeps name foreign = elim (Option-cases (managed_name name)) [
    | inl nothing ↦ rw (nothing, keeps) refl
    | inr (m, same) ↦
        let ours : is_managed host H line name ≡ true = rw (same, is_managed) refl in
        ground (arith, foreign, ours)
  ]

  Covered-skip :
      (name : String) (file : BackupFile) (rest : Directory) (ms : List Metadata)
      → is_managed host H line name ≡ false
      → IsCovered rest ms
      → IsCovered ((name, file) ∷ rest) ms
  Covered-skip name file rest ms foreign covered = record {
    valid = (λ is_managed. ground (arith, foreign, is_managed), covered.valid);
    old = covered.old;
    gone = (λ too_old. ground (arith, foreign_keeps name foreign, too_old), covered.gone);
  }

  managed-IsCovered :
      (dir : Directory) → Ensures (IsCovered dir) (managed host H line max_bytes dir)
  unfolding managed
  managed-IsCovered [] = of_ok _ record { valid = tt; old = tt; gone = tt }
  managed-IsCovered ((name, file) ∷ rest) = elim (Bool-cases (is_managed host H line name)) [
    | inr foreign ↦ rw foreign (
        Ensures-map _ (λ ms covered. Covered-skip name file rest ms foreign covered)
          (managed-IsCovered rest))
    | inl ours ↦
        let all_rest = managed-IsCovered rest in
        rw ours (
          Ensures-bind (IsCovered ((name, file) ∷ rest))
            (managed_backup_metadata host H line max_bytes name file) _
            λ m validated.
              Ensures-bind (IsCovered ((name, file) ∷ rest)) (managed host H line max_bytes rest) _
                λ ms others. of_ok _ (
                  Covered-cons name file rest m ms validated
                    (Ensures-at (IsCovered rest) _ ms all_rest others)))
  ]

  without_all-young :
      (ms : List Metadata) (dir : Directory)
      → ((name : String) → names_any name ms ≡ true → keeps name ≡ false)
      → Each (λ e. keeps e.0 ≡ false → names_any e.0 ms ≡ true) dir
      → without_all ms dir ≡ young dir
  unfolding without_all
  without_all-young ms [] old gone = refl
  without_all-young ms ((name, file) ∷ rest) old (first, gone) =
      let same = without_all-young ms rest old gone in
      elim (Bool-cases (names_any name ms)) [
        | inl named ↦ rw (named, old name named, same) refl
        | inr unnamed ↦ elim (Bool-cases (keeps name)) [
          | inl kept ↦ rw (unnamed, kept, same) refl
          | inr too_old ↦ ground (arith, unnamed, first too_old)
        ]
      ]

  -- All of the managed set is valid, and what is too old is gone.
  abbrev pub IsPruned : Directory → Outcome (List Metadata) × Directory → Type 0
  IsPruned dir (ok deleted, after) = Each IsValid dir × (after ≡ young dir)
  IsPruned dir (_, after) = after ≡ dir

  unlinked-IsPruned :
      (dir : Directory) (r : Outcome (List Metadata))
      → Ensures (IsCovered dir) r
      → IsPruned dir (unlinked host H line retention now dir r)
  unlinked-IsPruned dir (ok ms) (of_ok _ covered) = (
    covered.valid,
    unlink_all-eq (expired host H line retention now ms) dir
        ∙ without_all-young (expired host H line retention now ms) dir
            (λ name named. expired_keeps name ms covered.old named) covered.gone,
  )
  unlinked-IsPruned dir (refused message) h = refl
  unlinked-IsPruned dir raised h = refl

  -- Pruning removes exactly the managed backups whose time, as their name has it, is at least the
  -- retention ago, and it succeeds only if every managed backup of the directory is valid. Where it
  -- fails, no file is removed.
  pub prune_managed_backups_lem :
      (dir : Directory)
      → IsPruned dir (prune_managed_backups host H line max_bytes retention now dir)
  unfolding prune_managed_backups
  prune_managed_backups_lem dir = unlinked-IsPruned dir _ (managed-IsCovered dir)
