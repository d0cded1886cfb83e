-- ===== src/Backup/Reading.antt =====
-- The loops of a restoration on the members and the manifest of a backup.
use Prim.Native.String.{◌++◌ as ◌<>◌}
use text.Mathlib.TextLemmas.{append_cancel_left}
use text.Mathlib.Text.{starts_with}
use text.Mathlib.TextPositions.{starts_with-append}
use mathlib.Core.List.{append_assoc, append-nil}
use sigil_pi.Prelude.{
  ℕ, ◌+◌, ◌≤◌, ◌≡◌, refl, sym, subst, Each-zip, any-append, le→leb, sum_by, ap, ◌∙◌, arith, String,
  true, false, Option, none, some, List, [], ◌∷◌, ◌++◌, length, ◌==◌, str_eq, any, Each, eq_iff,
  eq_refl, ==_iff, Bool-cases, inl, inr,
}
use sigil_pi.Prelude.Dict.{Dict, get, get-append, put-fresh}
use sigil_pi.Audit.Chain.{Record, Hashing}
use sigil_pi.Backup.Create.{Payloads, entries, entry_fields, file_member, file_members}
use sigil_pi.Backup.Restore.{
  collect_members, restore_entries, restore_entry, write, clashes, has_key,
}
use sigil_pi.Backup.{
  ok, PosixPath, regular, Tree, Member, Host, is_below, safe_relative_text, safe_relative,
}

pub data_ne : (p : String) → str_eq "manifest.json" ("data/" <> p) ≡ false
data_ne p = elim (Bool-cases (str_eq "manifest.json" ("data/" <> p))) [
  | inr differs ↦ differs
  | inl same ↦
      let e = (eq_iff "manifest.json" ("data/" <> p)).0 same in
      let f : starts_with "manifest.json" "data/" ≡ true =
        subst (λ (s : String). starts_with s "data/" ≡ true) (sym e)
          (starts_with-append "data/" p) in
      cc f
]

pub data_name-inj :
    (p q : String) → str_eq p q ≡ false → str_eq ("data/" <> p) ("data/" <> q) ≡ false
data_name-inj p q h = elim (Bool-cases (str_eq ("data/" <> p) ("data/" <> q))) [
  | inr differs ↦ differs
  | inl same ↦ ground (
    arith,
    h,
    eq_iff p q,
    append_cancel_left "data/" p q ((eq_iff ("data/" <> p) ("data/" <> q)).0 same),
  )
]

-- Neither path is the other, or below it.
abbrev pub Apart : String → String × List ℕ → Type 0
Apart p (q, content) =
    (str_eq p q ≡ false) × (str_eq q p ≡ false) × (is_below p q ≡ false) × (is_below q p ≡ false)

-- The files of one tree: no path twice, and none below another.
abbrev pub IsFlat : Payloads → Type 0
IsFlat [] = Unit
IsFlat ((p, content) ∷ rest) = Each (Apart p) rest × IsFlat rest

module _ (host : Host) where
  -- A path as `as_posix` writes it, safe in the archive too.
  abbrev pub IsPlain : String → Type 0
  IsPlain p =
      ((path : PosixPath) × (safe_relative_text host p ≡ ok path) × (path.as_posix ≡ p))
      × ((path : PosixPath) × (safe_relative_text host ("data/" <> p) ≡ ok path))

  abbrev pub named : Payloads → Dict Member
  named [] = []
  named ((p, content) ∷ rest) = ("data/" <> p, file_member host p content) ∷ named rest

  abbrev pub nodes : Payloads → Tree
  nodes [] = []
  nodes ((p, content) ∷ rest) = (p, regular content) ∷ nodes rest

  -- No member of a file is there yet.
  abbrev pub Fresh : Dict Member → Payloads → Type 0
  Fresh d = Each λ f. get ("data/" <> f.0) d ≡ none

  pub Fresh-append :
      (d : Dict Member) (p : String) (m : Member) (rest : Payloads)
      → Each (Apart p) rest
      → Fresh d rest
      → Fresh (d ++ ("data/" <> p, m) ∷ []) rest
  unfolding get
  Fresh-append d p m rest = Each-zip rest λ f apart fresh.
      get-append ("data/" <> f.0) d (("data/" <> p, m) ∷ []) fresh
      ∙ rw (data_name-inj p f.0 apart.0)

  pub collect_members-file_members :
      (max_bytes total : ℕ) (d : Dict Member) (fs : Payloads)
      → Each (λ f. IsPlain f.0) fs
      → IsFlat fs
      → Fresh d fs
      → total + sum_by (λ f. length f.1) fs ≤ max_bytes
      → collect_members host max_bytes total d (file_members host fs) ≡ ok (d ++ named fs)
  unfolding collect_members file_members
  collect_members-file_members max_bytes total d [] plain flat fresh fits =
      ap ok (sym (append-nil d))
  collect_members-file_members max_bytes total d ((p, content) ∷ fs) (first, plain) (apart, flat)
        (absent, fresh) fits =
      let m = file_member host p content in
      let fits_now = le→leb (total + length content) max_bytes (omega arith) in
      let rest =
        collect_members-file_members max_bytes (total + length content)
          (d ++ ("data/" <> p, m) ∷ []) fs plain flat (Fresh-append d p m fs apart fresh)
          (omega arith) in
      rw (first.1.1, has_key, absent, fits_now, put-fresh ("data/" <> p) m d absent)
        (rest ∙ ap ok (append_assoc d (("data/" <> p, m) ∷ []) (named fs)))

  -- The files of a tree do not stand in another's way.
  abbrev pub Free : Tree → Payloads → Type 0
  Free tree = Each λ f. (get f.0 tree ≡ none) × (any (clashes f.0) tree ≡ false)

  Free-append :
      (tree : Tree) (p : String) (content : List ℕ) (rest : Payloads)
      → Each (Apart p) rest
      → Free tree rest
      → Free (tree ++ (p, regular content) ∷ []) rest
  unfolding get
  Free-append tree p content rest = Each-zip rest λ f apart free. (
    get-append f.0 tree ((p, regular content) ∷ []) free.0 ∙ rw (apart.0),
    any-append (clashes f.0) tree ((p, regular content) ∷ []) ∙ rw (free.1, apart.3, apart.2),
  )

  abbrev pub names_onto : Payloads → List String → List String
  names_onto [] names = names
  names_onto ((p, content) ∷ rest) names = names_onto rest (("data/" <> p) ∷ names)

  abbrev pub New : List String → Payloads → Type 0
  New names = Each λ f. any (str_eq ("data/" <> f.0)) names ≡ false

  New-cons :
      (names : List String) (p : String) (rest : Payloads)
      → Each (Apart p) rest
      → New names rest
      → New (("data/" <> p) ∷ names) rest
  New-cons names p rest = Each-zip rest λ f apart new. rw (data_name-inj f.0 p apart.1, new)

  abbrev pub Found : Dict Member → Payloads → Type 0
  Found d = Each λ f. get ("data/" <> f.0) d ≡ some (file_member host f.0 f.1)

  write-free :
      (p : String) (content : List ℕ) (tree : Tree)
      → get p tree ≡ none
      → any (clashes p) tree ≡ false
      → write p content tree ≡ ok (tree ++ (p, regular content) ∷ [])
  unfolding write
  write-free p content tree absent free = rw (free, put-fresh p (regular content) tree absent) refl

  pub is_equal : (n : ℕ) → (n == n) ≡ true
  is_equal n = (==_iff n n).1 refl

  module _ {Bytes Key : Type 0} (H : Hashing Bytes Key) (line : List ℕ → Option Record) where
    restore_entry-entry :
        (p : String) (content : List ℕ) (d : Dict Member) (names : List String) (tree : Tree)
        → IsPlain p
        → get ("data/" <> p) d ≡ some (file_member host p content)
        → any (str_eq ("data/" <> p)) names ≡ false
        → get p tree ≡ none
        → any (clashes p) tree ≡ false
        → restore_entry host H line (entry_fields host p content) d names tree
          ≡ ok (("data/" <> p) ∷ names, tree ++ (p, regular content) ∷ [])
    unfolding restore_entry safe_relative
    restore_entry-entry p content d names tree plain found new absent free =
        rw
          (
            plain.0.1,
            plain.0.2,
            new,
            found,
            is_equal (length content),
            eq_refl (host.sha256 content),
            write-free p content tree absent free,
          )
          refl

    pub restore_entries-entries :
        (d : Dict Member) (names : List String) (tree : Tree) (fs : Payloads)
        → Each (λ f. IsPlain f.0) fs
        → IsFlat fs
        → Found d fs
        → New names fs
        → Free tree fs
        → restore_entries host H line (entries host fs) d names tree
          ≡ ok (names_onto fs names, tree ++ nodes fs)
    unfolding restore_entries entries
    restore_entries-entries d names tree [] plain flat found new free =
        ap (λ t. ok (names, t)) (sym (append-nil tree))
    restore_entries-entries d names tree ((p, content) ∷ fs) (first, plain) (apart, flat)
          (here, found) (fresh, new) (gap, free) =
        let added = tree ++ (p, regular content) ∷ [] in
        let rest =
          restore_entries-entries d (("data/" <> p) ∷ names) added fs plain flat found
            (New-cons names p fs apart new) (Free-append tree p content fs apart free) in
        rw (restore_entry-entry p content d names tree first here fresh gap.0 gap.1) (
          rest
          ∙ ap (λ t. ok (names_onto fs (("data/" <> p) ∷ names), t))
              (append_assoc tree ((p, regular content) ∷ []) (nodes fs)))
