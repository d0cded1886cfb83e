-- ===== src/Backup/Declared.antt =====
-- Each file that a restoration extracts is declared by the manifest.
use Prim.Native.String.{◌++◌ as ◌<>◌}
use sigil_pi.Prelude.{
  ℕ, ◌≡◌, refl, sym, subst, eq_iff, arith, String, true, Option, none, some, List, [], ◌∷◌, ◌⊎◌,
  inl, inr, Each, str_eq, if_both,
}
use sigil_pi.Prelude.Dict.{Dict, get, put, without}
use sigil_pi.Agent.Json.{
  Json, null, boolean, integer, float, string, array, object, Items, nil, cons, Fields, lookup,
}
use sigil_pi.Audit.Chain.{Record, Hashing, is_text}
use sigil_pi.Backup.{
  ok, guard, Ensures, of_ok, of_refused, Ensures-bind, Ensures-at, PosixPath, Node, regular, Tree,
  Member, Host, safe_relative, or_default,
}
use sigil_pi.Backup.Restore.{
  restore_entry, restore_entries, entries_of, members, write, extract, found, keys_in,
}
use sigil_pi.Backup.Extracted.{
  guard-holds, found-some, keys_in-Each, EachObject, IsThere, IsRead, IsRun, restore_entries-IsRun,
}

module _ {ℓ κ} {V : Type ℓ} (R : String × V → Type κ) where
  Each-put : (k : String) (v : V) (d : Dict V) → R (k, v) → Each R d → Each R (put k v d)
  unfolding put
  Each-put k v [] new old = (new, tt)
  Each-put k v ((j, w) ∷ d) new (first, rest) =
      if_both (Each R) (str_eq j k)
        (λ same. (subst (λ (i : String). R (i, v)) (sym ((eq_iff j k).0 same)) new, rest))
        (λ _. (first, Each-put k v d new rest))

-- An entry of the manifest.
abbrev pub Among : Fields → Items → Type 0
Among e nil = ⊥
Among e (cons x rest) = (x ≡ object e) ⊎ Among e rest

module _ (host : Host) {Bytes Key : Type 0} (H : Hashing Bytes Key)
    (line : List ℕ → Option Record) where
  -- A file that the manifest declares at a safe path, as the archive has it, with the checksum.
  pub record IsDeclared (declared : Items) (by_name : Dict Member) (f : String × Node)
      : Type 0 where
    pub entry : Fields
    pub member : Member
    pub path : PosixPath
    pub is_declared : Among entry declared
    pub is_safe : safe_relative host (or_default (string "") (lookup "path" entry)) ≡ ok path
    pub is_archived : get ("data/" <> path.as_posix) by_name ≡ some member
    pub has_checksum : is_text (lookup "sha256" entry) (host.sha256 member.content) ≡ true
    pub is_at : f ≡ (path.as_posix, regular member.content)

  module _ (declared : Items) (by_name : Dict Member) where
    abbrev AllDeclared : List String × Tree → Type 0
    AllDeclared (names, tree) = Each (IsDeclared declared by_name) tree

    written-AllDeclared :
        (e : Fields) (names : List String) (tree written : Tree) (path : PosixPath) (m : Member)
        (x : Unit {0})
        → Among e declared
        → Each (IsDeclared declared by_name) tree
        → safe_relative host (or_default (string "") (lookup "path" e)) ≡ ok path
        → found "backup member is missing or has wrong size"
            (get ("data/" <> path.as_posix) by_name)
          ≡ ok m
        → guard (is_text (lookup "sha256" e) (host.sha256 m.content)) "backup checksum failed"
          ≡ ok x
        → write path.as_posix m.content tree ≡ ok written
        → Ensures AllDeclared (ok (("data/" <> path.as_posix) ∷ names, written))
    unfolding write
    written-AllDeclared e names tree written path m x here old safe archived checksum done =
        let new : IsDeclared declared by_name (path.as_posix, regular m.content) = record {
          entry = e;
          member = m;
          path = path;
          is_declared = here;
          is_safe = safe;
          is_archived = found-some _ _ m archived;
          has_checksum = guard-holds _ _ x checksum;
          is_at = refl;
        } in
        let is_put : put path.as_posix (regular m.content) tree ≡ written = ground (arith, done) in
        of_ok _ (
          subst (Each (IsDeclared declared by_name)) is_put
            (Each-put (IsDeclared declared by_name) path.as_posix (regular m.content) tree new old))

    restore_entry-AllDeclared :
        (e : Fields) (names : List String) (tree : Tree)
        → Among e declared
        → Each (IsDeclared declared by_name) tree
        → Ensures AllDeclared (restore_entry host H line e by_name names tree)
    unfolding restore_entry
    restore_entry-AllDeclared e names tree here old =
        search (Ensures-bind AllDeclared, written-AllDeclared) depth 12

    restore_entries-AllDeclared :
        (items : Items) (names : List String) (tree : Tree)
        → ((e : Fields) → Among e items → Among e declared)
        → Each (IsDeclared declared by_name) tree
        → Ensures AllDeclared (restore_entries host H line items by_name names tree)
    unfolding restore_entries
    restore_entries-AllDeclared nil names tree inside old = of_ok _ old
    restore_entries-AllDeclared (cons (object e) rest) names tree inside old =
        Ensures-bind AllDeclared (restore_entry host H line e by_name names tree)
          (λ r. restore_entries host H line rest by_name r.0 r.1)
          (λ r same.
            restore_entries-AllDeclared rest r.0 r.1 (λ f h. inside f (inr h))
              (Ensures-at AllDeclared _ r
                (restore_entry-AllDeclared e names tree (inside e (inl refl)) old) same))
    restore_entries-AllDeclared (cons null rest) names tree inside old = of_refused _
    restore_entries-AllDeclared (cons (boolean b) rest) names tree inside old = of_refused _
    restore_entries-AllDeclared (cons (integer n) rest) names tree inside old = of_refused _
    restore_entries-AllDeclared (cons (float x) rest) names tree inside old = of_refused _
    restore_entries-AllDeclared (cons (string t) rest) names tree inside old = of_refused _
    restore_entries-AllDeclared (cons (array xs) rest) names tree inside old = of_refused _

  -- What the archive has, and that it is what is in the tree: each file is declared, each file that the
  -- manifest declares is there, and so is each data member, all with the archive's content.
  pub record IsExtracted (max_bytes : ℕ) (archive : List Member) (r : Fields × Tree) : Type 0 where
    pub all_members : Dict Member
    pub declared : Items
    pub are_members : members host max_bytes archive ≡ ok all_members
    pub are_declared : lookup "files" r.0 ≡ some (array declared)
    pub names : List String
    pub are_files : Each (IsDeclared declared (without "manifest.json" all_members)) r.1
    pub are_there :
        EachObject (IsThere host (without "manifest.json" all_members) (names, r.1)) declared
    pub are_read :
        Each
          (λ (m : String × Member).
            IsRead host (without "manifest.json" all_members) (names, r.1) m.0)
          (without "manifest.json" all_members)

  entries_of-some :
      (o : Option Json) (declared : Items) → entries_of o ≡ ok declared → o ≡ some (array declared)
  entries_of-some (some (array xs)) declared h = cc
  entries_of-some none declared h = cc
  entries_of-some (some null) declared h = cc
  entries_of-some (some (boolean b)) declared h = cc
  entries_of-some (some (integer n)) declared h = cc
  entries_of-some (some (float x)) declared h = cc
  entries_of-some (some (string t)) declared h = cc
  entries_of-some (some (object f)) declared h = cc

  extracted :
      (max_bytes : ℕ) (archive : List Member) (all_members : Dict Member) (fields : Fields)
      (declared : Items) (r : List String × Tree) (x : Unit {0})
      → members host max_bytes archive ≡ ok all_members
      → entries_of (lookup "files" fields) ≡ ok declared
      → restore_entries host H line declared (without "manifest.json" all_members) [] [] ≡ ok r
      → guard
          (keys_in (without "manifest.json" all_members) r.0)
          "backup contains undeclared data members"
        ≡ ok x
      → Ensures (IsExtracted max_bytes archive) (ok (fields, r.1))
  extracted max_bytes archive all_members fields declared r x is_members is_list is_read is_all =
      let by_name = without "manifest.json" all_members in
      let run =
        Ensures-at (IsRun host by_name declared ([], [])) _ r
          (restore_entries-IsRun host by_name H line declared [] []) is_read in
      of_ok _ record {
        all_members = all_members;
        declared = declared;
        are_members = is_members;
        are_declared = entries_of-some (lookup "files" fields) declared is_list;
        names = r.0;
        are_there = run.there;
        are_read =
            keys_in-Each (IsRead host by_name (r.0, r.1)) r.0 by_name (guard-holds _ _ x is_all)
              (run.read tt);
        are_files =
            Ensures-at (AllDeclared declared by_name) _ r
              (restore_entries-AllDeclared declared by_name declared [] [] (λ e h. h) tt) is_read;
      }

  pub extract-IsExtracted :
      (max_bytes : ℕ) (archive : List Member)
      → Ensures (IsExtracted max_bytes archive) (extract host H line max_bytes archive)
  unfolding extract
  extract-IsExtracted max_bytes archive =
      search (Ensures-bind (IsExtracted max_bytes archive), extracted) depth 16
