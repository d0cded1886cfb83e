-- ===== src/Backup/Extracted.antt =====
-- What the loop of `restore_backup` over the manifest has extracted: nothing that is read is lost.
use Prim.Native.String.{◌++◌ as ◌<>◌}
use sigil_pi.Prelude.{
  ℕ, ◌≡◌, refl, sym, subst, ◌∙◌, eq_iff, arith, String, Bool, true, false, not, Option, none, some,
  List, [], ◌∷◌, any, Each, Each-map, str_eq, inl, inr, Bool-cases,
}
use sigil_pi.Prelude.Dict.{Dict, get, put, get-put}
use sigil_pi.Agent.Json.{
  null, boolean, integer, float, string, array, object, Items, nil, cons, Fields, lookup,
}
use sigil_pi.Audit.Chain.{Record, Hashing}
use sigil_pi.Backup.{
  ok, guard, Ensures, of_ok, of_refused, Ensures-bind, Ensures-map, Ensures-at, PosixPath, Node,
  regular, Tree, Member, Host, safe_relative, or_default,
}
use sigil_pi.Backup.Restore.{restore_entry, restore_entries, write, found, keys_in}

pub guard-holds : (b : Bool) (message : String) (x : Unit {0}) → guard b message ≡ ok x → b ≡ true
guard-holds true message x h = refl
guard-holds false message x h = cc

pub found-some :
    (message : String) (o : Option Member) (m : Member) → found message o ≡ ok m → o ≡ some m
found-some message none m h = cc
found-some message (some n) m h = cc

any-Each :
    (P : String → Type 0) (k : String) (names : List String)
    → any (str_eq k) names ≡ true
    → Each P names
    → P k
any-Each P k [] e h = absurd (ground (arith, e))
any-Each P k (n ∷ names) e (first, rest) = elim (Bool-cases (str_eq k n)) [
  | inl same ↦ subst P (sym ((eq_iff k n).0 same)) first
  | inr other ↦ any-Each P k names (ground (arith, e, other)) rest
]

pub keys_in-Each :
    {V : Type 0} (P : String → Type 0) (names : List String) (d : Dict V)
    → keys_in d names ≡ true
    → Each P names
    → Each (λ (e : String × V). P e.0) d
keys_in-Each P names [] e h = tt
keys_in-Each P names ((k, v) ∷ d) e h =
    (any-Each P k names (ground (arith, e)) h, keys_in-Each P names d (ground (arith, e)) h)

-- Each item is an object with the property.
abbrev pub EachObject : (Fields → Type 0) → Items → Type 0
EachObject P nil = Unit {0}
EachObject P (cons (object e) rest) = P e × EachObject P rest
EachObject P (cons _ rest) = ⊥

EachObject-map :
    {P Q : Fields → Type 0} (items : Items)
    → ((e : Fields) → P e → Q e)
    → EachObject P items
    → EachObject Q items
EachObject-map nil f h = tt
EachObject-map (cons (object e) rest) f (first, others) = (f e first, EachObject-map rest f others)
EachObject-map (cons null rest) f h = absurd h
EachObject-map (cons (boolean b) rest) f h = absurd h
EachObject-map (cons (integer n) rest) f h = absurd h
EachObject-map (cons (float x) rest) f h = absurd h
EachObject-map (cons (string t) rest) f h = absurd h
EachObject-map (cons (array xs) rest) f h = absurd h

-- The names that the loop has seen, and the tree.
abbrev pub Progress : Type 0
Progress = List String × Tree

abbrev seen : String → Progress → Bool
seen p r = any (str_eq ("data/" <> p)) r.0

module _ (host : Host) (by_name : Dict Member) where
  -- The data member of a path stands in the tree at the path, with its content.
  pub record IsAt (r : Progress) (p : String) (m : Member) : Type 0 where
    pub is_seen : seen p r ≡ true
    pub is_archived : get ("data/" <> p) by_name ≡ some m
    pub is_written : get p r.1 ≡ some (regular m.content)

  -- An entry of the manifest whose path is safe, and whose file is in the tree.
  pub record IsThere (r : Progress) (e : Fields) : Type 0 where
    pub path : PosixPath
    pub member : Member
    pub is_safe : safe_relative host (or_default (string "") (lookup "path" e)) ≡ ok path
    pub is_at : IsAt r path.as_posix member

  -- A member's name that is the name of a file in the tree.
  pub record IsRead (r : Progress) (name : String) : Type 0 where
    pub path : String
    pub member : Member
    pub is_name : name ≡ "data/" <> path
    pub is_at : IsAt r path member

  -- What the loop has read stays.
  abbrev Keeps : Progress → Progress → Type 0
  Keeps r r' = (p : String) → seen p r ≡ true → (seen p r' ≡ true) × (get p r'.1 ≡ get p r.1)

  IsAt-Keeps : (r r' : Progress) (p : String) (m : Member) → Keeps r r' → IsAt r p m → IsAt r' p m
  IsAt-Keeps r r' p m keeps h =
      let (again, same) = keeps p h.is_seen in
      record { is_seen = again; is_archived = h.is_archived; is_written = same ∙ h.is_written }

  IsThere-Keeps : (r r' : Progress) (e : Fields) → Keeps r r' → IsThere r e → IsThere r' e
  IsThere-Keeps r r' e keeps h = record {
    path = h.path;
    member = h.member;
    is_safe = h.is_safe;
    is_at = IsAt-Keeps r r' h.path.as_posix h.member keeps h.is_at;
  }

  IsRead-Keeps : (r r' : Progress) (name : String) → Keeps r r' → IsRead r name → IsRead r' name
  IsRead-Keeps r r' name keeps h = record {
    path = h.path;
    member = h.member;
    is_name = h.is_name;
    is_at = IsAt-Keeps r r' h.path h.member keeps h.is_at;
  }

  Keeps-put :
      (names : List String) (tree : Tree) (p : String) (n : Node)
      → not (any (str_eq ("data/" <> p)) names) ≡ true
      → Keeps (names, tree) (("data/" <> p) ∷ names, put p n tree)
  Keeps-put names tree p n new q old = ground (arith, new, old, get-put p q n tree, eq_iff p q)

  -- What one entry adds.
  pub record IsStep (e : Fields) (r r' : Progress) : Type 0 where
    keeps : Keeps r r'
    there : IsThere r' e
    names : r'.0 ≡ ("data/" <> there.path.as_posix) ∷ r.0

  -- What a run of the loop does.
  pub record IsRun (items : Items) (r r' : Progress) : Type 0 where
    pub keeps : Keeps r r'
    pub there : EachObject (IsThere r') items
    pub read : Each (IsRead r) r.0 → Each (IsRead r') r'.0

  step :
      (e : Fields) (names : List String) (tree written : Tree) (path : PosixPath) (m : Member)
      (x : Unit {0})
      → safe_relative host (or_default (string "") (lookup "path" e)) ≡ ok path
      → guard (not (any (str_eq ("data/" <> path.as_posix)) names)) "backup manifest repeats a path"
        ≡ ok x
      → found "backup member is missing or has wrong size" (get ("data/" <> path.as_posix) by_name)
        ≡ ok m
      → write path.as_posix m.content tree ≡ ok written
      → Ensures (IsStep e (names, tree)) (ok (("data/" <> path.as_posix) ∷ names, written))
  unfolding write
  step e names tree written path m x safe new archived done =
      let is_put : put path.as_posix (regular m.content) tree ≡ written = ground (arith, done) in
      subst (λ t. Ensures (IsStep e (names, tree)) (ok (("data/" <> path.as_posix) ∷ names, t)))
        is_put
        (of_ok _ record {
          keeps = Keeps-put names tree path.as_posix (regular m.content) (guard-holds _ _ x new);
          there = record {
            path = path;
            member = m;
            is_safe = safe;
            is_at = record {
              is_seen =
                  ground (arith, eq_iff ("data/" <> path.as_posix) ("data/" <> path.as_posix));
              is_archived = found-some _ _ m archived;
              is_written =
                  get-put path.as_posix path.as_posix (regular m.content) tree
                  ∙ ground (arith, eq_iff path.as_posix path.as_posix);
            };
          };
          names = refl;
        })

  IsRun-nil : (r : Progress) → IsRun nil r r
  IsRun-nil r = record { keeps = λ p h. (h, refl); there = tt; read = λ h. h }

  IsRun-cons :
      (e : Fields) (rest : Items) (r r1 r2 : Progress)
      → IsStep e r r1
      → IsRun rest r1 r2
      → IsRun (cons (object e) rest) r r2
  IsRun-cons e rest r r1 r2 first run = record {
    keeps = λ p h.
        let (again, same) = first.keeps p h in
        let (again2, same2) = run.keeps p again in (again2, same2 ∙ same);
    there = (IsThere-Keeps r1 r2 e run.keeps first.there, run.there);
    read = λ h. run.read (
        subst (Each (IsRead r1)) (sym first.names) (
          record {
            path = first.there.path.as_posix;
            member = first.there.member;
            is_name = refl;
            is_at = first.there.is_at;
          },
          Each-map r.0 (λ name. IsRead-Keeps r r1 name first.keeps) h,
        ));
  }

  module _ {Bytes Key : Type 0} (H : Hashing Bytes Key) (line : List ℕ → Option Record) where
    restore_entry-IsStep :
        (e : Fields) (names : List String) (tree : Tree)
        → Ensures (IsStep e (names, tree)) (restore_entry host H line e by_name names tree)
    unfolding restore_entry
    restore_entry-IsStep e names tree =
        search (Ensures-bind (IsStep e (names, tree)), step e names tree) depth 12

    pub restore_entries-IsRun :
        (items : Items) (names : List String) (tree : Tree)
        → Ensures (IsRun items (names, tree)) (restore_entries host H line items by_name names tree)
    unfolding restore_entries
    restore_entries-IsRun nil names tree = of_ok _ (IsRun-nil (names, tree))
    restore_entries-IsRun (cons (object e) rest) names tree =
        Ensures-bind (IsRun (cons (object e) rest) (names, tree))
          (restore_entry host H line e by_name names tree)
          (λ r. restore_entries host H line rest by_name r.0 r.1)
          (λ r same.
            Ensures-map _
              (λ r2.
                IsRun-cons e rest (names, tree) r r2
                  (Ensures-at (IsStep e (names, tree)) _ r (restore_entry-IsStep e names tree)
                    same))
              (restore_entries-IsRun rest r.0 r.1))
    restore_entries-IsRun (cons null rest) names tree = of_refused _
    restore_entries-IsRun (cons (boolean b) rest) names tree = of_refused _
    restore_entries-IsRun (cons (integer n) rest) names tree = of_refused _
    restore_entries-IsRun (cons (float x) rest) names tree = of_refused _
    restore_entries-IsRun (cons (string t) rest) names tree = of_refused _
    restore_entries-IsRun (cons (array xs) rest) names tree = of_refused _
