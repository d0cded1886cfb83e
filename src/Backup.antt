-- ===== src/Backup.antt =====
-- state_tool.py: backups of the product's state, and their restoration. The state directory is its
-- entries by their relative POSIX paths, in the order of `sorted`; a directory that holds an entry
-- may be left implied. pathlib, tarfile, sqlite3, json and SHA-256 are parameters.
pub mod Registry
pub mod Validation
pub mod Create
pub mod Restore
pub mod Managed
pub mod Reading
pub mod RoundTrip
pub mod Declared
pub mod Extracted
pub mod Installed
pub mod Limits
pub mod Expiry
mod Tests
use Prim.Native.Char.{code}
use Prim.Native.String.{◌++◌ as ◌<>◌}
use sigil_pi.Prelude.{
  ◌≡◌, refl, subst, ℕ, zero, suc, String, Bool, true, false, not, ◌||◌, Option, none, some, List,
  [], ◌∷◌, any, str_eq, ◌==◌, if◌then◌else◌, after_prefix,
}
use sigil_pi.Prelude.Dict.{Dict, get, put}
use sigil_pi.Agent.Json.{Json, ℤ, string, Fields, lookup}

-- A result, a `StateToolError` with its message less what it names, or another exception.
pub data Outcome {ℓ} (A : Type ℓ) : Type ℓ where
  ok : A → Outcome A
  refused : String → Outcome A
  raised : Outcome A

infixl 5 ◌>>=◌ ◌>>◌
abbrev pub ◌>>=◌ {ℓ κ} : {A : Type ℓ} {B : Type κ} → Outcome A → (A → Outcome B) → Outcome B
ok a >>= f = f a
refused message >>= f = refused message
raised >>= f = raised

abbrev pub ◌>>◌ {ℓ} : {B : Type ℓ} → Outcome (Unit {0}) → Outcome B → Outcome B
m >> k = m >>= λ _. k

-- A result has a property, or there is none.
pub data Ensures {A : Type 0} (P : A → Type 0) : Outcome A → Type 0 where
  of_ok : (a : A) → P a → Ensures P (ok a)
  of_refused : (message : String) → Ensures P (refused message)
  of_raised : Ensures P raised

module _ {A : Type 0} (P : A → Type 0) where
  pub Ensures-bind :
      {B : Type 0} (m : Outcome B) (f : B → Outcome A)
      → ((b : B) → m ≡ ok b → Ensures P (f b))
      → Ensures P (m >>= f)
  Ensures-bind (ok b) f h = h b refl
  Ensures-bind (refused message) f h = of_refused message
  Ensures-bind raised f h = of_raised

  pub Ensures-at : (r : Outcome A) (a : A) → Ensures P r → r ≡ ok a → P a
  Ensures-at (ok b) a (of_ok _ h) e = subst P (cc) h
  Ensures-at (refused message) a h e = absurd (cc)
  Ensures-at raised a h e = absurd (cc)

pub Ensures-map :
    {A : Type 0} {P Q : A → Type 0} (r : Outcome A)
    → ((a : A) → P a → Q a)
    → Ensures P r
    → Ensures Q r
Ensures-map (ok _) f (of_ok a h) = of_ok a (f a h)
Ensures-map (refused _) f (of_refused message) = of_refused message
Ensures-map raised f of_raised = of_raised

abbrev pub guard : Bool → String → Outcome (Unit {0})
guard true message = ok tt
guard false message = refused message

-- What an entry is: `special` is a device, a pipe or a socket.
pub data Node : Type 0 where
  regular : List ℕ → Node
  symlink directory special : Node

abbrev pub Tree : Type 0
Tree = Dict Node

-- `PurePosixPath(value)`: `is_absolute()`, `parts` and `as_posix()`.
pub record PosixPath : Type 0 where
  pub is_absolute : Bool
  pub parts : List String
  pub as_posix : String

-- `json.loads`: a value, a `JSONDecodeError`, or bytes that are no text.
pub data Parsed : Type 0 where
  parsed : Json → Parsed
  malformed : Parsed
  undecodable : Parsed

-- An entry of a tar archive.
pub record Member : Type 0 where
  pub name : String
  pub is_regular : Bool
  pub size : ℤ
  pub content : List ℕ

pub record UsageRow : Type 0 where
  pub tenant : String
  pub session : String
  pub internal_session : Option String
  pub storage_bytes : ℤ
  pub audit_bytes : ℤ
  pub last_activity_unix : Option ℤ

-- What is read of the quota database.
pub record QuotaDb : Type 0 where
  pub quick_check : Bool
  pub tables : List String
  pub turn_leases : ℕ
  pub tokens : List ℤ
  pub usage : List UsageRow

pub record Host : Type 0 where
  pub posix : String → PosixPath
  -- `Path(...).name`, `.suffix` and `.stem`
  pub name : String → String
  pub suffix : String → String
  pub stem : String → String
  -- the text of an audit file, which is UTF-8
  pub decode : List ℕ → List ℕ
  pub loads : List ℕ → Parsed
  -- `json.dumps` with sorted keys, and a line end
  pub dumps : Json → List ℕ
  pub sha256 : List ℕ → String
  pub sha256_text : String → String
  -- `none` is a `sqlite3.DatabaseError`
  pub open_db : List ℕ → Option QuotaDb
  pub snapshot : List ℕ → Option (List ℕ)
  -- `tarfile` and `gzip`; `none` is a `TarError` or an `OSError`
  pub pack : List Member → List ℕ
  pub unpack : List ℕ → Option (List Member)

-- The path below a directory.
abbrev pub below : String → String → Option String
below root path = after_prefix (root <> "/") path

abbrev pub is_below : String → String → Bool
is_below root path = elim (below root path) [ none ↦ false | some rest ↦ true ]

-- The first part of a path, and whether more follows.
unfoldable pub first_part : String → String × Bool
first_part String.[] = ("", false)
first_part (String.◌∷◌ c s) =
    let (part, more) = first_part s in
    if code c == b'/' then ("", true) else (String.◌∷◌ c part, more)

-- What is at a path, implied directories included.
unfoldable pub node_at : String → Tree → Option Node
unfolding get
node_at path tree = elim (get path tree) [
  | some node ↦ some node
  | none ↦ if any (λ e. is_below path e.0) tree then some directory else none
]

abbrev pub exists_at : String → Tree → Bool
exists_at path tree = elim (node_at path tree) [ none ↦ false | some node ↦ true ]

abbrev pub is_empty {ℓ} : {A : Type ℓ} → List A → Bool
is_empty [] = true
is_empty (x ∷ xs) = false

abbrev pub is_unsafe_part : String → Bool
is_unsafe_part part = str_eq part "" || str_eq part "." || str_eq part ".."

abbrev pub text_of : Json → Option String
text_of (string s) = some s
text_of _ = none

-- `d.get(key)`, and `d.get(key, default)`
abbrev pub or_default : Json → Option Json → Json
or_default default none = default
or_default default (some v) = v

module _ (host : Host) where
  unfoldable pub safe_relative_text : String → Outcome PosixPath
  safe_relative_text value =
      let path = host.posix value in
      if path.is_absolute || is_empty path.parts || any is_unsafe_part path.parts
      then refused "unsafe backup path"
      else ok path

  unfoldable pub safe_relative : Json → Outcome PosixPath
  unfolding safe_relative_text
  safe_relative value = elim (text_of value) [
    | none ↦ refused "unsafe backup path"
    | some text ↦ safe_relative_text text
  ]
