-- ===== src/Agent/Json.antt =====
-- JSON values as `json.loads` gives them, and integers as Python has them. A number with a fraction
-- or an exponent is kept by its literal.
use sigil_pi.Prelude.{Option, none, some, str_eq, if◌then◌else◌, ℕ, String, Bool}

pub data ℤ : Type 0 where
  pos : ℕ → ℤ
  negsuc : ℕ → ℤ

mutual
  pub data Json : Type 0 where
    null : Json
    boolean : Bool → Json
    integer : ℤ → Json
    float : String → Json
    string : String → Json
    array : Items → Json
    object : Fields → Json

  pub data Items : Type 0 where
    nil : Items
    cons : Json → Items → Items

  pub data Fields : Type 0 where
    end : Fields
    field : String → Json → Fields → Fields

-- `d.get(k)` on an object.
abbrev pub lookup : String → Fields → Option Json
lookup k end = none
lookup k (field j v rest) = if str_eq j k then some v else lookup k rest
