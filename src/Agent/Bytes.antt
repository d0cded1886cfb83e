-- ===== src/Agent/Bytes.antt =====
-- The bytes of an ASCII text.
use Prim.Native.Char.{code}
use sigil_pi.Prelude.{ℕ, String, List, [], ◌∷◌}

abbrev pub bytes : String → List ℕ
bytes String.[] = []
bytes (String.◌∷◌ c s) = code c ∷ bytes s
