-- ===== src/Audit/Chain/Append.antt =====
-- `AuditLog.append_or_raise`: the entry of one forge, linked to the last record of the session.
pub mod Laws
use sigil_pi.Prelude.{
  zero, ℕ, suc, ◌+◌, String, Bool, true, false, Option, none, some, List, [], ◌∷◌, ◌++◌, ◌==◌,
  str_eq, if◌then◌else◌,
}
use sigil_pi.Prelude.Dict.{Dict, get, put}
use sigil_pi.Agent.Json.{Json, ℤ, pos, negsuc, null, boolean, integer, float, string, array, object}
use sigil_pi.Audit.Redact.{Grants, redact_grants}
use sigil_pi.Audit.Chain.{Record, genesis_hash, Hashing, entry_hash, sign_entry}

-- The arguments of a call, as `PiAgent._forge` passes them.
pub record Forge : Type 0 where
  pub session : String
  pub kind : String
  pub source : String
  pub input_text : String
  pub output : Option String
  pub err : Option String
  pub grants : Grants
  pub fuel : ℕ

-- SHA-256 of a text in hexadecimal, the length of its UTF-8 bytes, and grants as a JSON value.
pub record Texts : Type 0 where
  pub sha256_text : String → String
  pub encoded_len : String → ℕ
  pub grants_json : Grants → Json
  -- `x + 1` for a float, by its literal
  pub float_suc : String → String

abbrev pub optional {ℓ} : {A : Type ℓ} → (A → Json) → Option A → Json
optional f none = null
optional f (some a) = f a

-- `prior["seq"] + 1`, or `none` where that raises: a missing key, or no number.
abbrev pub next_seq : (String → String) → Option Json → Option Json
next_seq float_suc (some (integer (pos n))) = some (integer (pos (n + 1)))
next_seq float_suc (some (integer (negsuc zero))) = some (integer (pos 0))
next_seq float_suc (some (integer (negsuc (suc n)))) = some (integer (negsuc n))
next_seq float_suc (some (float x)) = some (float (float_suc x))
next_seq float_suc (some (boolean true)) = some (integer (pos 2))
next_seq float_suc (some (boolean false)) = some (integer (pos 1))
next_seq float_suc _ = none

abbrev pub last_of {ℓ} : {A : Type ℓ} → A → List A → A
last_of r [] = r
last_of r (s ∷ ss) = last_of s ss

module _ {Bytes Key : Type 0} (H : Hashing Bytes Key) (T : Texts) where
  unfoldable pub entry_of : Forge → Json → String → Record
  entry_of f seq prev_hash =
      ("seq", seq)
      ∷ ("session_sha256", string (T.sha256_text f.session))
      ∷ ("kind", string f.kind)
      ∷ ("source_sha256", string (T.sha256_text f.source))
      ∷ ("input_sha256", string (T.sha256_text f.input_text))
      ∷ ("input_len", integer (pos (T.encoded_len f.input_text)))
      ∷ ("output_sha256", optional (λ s. string (T.sha256_text s)) f.output)
      ∷ ("output_len", optional (λ s. integer (pos (T.encoded_len s))) f.output)
      ∷ ("error", optional string f.err)
      ∷ ("grants", T.grants_json (redact_grants f.grants))
      ∷ ("fuel", integer (pos f.fuel))
      ∷ ("prev_hash", string prev_hash)
      ∷ []

  unfoldable pub signed_entry : Option Key → Record → Record
  signed_entry none entry = entry
  signed_entry (some key) entry = put "sig" (string (sign_entry H entry key)) entry

  -- The records of the session's file after the call; `none` where it raises and writes nothing.
  unfoldable pub append_or_raise : Option Key → Forge → List Record → Option (List Record)
  unfolding entry_of signed_entry
  append_or_raise key f [] =
      some (signed_entry key (entry_of f (integer (pos 0)) genesis_hash) ∷ [])
  append_or_raise key f (r ∷ rs) =
      let prior = last_of r rs in
      elim (next_seq T.float_suc (get "seq" prior)) [
        | none ↦ none
        | some seq ↦ some ((r ∷ rs) ++ signed_entry key (entry_of f seq (entry_hash H prior)) ∷ [])
      ]
