-- ===== src/Agent/Memory/Buffer.antt =====
-- `PiMemory.record` of agent.py: the buffer of the records that a busy or dead child could not take.
-- `_pending_guard` is held throughout.
pub mod Bounded
use sigil_pi.Prelude.{
  ℕ, suc, ◌-◌, String, Bool, true, false, ◌||◌, Option, none, some, List, [], ◌∷◌, ◌++◌, length,
  drop, ltb, str_eq, if◌then◌else◌,
}
use sigil_pi.Agent.Json.{Json, string, object, Fields, end, field, lookup}
use sigil_pi.Agent.Memory.{Host, Outcome, reply, raised, call, get, is_text}

abbrev pub max_memory_pending : ℕ
max_memory_pending = 256

-- `_id` and `_pending`
pub record State : Type 0 where
  pub last_id : ℕ
  pub pending : List Fields

abbrev pub record_request : String → String → String → Fields
record_request session text kind =
    field "op" (string "record") (
      field "session" (string session)
        (field "text" (string text) (field "kind" (string kind) end)))

-- Whether a record waits on, by the code of the error; `none` where the error is no object.
abbrev pub waits : Option Json → Option Bool
waits none = some false
waits (some (object e)) = some (is_text "busy" (get "code" e) || is_text "dead" (get "code" e))
waits (some _) = none

-- The buffer with a new record, without its oldest one if it is too long.
abbrev pub pushed : Fields → List Fields → List Fields
pushed request pending =
    let longer = pending ++ request ∷ [] in
    if ltb max_memory_pending (length longer) then drop 1 longer else longer

abbrev pub keep_if : Bool → Fields → Option (List Fields) → Option (List Fields)
keep_if waiting request none = none
keep_if waiting request (some still) = some (if waiting then request ∷ still else still)

module _ {W : Type 0} (host : Host W) where
  abbrev pub kept : Bool → Fields → Option (List Fields) × ℕ × W → Option (List Fields) × ℕ × W
  kept waiting request (still, last, w) = (keep_if waiting request still, last, w)

  abbrev pub after_reply :
      Fields
      → (ℕ → W → Option (List Fields) × ℕ × W)
      → Outcome × ℕ × W
      → Option (List Fields) × ℕ × W
  after_reply request next (raised, last, w) = (none, last, w)
  after_reply request next (reply fields, last, w) = elim (waits (lookup "err" fields)) [
    | none ↦ (none, last, w)
    | some waiting ↦ kept waiting request (next last w)
  ]

  -- The loop over the buffer: what waits on, or the exception.
  unfoldable pub flush : List Fields → ℕ → W → Option (List Fields) × ℕ × W
  unfolding call
  flush [] last w = (some [], last, w)
  flush (request ∷ rest) last w =
      after_reply request (λ l v. flush rest l v) (call host true request last w)

  -- After an exception the buffer is as the push left it.
  abbrev pub flushed : List Fields → Option (List Fields) × ℕ × W → Bool × State × W
  flushed pending (none, last, w) = (false, record { last_id = last; pending = pending }, w)
  flushed pending (some still, last, w) = (true, record { last_id = last; pending = still }, w)

  -- `record`, and whether it returns.
  unfoldable pub record_text : String → String → String → State → W → Bool × State × W
  unfolding flush
  record_text session text kind s w =
      if str_eq text ""
      then (true, s, w)
      else flushed (pushed (record_request session text kind) s.pending)
          (flush (pushed (record_request session text kind) s.pending) s.last_id w)

  abbrev pub again : (State → W → Bool × State × W) → Bool × State × W → Bool × State × W
  again next (true, s, w) = next s w
  again next (false, s, w) = (false, s, w)

  -- Records one after the other: session, text and kind.
  unfoldable pub records : List (String × String × String) → State → W → Bool × State × W
  unfolding record_text
  records [] s w = (true, s, w)
  records ((session, text, kind) ∷ rest) s w =
      again (λ t v. records rest t v) (record_text session text kind s w)
