-- ===== src/Agent/Retry.antt =====
-- The retries of `PiAgent._llm` of agent.py, with `_llm_error_code` and `_llm_error_is_transient`. A
-- diagnostic is its bytes, none of them where there is no error. `forge` and `sleep` act on a world;
-- delays are in milliseconds. A negative `llm_retries` acts as 0.
pub mod Laws
mod Tests
use sigil_pi.Prelude.{
  ℕ, zero, suc, ◌+◌, ◌-◌, ◌*◌, Bool, true, false, ◌&&◌, ◌||◌, Option, none, some, List, [], ◌∷◌,
  leb, ◌==◌, if◌then◌else◌,
}
use sigil_pi.Agent.Bytes.{bytes}
use sigil_pi.Agent.PyInt.{is_digit}

abbrev pub strip_prefix : List ℕ → List ℕ → Option (List ℕ)
strip_prefix [] s = some s
strip_prefix (c ∷ p) [] = none
strip_prefix (c ∷ p) (d ∷ s) = if c == d then strip_prefix p s else none

-- `(\d+)\)`, the number so far in `n`
unfoldable pub number_in_parentheses : Option ℕ → List ℕ → Option ℕ
number_in_parentheses n [] = none
number_in_parentheses n (c ∷ s) =
    let before : ℕ = elim n [ none ↦ 0 | some k ↦ k ] in
    let more = number_in_parentheses (some (before * 10 + (c - b'0'))) s in
    if is_digit c then more else if c == b')' then n else none

abbrev pub code_here : List ℕ → Option ℕ
code_here s = elim (strip_prefix (bytes "tool returned error (") s) [
  | none ↦ none
  | some rest ↦ number_in_parentheses none rest
]

-- The leftmost match.
unfoldable pub llm_error_code : List ℕ → Option ℕ
unfolding number_in_parentheses
llm_error_code [] = none
llm_error_code (c ∷ s) =
    let later = llm_error_code s in elim (code_here (c ∷ s)) [ none ↦ later | some n ↦ some n ]

abbrev pub llm_error_is_transient : Option ℕ → Bool
llm_error_is_transient none = false
llm_error_is_transient (some n) = n == 408 || n == 429 || (leb 500 n && leb n 599)

-- The exceptions that leave `_forge`: its `TimeoutError`, and the runtime's own.
pub data Exception : Type 0 where
  timeout_error runtime_exception : Exception

-- How `_forge` ends: with the output and the diagnostic, or with an exception.
pub data Forged : Type 0 where
  ended : List ℕ → List ℕ → Forged
  raised : Exception → Forged

-- The return of the loop, its `RuntimeError` with the diagnostic, or an exception of `_forge`, which the
-- loop does not catch.
pub data Outcome : Type 0 where
  reply failed : List ℕ → Outcome
  passed : Exception → Outcome

-- What follows a forge: `retry` is what a transient error leads to, if a retry is left.
unfoldable pub after_forge :
    {W : Type 0} → Option (W → Outcome × ℕ × W) → ℕ → Forged × W → Outcome × ℕ × W
unfolding llm_error_code
after_forge retry retries (raised e, w) = (passed e, retries, w)
after_forge retry retries (ended out [], w) = (reply out, retries, w)
after_forge none retries (ended out (c ∷ err), w) = (failed (c ∷ err), retries, w)
after_forge (some retry) retries (ended out (c ∷ err), w) =
    if llm_error_is_transient (llm_error_code (c ∷ err))
    then retry w
    else (failed (c ∷ err), retries, w)

module _ {W : Type 0} (forge : W → Forged × W) (sleep : ℕ → W → W) where
  -- The loop: `left` retries are left, `retries` are counted so far.
  unfoldable pub attempts : ℕ → ℕ → ℕ → W → Outcome × ℕ × W
  unfolding after_forge
  attempts zero delay retries w = after_forge none retries (forge w)
  attempts (suc left) delay retries w =
      after_forge (some (λ w'. attempts left (delay * 4) (retries + 1) (sleep delay w'))) retries
        (forge w)

  unfoldable pub llm : ℕ → ℕ → W → Outcome × ℕ × W
  unfolding attempts
  llm llm_retries retries w = attempts llm_retries 500 retries w
