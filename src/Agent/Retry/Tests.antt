-- ===== src/Agent/Retry/Tests.antt =====
-- Three answers of a model: a rate limit, a server failure, a reply. The world counts the forges and
-- the time slept.
use sigil_pi.Prelude.{ℕ, zero, suc, ◌+◌, ◌≡◌, refl, some, none, []}
use sigil_pi.Agent.Bytes.{bytes}
use sigil_pi.Agent.Retry.{
  llm_error_code, number_in_parentheses, llm, attempts, after_forge, reply, failed, Forged, ended,
}
use sigil_pi.Agent.Retry.Laws.{Answers, llm-Answers}

abbrev model : ℕ → Forged
model zero = ended [] (bytes "E: tool returned error (429)")
model (suc zero) = ended [] (bytes "tool returned error (502) x")
model (suc (suc n)) = ended (bytes "hi") []

abbrev forge : ℕ × ℕ → Forged × (ℕ × ℕ)
forge w = (model w.0, (w.0 + 1, w.1))

abbrev sleep : ℕ → ℕ × ℕ → ℕ × ℕ
sleep delay w = (w.0, w.1 + delay)

code-429 : llm_error_code (bytes "E: tool returned error (429)") ≡ some 429
unfolding llm_error_code number_in_parentheses
code-429 = refl

code-none : llm_error_code (bytes "tool returned error ()") ≡ none
unfolding llm_error_code number_in_parentheses
code-none = refl

third_time : llm forge sleep 2 0 (0, 0) ≡ (reply (bytes "hi"), 2, (3, 2500))
unfolding llm attempts after_forge llm_error_code number_in_parentheses
third_time = refl

given_up : llm forge sleep 1 0 (0, 0) ≡ (failed (bytes "tool returned error (502) x"), 1, (2, 500))
unfolding llm attempts after_forge llm_error_code number_in_parentheses
given_up = refl

llm-Answers_example : Answers forge sleep 2 500 0 (0, 0) (llm forge sleep 2 0 (0, 0))
llm-Answers_example = llm-Answers forge sleep 2 0 (0, 0)
