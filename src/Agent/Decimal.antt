-- ===== src/Agent/Decimal.antt =====
-- `str(n)` for a nonnegative integer: its decimal digits.
use sigil_pi.Prelude.{ℕ, zero, suc, ◌/◌, ◌≤◌, ◌<◌, List, arith, length, ltb, if◌then◌else◌}
use sigil_pi.Agent.PyInt.{digits_of}
use sigil_pi.Agent.PyInt.Laws.{length-digits_of}

-- How many digits `n` has, on fuel above `n`.
width_from : ℕ → ℕ → ℕ
width_from zero n = 1
width_from (suc fuel) n = let rest = width_from fuel (n / 10) in if ltb n 10 then 1 else suc rest

unfoldable pub width : ℕ → ℕ
unfolding width_from
width n = width_from (suc n) n

unfoldable pub decimal : ℕ → List ℕ
decimal n = digits_of (width n) n

width_from-le : (f g m n : ℕ) → m ≤ n → m < f → n < g → width_from f m ≤ width_from g n
unfolding width_from
width_from-le zero g m n h hf hg = absurd (omega arith)
width_from-le (suc f) zero m n h hf hg = absurd (omega arith)
width_from-le (suc f) (suc g) m n h hf hg = ground (arith, width_from-le f g (m / 10) (n / 10))

-- A smaller number has no more digits.
pub length-decimal-le : (m n : ℕ) → m ≤ n → length (decimal m) ≤ length (decimal n)
unfolding decimal width
length-decimal-le m n h = omega (
  arith,
  length-digits_of (width m) m,
  length-digits_of (width n) n,
  width_from-le (suc m) (suc n) m n h (omega arith) (omega arith),
)
