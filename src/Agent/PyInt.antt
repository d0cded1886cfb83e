-- ===== src/Agent/PyInt.antt =====
-- Python's `int` on ASCII bytes: white space round it, a sign, digits with single underscores
-- between them. `none` is a `ValueError`. And `f"{n:08d}"`.
pub mod Laws
use sigil_pi.Prelude.{
  ℕ, zero, suc, ◌+◌, ◌-◌, ◌*◌, ◌/◌, ◌%◌, ◌^◌, Bool, true, false, ◌&&◌, ◌||◌, List, [], ◌∷◌, ◌++◌,
  Option, none, some, leb, ◌==◌, if◌then◌else◌,
}
use sigil_pi.Agent.Json.{ℤ, pos, negsuc}
use mathlib.Core.List.{reverse}

abbrev pub is_space : ℕ → Bool
is_space c = c == 32 || (leb 9 c && leb c 13)

abbrev pub is_digit : ℕ → Bool
is_digit c = leb b'0' c && leb c b'9'

unfoldable pub strip_left : List ℕ → List ℕ
strip_left [] = []
strip_left (c ∷ cs) = let rest = strip_left cs in if is_space c then rest else c ∷ cs

-- `s.strip()`
unfoldable pub strip : List ℕ → List ℕ
unfolding strip_left
strip s = reverse (strip_left (reverse (strip_left s)))

-- The digits after at least one digit; an underscore must stand between two digits.
unfoldable pub digits_from : ℕ → List ℕ → Option ℕ
digits_from n [] = some n
digits_from n (c ∷ []) = if is_digit c then some (n * 10 + (c - b'0')) else none
digits_from n (c ∷ d ∷ cs) =
    let underscored = digits_from (n * 10 + (d - b'0')) cs in
    let plain = digits_from (n * 10 + (c - b'0')) (d ∷ cs) in
    if is_digit c then plain else if c == b'_' && is_digit d then underscored else none

unfoldable pub magnitude : List ℕ → Option ℕ
unfolding digits_from
magnitude [] = none
magnitude (c ∷ cs) = if is_digit c then digits_from (c - b'0') cs else none

abbrev pub negate : ℕ → ℤ
negate zero = pos 0
negate (suc n) = negsuc n

unfoldable pub signed : List ℕ → Option ℤ
unfolding magnitude
signed [] = none
signed (c ∷ cs) =
    if c == b'-'
    then elim (magnitude cs) [ none ↦ none | some n ↦ some (negate n) ]
    else if c == b'+'
    then elim (magnitude cs) [ none ↦ none | some n ↦ some (pos n) ]
    else elim (magnitude (c ∷ cs)) [ none ↦ none | some n ↦ some (pos n) ]

unfoldable pub int : List ℕ → Option ℤ
unfolding strip signed
int s = signed (strip s)

-- The decimal digits of `n`, at least `k` of them, the last `k` where `n` has more.
unfoldable pub digits_of : ℕ → ℕ → List ℕ
digits_of zero n = []
digits_of (suc k) n = digits_of k (n / 10) ++ (b'0' + n % 10) ∷ []
