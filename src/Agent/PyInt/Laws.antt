-- ===== src/Agent/PyInt/Laws.antt =====
-- `int` reads back what `digits_of` writes.
use sigil_pi.Prelude.{
  ℕ, zero, suc, ◌+◌, ◌-◌, ◌*◌, ◌/◌, ◌%◌, ◌^◌, ◌<◌, ◌≡◌, refl, ap, sym, subst, ◌∙◌, true, List, [],
  ◌∷◌, ◌++◌, some, arith, length, length-append, Each,
}
use sigil_pi.Agent.Json.{pos}
use sigil_pi.Agent.PyInt.{
  is_digit, strip_left, strip, digits_from, magnitude, signed, int, digits_of,
}
use native.Mathlib.Nat.{pow-suc}
use mathlib.Core.List.{reverse, reverse-append, reverse-reverse}

abbrev pub Digits : List ℕ → Type 0
Digits = Each (λ c. is_digit c ≡ true)

pub length-digits_of : (k n : ℕ) → length (digits_of k n) ≡ k
unfolding digits_of
length-digits_of zero n = refl
length-digits_of (suc k) n =
    omega (
      arith,
      length-append (digits_of k (n / 10)) ((48 + n % 10) ∷ []),
      length-digits_of k (n / 10),
    )

Digits-append : (xs ys : List ℕ) → Digits xs → Digits ys → Digits (xs ++ ys)
Digits-append [] ys hx hy = hy
Digits-append (x ∷ xs) ys hx hy = (hx.0, Digits-append xs ys hx.1 hy)

pub digits_of-Digits : (k n : ℕ) → Digits (digits_of k n)
unfolding digits_of
digits_of-Digits zero n = tt
digits_of-Digits (suc k) n =
    Digits-append (digits_of k (n / 10)) ((48 + n % 10) ∷ []) (digits_of-Digits k (n / 10))
      (ground arith, tt)

-- The number that digits stand for, read after `n`.
unfoldable pub value : ℕ → List ℕ → ℕ
value n [] = n
value n (c ∷ cs) = value (n * 10 + (c - 48)) cs

value-append : (n : ℕ) (xs ys : List ℕ) → value n (xs ++ ys) ≡ value (value n xs) ys
unfolding value
value-append n [] ys = refl
value-append n (x ∷ xs) ys = value-append (n * 10 + (x - 48)) xs ys

digits_from-value : (n : ℕ) (cs : List ℕ) → Digits cs → digits_from n cs ≡ some (value n cs)
unfolding digits_from value
digits_from-value n [] h = refl
digits_from-value n (c ∷ []) h = ground (arith, h.0)
digits_from-value n (c ∷ d ∷ cs) h =
    ground (arith, h.0, digits_from-value (n * 10 + (c - 48)) (d ∷ cs) h.1)

value-digits_of : (k n : ℕ) → n < 10 ^ k → value 0 (digits_of k n) ≡ n
unfolding digits_of value
value-digits_of zero n h = omega arith
value-digits_of (suc k) n h =
    let small : n / 10 < 10 ^ k = omega (arith, pow-suc 10 k) in
    value-append 0 (digits_of k (n / 10)) ((48 + n % 10) ∷ [])
    ∙ omega (arith, value-digits_of k (n / 10) small)

strip_left-digit : (c : ℕ) (cs : List ℕ) → is_digit c ≡ true → strip_left (c ∷ cs) ≡ c ∷ cs
unfolding strip_left
strip_left-digit c cs h = ground (arith, h)

-- Text that begins and ends with a digit has no white space to strip.
strip-digits :
    (c d : ℕ) (xs cs : List ℕ)
    → is_digit c ≡ true
    → is_digit d ≡ true
    → c ∷ cs ≡ xs ++ d ∷ []
    → strip (c ∷ cs) ≡ c ∷ cs
unfolding strip
strip-digits c d xs cs hc hd e =
    let rev : reverse (c ∷ cs) ≡ d ∷ reverse xs = ap reverse e ∙ reverse-append xs (d ∷ []) in
    rw (strip_left-digit c cs hc, rev, strip_left-digit d (reverse xs) hd, ← rev)
      (reverse-reverse (c ∷ cs))

signed-Digits :
    (c : ℕ) (cs : List ℕ) → Digits (c ∷ cs) → signed (c ∷ cs) ≡ some (pos (value 0 (c ∷ cs)))
unfolding signed magnitude value
signed-Digits c cs h = ground (arith, h.0, digits_from-value (c - 48) cs h.1)

-- A text of digits has a last one.
last_digit :
    (c : ℕ) (cs : List ℕ)
    → Digits (c ∷ cs)
    → (xs : List ℕ) × (d : ℕ) × (c ∷ cs ≡ xs ++ d ∷ []) × (is_digit d ≡ true)
last_digit c [] h = ([], c, refl, h.0)
last_digit c (e ∷ cs) h =
    let (xs, d, same, last) = last_digit e cs h.1 in (c ∷ xs, d, ap (λ l. c ∷ l) same, last)

-- `int` reads any digits, however many zeros they begin with.
pub int-Digits :
    (c : ℕ) (cs : List ℕ) → Digits (c ∷ cs) → int (c ∷ cs) ≡ some (pos (value 0 (c ∷ cs)))
unfolding int
int-Digits c cs h =
    let (xs, d, same, last) = last_digit c cs h in
    rw (strip-digits c d xs cs h.0 last same, signed-Digits c cs h)

int-of_digits :
    (k n : ℕ) (l : List ℕ) → l ≡ digits_of (suc k) n → n < 10 ^ suc k → int l ≡ some (pos n)
unfolding digits_of
int-of_digits k n [] e h =
    absurd (omega (arith, ap length e, length-append (digits_of k (n / 10)) ((48 + n % 10) ∷ [])))
int-of_digits k n (c ∷ cs) e h =
    let ds : Digits (c ∷ cs) = subst Digits (sym e) (digits_of-Digits (suc k) n) in
    let v : value 0 (c ∷ cs) ≡ n = ap (value 0) e ∙ value-digits_of (suc k) n h in
    int-Digits c cs ds ∙ ap (λ m. some (pos m)) v

-- `int` reads the decimal digits of every number that fits them.
pub int-digits_of : (k n : ℕ) → n < 10 ^ suc k → int (digits_of (suc k) n) ≡ some (pos n)
int-digits_of k n h = int-of_digits k n (digits_of (suc k) n) refl h
