-- ===== src/Agent/Tools/Wire.antt =====
-- The wire format of a tool's arguments: the framing of `_dispatch` in agent.py.
use sigil_pi.Prelude.{
  ℕ, zero, suc, ◌^◌, ◌<◌, ◌≡◌, refl, Bool, true, false, ◌||◌, Option, none, some, List, [], ◌∷◌,
  ◌++◌, any, length, ltb, lt→ltb, ◌==◌, if◌then◌else◌, take, drop, Each, take-append, drop-append,
}
use sigil_pi.Agent.Json.{pos}
use sigil_pi.Agent.Decimal.{decimal}
use sigil_pi.Agent.PyInt.{int, digits_of}
use mathlib.Core.List.{append_assoc}
use sigil_pi.Agent.Frames.RoundTrip.{take_exact, drop_exact}
use sigil_pi.Agent.PyInt.Laws.{length-digits_of, int-digits_of}

-- `f"{n:08d}"`
unfoldable pub padded : ℕ → List ℕ
padded n = if ltb n (10 ^ 8) then digits_of 8 n else decimal n

-- The length of each argument, and the argument.
unfoldable pub framed : List (List ℕ) → List ℕ
unfolding padded
framed [] = []
framed (a ∷ as_) = (padded (length a) ++ a) ++ framed as_

-- `"|".join(args)`
unfoldable pub join_pipes : List (List ℕ) → List ℕ
join_pipes [] = []
join_pipes (a ∷ []) = a
join_pipes (a ∷ b ∷ rest) = a ++ b'|' ∷ join_pipes (b ∷ rest)

abbrev pub has_pipe : List ℕ → Bool
has_pipe = any (λ c. c == b'|')

-- `any("|" in a for a in args[:-1])`
unfoldable pub pipe_inside : List (List ℕ) → Bool
pipe_inside [] = false
pipe_inside (a ∷ []) = false
pipe_inside (a ∷ b ∷ rest) = has_pipe a || pipe_inside (b ∷ rest)

-- The text that the guest reads, or `none` where a pipe would shift the split.
unfoldable pub wire : Bool → List (List ℕ) → Option (List ℕ)
unfolding framed join_pipes pipe_inside
wire true args = some (framed args)
wire false args = if pipe_inside args then none else some (join_pipes args)

-- The first argument of a framed text: eight digits with a length, and so many bytes.
unfoldable pub next_arg : List ℕ → Option (List ℕ × List ℕ)
next_arg input = elim (int (take 8 input)) [
  | some (pos n) ↦ some (take n (drop 8 input), drop n (drop 8 input))
  | _ ↦ none
]

-- The arguments that a guest with `count` of them reads.
unfoldable pub unframed : ℕ → List ℕ → Option (List (List ℕ))
unfolding next_arg
unframed zero input = some []
unframed (suc count) input = elim (next_arg input) [
  | none ↦ none
  | some (a, rest) ↦ elim (unframed count rest) [ none ↦ none | some as_ ↦ some (a ∷ as_) ]
]

next_arg-append :
    (d a rest : List ℕ)
    → length d ≡ 8
    → int d ≡ some (pos (length a))
    → next_arg ((d ++ a) ++ rest) ≡ some (a, rest)
unfolding next_arg
next_arg-append d a rest len value = rw append_assoc (
    rw (take_exact 8 d (a ++ rest) len, next_arg)
      (rw value
        (rw (drop_exact 8 d (a ++ rest) len) (rw (take-append a rest, drop-append a rest) refl))))

next_arg-padded :
    (a rest : List ℕ)
    → length a < 10 ^ 8
    → next_arg ((padded (length a) ++ a) ++ rest) ≡ some (a, rest)
unfolding padded
next_arg-padded a rest small = rw (lt→ltb (length a) (10 ^ 8) small) (
    next_arg-append (digits_of 8 (length a)) a rest (length-digits_of 8 (length a))
      (int-digits_of 7 (length a) small))

-- Arguments below a hundred million bytes each, whatever bytes they are, are read back as they were.
pub unframed-framed :
    (args : List (List ℕ))
    → Each (λ a. length a < 10 ^ 8) args
    → unframed (length args) (framed args) ≡ some args
unfolding unframed framed
unframed-framed [] small = refl
unframed-framed (a ∷ as_) small =
    rw (next_arg-padded a (framed as_) small.0, unframed) (rw (unframed-framed as_ small.1) refl)
