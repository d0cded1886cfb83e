-- ===== src/Prelude/Table.antt =====
-- Tables of rows, with the SQL statements that the quota store uses.
use Prim.Native.Nat.{ℕ, ◌+◌, ◌≤◌}
use mathlib.Core.Path.{◌≡◌, refl}
use mathlib.Core.Bool.{Bool, true}
use mathlib.Core.List.{List, [], ◌∷◌}
use mathlib.Core.Option.{Option, none, some}
use native.Mathlib.Omega.{arith}
use sigil_pi.Prelude.Tests.{if◌then◌else◌}

module _ {ℓ} {A : Type ℓ} where
  -- `SELECT COALESCE(SUM(f),0) FROM rows WHERE p`
  unfoldable pub sum_where : (A → Bool) → (A → ℕ) → List A → ℕ
  sum_where p f [] = 0
  sum_where p f (x ∷ xs) = (if p x then f x else 0) + sum_where p f xs

  -- `SELECT COUNT(*) FROM rows WHERE p`
  unfoldable pub count_where : (A → Bool) → List A → ℕ
  count_where p [] = 0
  count_where p (x ∷ xs) = (if p x then 1 else 0) + count_where p xs

  -- `DELETE FROM rows WHERE p`
  unfoldable pub delete_where : (A → Bool) → List A → List A
  delete_where p [] = []
  delete_where p (x ∷ xs) = let rest = delete_where p xs in if p x then rest else x ∷ rest

  -- `SELECT … FROM rows WHERE p`, the first row
  unfoldable pub find_where : (A → Bool) → List A → Option A
  find_where p [] = none
  find_where p (x ∷ xs) = if p x then some x else find_where p xs

  -- `INSERT … ON CONFLICT DO UPDATE`, where `p` tells the row with the new row's key
  unfoldable pub upsert : (A → Bool) → (A → A) → A → List A → List A
  upsert p update new [] = new ∷ []
  upsert p update new (x ∷ xs) = if p x then update x ∷ xs else x ∷ upsert p update new xs

  -- `UPDATE rows SET … WHERE p`
  unfoldable pub update_where : (A → Bool) → (A → A) → List A → List A
  update_where p update [] = []
  update_where p update (x ∷ xs) = (if p x then update x else x) ∷ update_where p update xs

  pub sum_where-delete_where-le :
      (p q : A → Bool) (f : A → ℕ) (xs : List A)
      → sum_where p f (delete_where q xs) ≤ sum_where p f xs
  unfolding sum_where delete_where
  sum_where-delete_where-le p q f [] = omega arith
  sum_where-delete_where-le p q f (x ∷ xs) = ground (arith, sum_where-delete_where-le p q f xs)

  pub count_where-delete_where-le :
      (p q : A → Bool) (xs : List A) → count_where p (delete_where q xs) ≤ count_where p xs
  unfolding count_where delete_where
  count_where-delete_where-le p q [] = omega arith
  count_where-delete_where-le p q (x ∷ xs) = ground (arith, count_where-delete_where-le p q xs)

  -- What a deletion takes out of a sum: at least the first deleted row's part.
  pub sum_where-delete_where_found :
      (p q : A → Bool) (f : A → ℕ) (xs : List A) {x : A}
      → find_where q xs ≡ some x
      → p x ≡ true
      → sum_where p f (delete_where q xs) + f x ≤ sum_where p f xs
  unfolding sum_where delete_where find_where
  sum_where-delete_where_found p q f [] e h = absurd (ground arith)
  sum_where-delete_where_found p q f (y ∷ xs) {x} e h =
      ground
        (arith, sum_where-delete_where_found p q f xs {x = x}, sum_where-delete_where-le p q f xs)

  -- What an upsert does to a sum: the old row's part goes out, the new row's part comes in.
  pub sum_where-upsert_found :
      (p k : A → Bool) (f : A → ℕ) (u : A → A) (new : A) (xs : List A) {x : A}
      → find_where k xs ≡ some x
      → p (u x) ≡ p x
      → sum_where p f (upsert k u new xs) + (if p x then f x else 0)
        ≡ sum_where p f xs + (if p x then f (u x) else 0)
  unfolding sum_where upsert find_where
  sum_where-upsert_found p k f u new [] e h = absurd (ground arith)
  sum_where-upsert_found p k f u new (y ∷ xs) {x} e h =
      ground (arith, sum_where-upsert_found p k f u new xs {x = x})

  pub sum_where-upsert_new :
      (p k : A → Bool) (f : A → ℕ) (u : A → A) (new : A) (xs : List A)
      → find_where k xs ≡ none
      → sum_where p f (upsert k u new xs) ≡ sum_where p f xs + (if p new then f new else 0)
  unfolding sum_where upsert find_where
  sum_where-upsert_new p k f u new [] e = omega arith
  sum_where-upsert_new p k f u new (y ∷ xs) e = ground (arith, sum_where-upsert_new p k f u new xs)

  -- An upsert that leaves `f` of each row alone, or adds a row where `f` is 0, keeps each sum.
  pub sum_where-upsert_same :
      (p k : A → Bool) (f : A → ℕ) (u : A → A) (new : A) (xs : List A)
      → ((x : A) → p (u x) ≡ p x)
      → ((x : A) → f (u x) ≡ f x)
      → f new ≡ 0
      → sum_where p f (upsert k u new xs) ≡ sum_where p f xs
  unfolding sum_where upsert
  sum_where-upsert_same p k f u new [] hp hf hn = ground arith
  sum_where-upsert_same p k f u new (y ∷ xs) hp hf hn =
      ground (arith, hp y, hf y, sum_where-upsert_same p k f u new xs hp hf hn)

  pub find_where_holds :
      (p : A → Bool) (xs : List A) {x : A} → find_where p xs ≡ some x → p x ≡ true
  unfolding find_where
  find_where_holds p [] e = absurd (ground arith)
  find_where_holds p (y ∷ xs) {x} e = ground (arith, find_where_holds p xs {x = x})

  -- A deletion that finds no row changes nothing.
  pub delete_where_absent :
      (p : A → Bool) (xs : List A) → find_where p xs ≡ none → delete_where p xs ≡ xs
  unfolding find_where delete_where
  delete_where_absent p [] e = refl
  delete_where_absent p (x ∷ xs) e = ground (arith, delete_where_absent p xs)

  pub find_where-delete_where_absent :
      (p q : A → Bool) (xs : List A)
      → find_where p xs ≡ none
      → find_where p (delete_where q xs) ≡ none
  unfolding find_where delete_where
  find_where-delete_where_absent p q [] e = refl
  find_where-delete_where_absent p q (x ∷ xs) e =
      ground (arith, find_where-delete_where_absent p q xs)

  pub find_where-delete_where :
      (p : A → Bool) (xs : List A) → find_where p (delete_where p xs) ≡ none
  unfolding find_where delete_where
  find_where-delete_where p [] = refl
  find_where-delete_where p (x ∷ xs) = ground (arith, find_where-delete_where p xs)
