-- ===== src/Product/Errors.antt =====
-- `ProductError` of product_service.py, and the results of calls that may raise it.
use sigil_pi.Prelude.{ℕ, String, Option}

pub record ProductError : Type 0 where
  pub status : ℕ
  pub code : String
  pub message : String
  pub retry_after : Option ℕ

pub data Reply {ℓ} (A : Type ℓ) : Type ℓ where
  ok : A → Reply A
  err : ProductError → Reply A
