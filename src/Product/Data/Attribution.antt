-- ===== src/Product/Data/Attribution.antt =====
-- Files that belong to registered sessions: what `verify_quota_registry` refuses to start without.
use sigil_pi.Prelude.{
  ◌≡◌, refl, arith, String, Bool, true, false, none, some, List, [], ◌∷◌, any, map, Each, str_eq,
  eq_iff, Option-cases, inl, inr, ap,
}
use sigil_pi.Prelude.Dict.{Dict, get, without, get-without}
use sigil_pi.Prelude.Table.{delete_where}
use sigil_pi.Product.Quota.{Usage}
use sigil_pi.Product.Data.{
  Files, all_among, verify_quota_registry, stem, short_stem, delete_internal_files,
}
use sigil_pi.Product.Service.Paths.{first_chars}

-- The internal names of the registered sessions.
unfoldable pub internals : List Usage → List String
internals [] = []
internals (u ∷ rest) = elim u.internal_session [
  | none ↦ internals rest
  | some i ↦ i ∷ internals rest
]

-- Whether `n` is the stem of a registered session's file.
abbrev pub among : (String → String) → String → List Usage → Bool
among f n rows = any (str_eq n) (map f (internals rows))

-- Where `p` holds of a row, its session's files have the stem `k`.
abbrev pub StemIs : (String → String) → (Usage → Bool) → String → Usage → Type 0
StemIs f p k u = (i : String) → p u ≡ true → u.internal_session ≡ some i → f i ≡ k

short-StemIs :
    (f g : String → String) (p : Usage → Bool) (k : String) (rows : List Usage)
    → Each (StemIs f p k) rows
    → Each (StemIs (λ i. g (f i)) p (g k)) rows
short-StemIs f g p k [] same = tt
short-StemIs f g p k (u ∷ rest) same =
    (λ i gone e. ap g (same.0 i gone e), short-StemIs f g p k rest same.1)

-- Rows with the stem `k` may go: every other stem stays.
among-delete_where :
    (f : String → String) (p : Usage → Bool) (k n : String) (rows : List Usage)
    → Each (StemIs f p k) rows
    → str_eq k n ≡ false
    → among f n rows ≡ true
    → among f n (delete_where p rows) ≡ true
unfolding internals delete_where
among-delete_where f p k n [] same other h = h
among-delete_where f p k n (u ∷ rest) same other h =
    let rest_kept = among-delete_where f p k n rest same.1 other in
    elim (Option-cases u.internal_session) [
      | inl e ↦ ground (arith, e, rest_kept)
      | inr (i, e) ↦ ground (arith, e, same.0 i, eq_iff n (f i), eq_iff k n, rest_kept)
    ]

all_among-without {ℓ} :
    {V : Type ℓ} (k : String) (names names' : List String) (d : Dict V)
    → ((n : String)
        → str_eq k n ≡ false
        → any (str_eq n) names ≡ true
        → any (str_eq n) names' ≡ true)
    → all_among names d ≡ true
    → all_among names' (without k d) ≡ true
unfolding without
all_among-without k names names' [] keeps h = refl
all_among-without k names names' ((n, v) ∷ d) keeps h =
    ground (arith, eq_iff k n, eq_iff n k, keeps n, all_among-without k names names' d keeps)

module _ (digest : String → String) where
  -- Each file belongs to a registered session.
  abbrev pub IsAttributed : List Usage → Files → Type 0
  IsAttributed rows files = verify_quota_registry digest (internals rows) files ≡ true

  -- The files of a session are gone.
  pub record IsErased (internal : String) (files : Files) : Type 0 where
    pub conversation : get (stem digest internal) files.conversations ≡ none
    pub sandbox : get (short_stem digest internal) files.sandboxes ≡ none
    pub audit : get (stem digest internal) files.audits ≡ none

  pub delete_internal_files-IsErased :
      (internal : String) (files : Files)
      → IsErased internal (delete_internal_files digest internal files)
  unfolding delete_internal_files
  delete_internal_files-IsErased internal files = record {
    conversation = ground (
      arith,
      get-without (stem digest internal) (stem digest internal) files.conversations,
      eq_iff (stem digest internal) (stem digest internal),
    );
    sandbox = ground (
      arith,
      get-without (short_stem digest internal) (short_stem digest internal) files.sandboxes,
      eq_iff (short_stem digest internal) (short_stem digest internal),
    );
    audit = ground (
      arith,
      get-without (stem digest internal) (stem digest internal) files.audits,
      eq_iff (stem digest internal) (stem digest internal),
    );
  }

  -- Rows whose sessions have the stems of an erased session may go.
  pub delete-IsAttributed :
      (p : Usage → Bool) (internal : String) (rows : List Usage) (files : Files)
      → Each (StemIs digest p (digest internal)) rows
      → IsAttributed rows files
      → IsAttributed (delete_where p rows) (delete_internal_files digest internal files)
  unfolding verify_quota_registry delete_internal_files
  delete-IsAttributed p internal rows files same h = ground (
    arith,
    all_among-without (stem digest internal) (map digest (internals rows))
        (map digest (internals (delete_where p rows))) files.conversations
        (λ n. among-delete_where digest p (digest internal) n rows same),
    all_among-without (stem digest internal) (map digest (internals rows))
        (map digest (internals (delete_where p rows))) files.audits
        (λ n. among-delete_where digest p (digest internal) n rows same),
    all_among-without (short_stem digest internal) (map (short_stem digest) (internals rows))
        (map (short_stem digest) (internals (delete_where p rows))) files.sandboxes
        (λ n.
          among-delete_where (short_stem digest) p (short_stem digest internal) n rows
            (short-StemIs digest (first_chars 16) p (digest internal) rows same)),
  )
