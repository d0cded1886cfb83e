-- ===== src/Agent/Front/Access.antt =====
-- Who reaches the agent through its HTTP front.
use sigil_pi.Prelude.{
  ◌≡◌, refl, arith, String, Bool, true, false, Option, none, some, ◌⊎◌, inl, inr, str_eq, if_both,
  Bool-cases,
}
use sigil_pi.Agent.Front.{
  Host, Request, unauthorized, presents, check_auth, handle, serve, token_of, bind_is_loopback,
}

module _ {W : Type 0} (host : Host W) where
  -- The header has the token, which is not empty.
  abbrev pub Presents : Option String → String → Type 0
  Presents header token = (h : String) × (header ≡ some h) × (presents host h token ≡ true)

  check_auth_cases :
      (header : Option String) (token : String)
      → (str_eq token "" ≡ false)
      → (check_auth host header (some token) ≡ false) ⊎ Presents header token
  unfolding check_auth
  check_auth_cases none token filled = inl filled
  check_auth_cases (some h) token filled =
      if_both (λ b. (b ≡ false) ⊎ Presents (some h) token) (str_eq token "")
        (λ empty. absurd (ground (arith, filled, empty)))
        (λ _.
          if_both (λ b. (b ≡ false) ⊎ Presents (some h) token) (str_eq h "") (λ empty. inl refl)
            (λ _. go (presents host h token) refl))
    where
      go : (b : Bool) → presents host h token ≡ b → (b ≡ false) ⊎ Presents (some h) token
      go true e = inr (h, refl, e)
      go false e = inl refl

  handle_cases :
      (has_scheduler : Bool) (token : String) (r : Request) (w : W)
      → (str_eq token "" ≡ false)
      → (handle host (some token) has_scheduler r w ≡ (unauthorized, w))
        ⊎ Presents r.authorization token
  unfolding handle
  handle_cases has_scheduler token r w filled =
      elim (check_auth_cases r.authorization token filled) [
        | inl no_token ↦ inl (rw (no_token, handle) refl)
        | inr shown ↦ inr shown
      ]

  -- A request is answered 401 and changes nothing, or it has the token `t`.
  abbrev pub Guarded : Option String → Bool → Request → W → String → Type 0
  Guarded token has_scheduler r w t =
      (handle host token has_scheduler r w ≡ (unauthorized, w)) ⊎ Presents r.authorization t

  serve_filled :
      (bind t : String) (token : Option String)
      → (str_eq t "" ≡ false)
      → serve host bind (some t) ≡ some token
      → token ≡ some t
  unfolding serve
  serve_filled bind t token filled e = ground (arith, filled, e)

  serve_empty :
      (bind t : String) (token : Option String)
      → (str_eq t "" ≡ true)
      → serve host bind (some t) ≡ some token
      → bind_is_loopback host bind ≡ true
  unfolding serve
  serve_empty bind t token empty e = ground (arith, empty, e)

  -- Where `serve` starts: with a token configured (one that is not empty), a request is answered 401 and
  -- changes nothing unless its header has the token; and without one the bind is to a loopback address.
  pub serve_guards :
      (bind : String) (auth_token token : Option String) (has_scheduler : Bool) (r : Request)
      (w : W)
      → serve host bind auth_token ≡ some token
      → ((t : String) × (token_of auth_token ≡ some t) × Guarded token has_scheduler r w t)
        ⊎ ((token_of auth_token ≡ none) × (bind_is_loopback host bind ≡ true))
  unfolding serve
  serve_guards bind none token has_scheduler r w e = inr (refl, ground (arith, e))
  serve_guards bind (some t) token has_scheduler r w e = elim (Bool-cases (str_eq t "")) [
    | inl empty ↦ inr (rw (empty) refl, serve_empty bind t token empty e)
    | inr filled ↦ inl (
      t,
      rw (filled) refl,
      rw (serve_filled bind t token filled e) (handle_cases has_scheduler t r w filled),
    )
  ]
