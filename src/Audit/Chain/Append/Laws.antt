-- ===== src/Audit/Chain/Append/Laws.antt =====
-- A chain that verifies still verifies after an append.
use sigil_pi.Prelude.{
  ℕ, suc, ◌+◌, ◌≡◌, refl, ap, sym, subst, ◌∙◌, String, false, Option, none, some, List, [], ◌∷◌,
  ◌++◌, str_eq, eq_refl, arith, length, length-append, Each, Each-append,
}
use sigil_pi.Prelude.Dict.{get, put, without}
use sigil_pi.Agent.Json.{ℤ, pos, negsuc, integer}
use sigil_pi.Audit.Chain.{
  Record, Hashing, verified, genesis_hash, entry_hash, sign_entry, check_signature, check_record,
  verify_from, verify_chain, head_hash,
}
use sigil_pi.Audit.Chain.Append.{
  Forge, Texts, next_seq, last_of, entry_of, signed_entry, append_or_raise,
}

-- Sequence numbers that JSON writes as integers, as this class does.
abbrev pub IntegerSeqs : List Record → Type 0
IntegerSeqs = Each (λ (r : Record). (n : ℤ) × (get "seq" r ≡ some (integer n)))

module _ {Bytes Key : Type 0} (H : Hashing Bytes Key) where
  pub verify_from-cons :
      (key : Option Key) (expected : String) (i : ℕ) (r : Record) (rs : List Record)
      → verify_from H key expected i (r ∷ rs) ≡ verified
      → (check_record H key expected i r ≡ verified)
        × (verify_from H key (entry_hash H r) (suc i) rs ≡ verified)
  unfolding verify_from
  verify_from-cons key expected i r rs h = ground arith

  pub verify_from_step :
      (key : Option Key) (expected : String) (i : ℕ) (r : Record) (rs : List Record)
      → check_record H key expected i r ≡ verified
      → verify_from H key (entry_hash H r) (suc i) rs ≡ verified
      → verify_from H key expected i (r ∷ rs) ≡ verified
  unfolding verify_from
  verify_from_step key expected i r rs c h = rw (c, verify_from) h

  verify_from-append :
      (key : Option Key) (expected : String) (i : ℕ) (rs : List Record) (r : Record)
      → verify_from H key expected i rs ≡ verified
      → check_record H key (head_hash H expected rs) (i + length rs) r ≡ verified
      → verify_from H key expected i (rs ++ r ∷ []) ≡ verified
  unfolding head_hash
  verify_from-append key expected i [] r h c =
      let here : i + 0 ≡ i = omega arith in
      verify_from_step key expected i r [] (rw here at c) (unfold verify_from in refl)
  verify_from-append key expected i (s ∷ rs) r h c =
      let (first, rest) = verify_from-cons key expected i s rs h in
      let e : i + suc (length rs) ≡ suc i + length rs = omega arith in
      verify_from_step key expected i s (rs ++ r ∷ []) first
        (verify_from-append key (entry_hash H s) (suc i) rs r rest (rw e at c))

  head_hash-last :
      (expected : String) (r : Record) (rs : List Record)
      → head_hash H expected (r ∷ rs) ≡ entry_hash H (last_of r rs)
  unfolding head_hash
  head_hash-last expected r [] = refl
  head_hash-last expected r (s ∷ rs) = head_hash-last (entry_hash H r) s rs

  seq-verified :
      (key : Option Key) (expected : String) (i : ℕ) (r : Record) (n : ℤ)
      → check_record H key expected i r ≡ verified
      → get "seq" r ≡ some (integer n)
      → n ≡ pos i
  unfolding check_record
  seq-verified key expected i r (pos n) h e = ground (arith, e)
  seq-verified key expected i r (negsuc n) h e = absurd (ground (arith, e))

  -- The next sequence number after a chain that verifies.
  next_seq-verified :
      (float_suc : String → String) (key : Option Key) (expected : String) (i : ℕ) (r : Record)
      (rs : List Record)
      → verify_from H key expected i (r ∷ rs) ≡ verified
      → IntegerSeqs (r ∷ rs)
      → next_seq float_suc (get "seq" (last_of r rs)) ≡ some (integer (pos (i + length (r ∷ rs))))
  next_seq-verified float_suc key expected i r [] h ((n, e), ints) =
      let (first, rest) = verify_from-cons key expected i r [] h in
      let same = seq-verified key expected i r n first e in rw (e, same)
  next_seq-verified float_suc key expected i r (s ∷ rs) h (_, ints) =
      let (first, rest) = verify_from-cons key expected i r (s ∷ rs) h in
      let e : suc i + length (s ∷ rs) ≡ i + length (r ∷ s ∷ rs) = omega arith in
      next_seq-verified float_suc key (entry_hash H r) (suc i) s rs rest ints
      ∙ ap (λ n. some (integer (pos n))) e

module _ {Bytes Key : Type 0} (H : Hashing Bytes Key) (T : Texts)
    (hmac_text : (k : Key) (s : String) → str_eq (H.hmac k s) "" ≡ false) where
  sign_entry-nonempty : (r : Record) (key : Key) → str_eq (sign_entry H r key) "" ≡ false
  unfolding sign_entry
  sign_entry-nonempty r key = hmac_text key (entry_hash H r)

  -- A fresh entry passes the checks at its place.
  check_record-entry :
      (key : Option Key) (f : Forge) (seq : ℕ) (prev_hash : String)
      → check_record H key prev_hash seq
          (signed_entry H T key (entry_of H T f (integer (pos seq)) prev_hash))
        ≡ verified
  unfolding check_record check_signature signed_entry entry_of get put without
  check_record-entry none f seq prev_hash = ground (arith, eq_refl prev_hash)
  check_record-entry (some key) f seq prev_hash =
      let body = entry_of H T f (integer (pos seq)) prev_hash in
      let sig = sign_entry H body key in
      ground (arith, eq_refl prev_hash, eq_refl sig, sign_entry-nonempty body key)

  seq-entry :
      (key : Option Key) (f : Forge) (seq : ℕ) (prev_hash : String)
      → get "seq" (signed_entry H T key (entry_of H T f (integer (pos seq)) prev_hash))
        ≡ some (integer (pos seq))
  unfolding signed_entry entry_of get put
  seq-entry none f seq prev_hash = refl
  seq-entry (some key) f seq prev_hash = refl

  -- Where no HMAC is the empty text: an append to a chain that verifies, its sequence numbers
  -- integers, succeeds and adds one record, and the chain with it verifies under the same key, its
  -- sequence numbers integers again.
  pub append_or_raise-verified :
      (key : Option Key) (f : Forge) (rs : List Record)
      → verify_chain H rs key ≡ verified
      → IntegerSeqs rs
      → (rs' : List Record) × (append_or_raise H T key f rs ≡ some rs')
        × (verify_chain H rs' key ≡ verified)
        × IntegerSeqs rs'
        × (length rs' ≡ length rs + 1)
  unfolding verify_chain append_or_raise
  append_or_raise-verified key f [] h ints =
      let entry = signed_entry H T key (entry_of H T f (integer (pos 0)) genesis_hash) in
      (
        entry ∷ [],
        refl,
        verify_from_step H key genesis_hash 0 entry [] (check_record-entry key f 0 genesis_hash)
            (unfold verify_from in refl),
        ((pos 0, seq-entry key f 0 genesis_hash), tt),
        refl,
      )
  append_or_raise-verified key f (r ∷ rs) h ints =
      let seq = length (r ∷ rs) in
      let prev = entry_hash H (last_of r rs) in
      let entry = signed_entry H T key (entry_of H T f (integer (pos seq)) prev) in
      let same : 0 + seq ≡ seq = omega arith in
      let fresh =
        subst (λ p. check_record H key p seq entry ≡ verified)
          (sym (head_hash-last H genesis_hash r rs)) (check_record-entry key f seq prev) in
      (
        (r ∷ rs) ++ entry ∷ [],
        rw (
          next_seq-verified H T.float_suc key genesis_hash 0 r rs h ints
              ∙ ap (λ n. some (integer (pos n))) same,
          append_or_raise,
        ),
        verify_from-append H key genesis_hash 0 (r ∷ rs) entry h (rw same fresh),
        Each-append _ (r ∷ rs) (entry ∷ []) ints ((pos seq, seq-entry key f seq prev), tt),
        length-append (r ∷ rs) (entry ∷ []),
      )
