-- ===== src/Audit/Chain/Tamper.antt =====
-- What a chain that verifies shows of its records, with the head hash held elsewhere.
use sigil_pi.Prelude.{
  ℕ, suc, ◌≡◌, ◌≢◌, ◌⊎◌, inl, inr, refl, sym, ◌∙◌, String, true, Option, none, some, List, [], ◌∷◌,
  ◌++◌, arith, length, map, eq_iff,
}
use sigil_pi.Prelude.Dict.{get}
use sigil_pi.Agent.Json.{Json, string}
use sigil_pi.Audit.Chain.{
  Record, Hashing, verified, genesis_hash, entry_hash, check_record, verify_from, verify_chain,
  head_hash, is_text,
}
use sigil_pi.Audit.Chain.Append.Laws.{verify_from-cons, verify_from_step}

module _ {Bytes Key : Type 0} (H : Hashing Bytes Key) where
  prefix-verified :
      (key : Option Key) (expected : String) (i : ℕ) (rs more : List Record)
      → verify_from H key expected i (rs ++ more) ≡ verified
      → verify_from H key expected i rs ≡ verified
  unfolding verify_from
  prefix-verified key expected i [] more h = refl
  prefix-verified key expected i (r ∷ rs) more h =
      let (first, rest) = verify_from-cons H key expected i r (rs ++ more) h in
      verify_from_step H key expected i r rs first
        (prefix-verified key (entry_hash H r) (suc i) rs more rest)

  -- The boundary that the source states: a chain whose tail is cut off still verifies.
  pub verify_chain_prefix :
      (key : Option Key) (rs more : List Record)
      → verify_chain H (rs ++ more) key ≡ verified
      → verify_chain H rs key ≡ verified
  unfolding verify_chain
  verify_chain_prefix key rs more h = prefix-verified key genesis_hash 0 rs more h

  link-verified :
      (key : Option Key) (expected : String) (i : ℕ) (r : Record)
      → check_record H key expected i r ≡ verified
      → is_text (get "prev_hash" r) expected ≡ true
  unfolding check_record
  link-verified key expected i r h = ground arith

  -- At some place the two chains hold records with the same SHA-256 and other bytes.
  pub data Collide : List Record → List Record → Type 0 where
    here :
        {r s : Record} {rs ss : List Record}
        → H.canonical r ≢ H.canonical s
        → entry_hash H r ≡ entry_hash H s
        → Collide (r ∷ rs) (s ∷ ss)
    there : {r s : Record} {rs ss : List Record} → Collide rs ss → Collide (r ∷ rs) (s ∷ ss)

  module _ (same_bytes : Discrete Bytes)
      (canonical_link : (r s : Record) (e : String)
        → H.canonical r ≡ H.canonical s
        → is_text (get "prev_hash" r) e ≡ true
        → is_text (get "prev_hash" s) e ≡ true) where
    is_text_eq : (o : Option Json) (d e : String) → is_text o d ≡ true → is_text o e ≡ true → d ≡ e
    is_text_eq none d e h k = cc
    is_text_eq (some (string s)) d e h k = sym ((eq_iff s d).0 h) ∙ (eq_iff s e).0 k
    is_text_eq (some _) d e h k = cc

    tampered :
        (key : Option Key) (d e : String) (i : ℕ) (rs ss : List Record)
        → verify_from H key d i rs ≡ verified
        → verify_from H key e i ss ≡ verified
        → length rs ≡ length ss
        → head_hash H d rs ≡ head_hash H e ss
        → ((map H.canonical rs ≡ map H.canonical ss) × (d ≡ e)) ⊎ Collide rs ss
    unfolding head_hash
    tampered key d e i [] [] h k len head = inl (refl, head)
    tampered key d e i [] (s ∷ ss) h k len head = absurd (omega arith)
    tampered key d e i (r ∷ rs) [] h k len head = absurd (omega arith)
    tampered key d e i (r ∷ rs) (s ∷ ss) h k len head =
        let (r_ok, rs_ok) = verify_from-cons H key d i r rs h in
        let (s_ok, ss_ok) = verify_from-cons H key e i s ss k in
        elim (tampered key (entry_hash H r) (entry_hash H s) (suc i) rs ss rs_ok ss_ok (omega arith)
          head) [
            | inl (rest, hashes) ↦ elim (same_bytes (H.canonical r) (H.canonical s)) [
              | yes same ↦ inl (
                cc (same, rest),
                is_text_eq (get "prev_hash" s) d e
                    (canonical_link r s d same (link-verified key d i r r_ok))
                    (link-verified key e i s s_ok),
              )
              | no other ↦ inr (here other hashes)
            ]
            | inr later ↦ inr (there later)
          ]

    -- Two chains of one length that verify and have the same head hash hold the same records, byte
    -- for byte, unless SHA-256 collides on two records that they hold at one place.
    pub verify_chain_tamper :
        (key : Option Key) (rs ss : List Record)
        → verify_chain H rs key ≡ verified
        → verify_chain H ss key ≡ verified
        → length rs ≡ length ss
        → head_hash H genesis_hash rs ≡ head_hash H genesis_hash ss
        → (map H.canonical rs ≡ map H.canonical ss) ⊎ Collide rs ss
    unfolding verify_chain
    verify_chain_tamper key rs ss h k len head =
        elim (tampered key genesis_hash genesis_hash 0 rs ss h k len head) [
          | inl (same, _) ↦ inl same
          | inr collide ↦ inr collide
        ]
