-- ===== src/Audit/Chain/Tests.antt =====
-- A log of two forges, and the theorems on chains at it. The hashes are stand-ins that keep what
-- they hash.
use sigil_pi.Prelude.{
  ℕ, ◌+◌, ◌≡◌, ◌⊎◌, refl, ap, sym, ◌∙◌, String, true, false, Option, none, some, List, [], ◌∷◌,
  arith, length, map, str_eq, eq_iff, Bool-cases, inl, inr,
}
use sigil_pi.Prelude.Dict.{get, without}
use sigil_pi.Agent.Json.{Json, pos, string, null, integer}
use sigil_pi.Audit.Redact.{many}
use sigil_pi.Audit.Chain.{
  Record, Hashing, verified, unsigned, genesis_hash, verify_from, check_record, check_signature,
  check_digest, sign_entry, is_text, verify_chain, entry_hash,
}
use sigil_pi.Audit.Chain.Append.{Forge, Texts, append_or_raise}
use sigil_pi.Audit.Chain.Append.Laws.{IntegerSeqs, append_or_raise-verified}
use sigil_pi.Audit.Chain.Tamper.{Collide, verify_chain_prefix, verify_chain_tamper}

-- A record is stood for by the text that it links to.
abbrev link_text : Option Json → Option String
link_text (some (string s)) = some s
link_text _ = none

abbrev shown : Option String → String
shown none = "none"
shown (some s) = s

abbrev hashing : Hashing (Option String) ℕ
hashing = record {
  canonical = λ r. link_text (get "prev_hash" r);
  sha256 = shown;
  hmac = λ key s. "signed";
  float_is = λ x n. false;
}

abbrev texts : Texts
texts = record {
  sha256_text = λ s. s;
  encoded_len = λ s. 3;
  grants_json = λ g. null;
  float_suc = λ x. x;
}

abbrev llm_call : Forge
llm_call = record {
  session = "s";
  kind = "llm";
  source = "agent_turn";
  input_text = "in";
  output = some "out";
  err = none;
  grants = ("secret", many []) ∷ [];
  fuel = 20000000;
}

abbrev first : Record
first =
    ("seq", integer (pos 0)) ∷ ("prev_hash", string genesis_hash) ∷ ("sig", string "signed") ∷ []

abbrev second : Record
second =
    ("seq", integer (pos 1)) ∷ ("prev_hash", string genesis_hash) ∷ ("sig", string "signed") ∷ []

chain-verified : verify_chain hashing (first ∷ second ∷ []) (some 7) ≡ verified
unfolding verify_chain verify_from check_record check_signature check_digest entry_hash sign_entry
    get without
chain-verified = refl

-- A stripped signature is a problem where a key is given.
stripped : verify_chain hashing (first ∷ without "sig" second ∷ []) (some 7) ≡ unsigned 1
unfolding verify_chain verify_from check_record check_signature check_digest entry_hash sign_entry
    get without
stripped = refl

append_or_raise-verified_example :
    (rs : List Record) × (append_or_raise hashing texts (some 7) llm_call (first ∷ second ∷ [])
      ≡ some rs)
    × (verify_chain hashing rs (some 7) ≡ verified)
    × IntegerSeqs rs
    × (length rs ≡ 2 + 1)
unfolding get
append_or_raise-verified_example =
    append_or_raise-verified hashing texts (λ k s. refl) (some 7) llm_call (first ∷ second ∷ [])
      chain-verified ((pos 0, refl), ((pos 1, refl), tt))

chain_without_its_last : verify_chain hashing (first ∷ []) (some 7) ≡ verified
chain_without_its_last =
    verify_chain_prefix hashing (some 7) (first ∷ []) (second ∷ []) chain-verified

link_of_text : (o : Option Json) (e : String) → is_text o e ≡ true → link_text o ≡ some e
link_of_text none e h = cc
link_of_text (some (string s)) e h = ap some ((eq_iff s e).0 h)
link_of_text (some _) e h = cc

text_of_link : (o : Option Json) (e : String) → link_text o ≡ some e → is_text o e ≡ true
text_of_link none e h = cc
text_of_link (some (string s)) e h = ground (arith, eq_iff s e)
text_of_link (some _) e h = cc

canonical_link :
    (r s : Record) (e : String)
    → link_text (get "prev_hash" r) ≡ link_text (get "prev_hash" s)
    → is_text (get "prev_hash" r) e ≡ true
    → is_text (get "prev_hash" s) e ≡ true
canonical_link r s e same h =
    text_of_link (get "prev_hash" s) e (sym same ∙ link_of_text (get "prev_hash" r) e h)

String-discrete : Discrete String
String-discrete a b = elim (Bool-cases (str_eq a b)) [
  | inl same ↦ yes ((eq_iff a b).0 same)
  | inr other ↦ no (λ e. cc (other, (eq_iff a b).1 e))
]

link_discrete : Discrete (Option String)
link_discrete = hlevel String-discrete

verify_chain_tamper_example :
    (map hashing.canonical (first ∷ second ∷ []) ≡ map hashing.canonical (first ∷ second ∷ []))
    ⊎ Collide hashing (first ∷ second ∷ []) (first ∷ second ∷ [])
verify_chain_tamper_example =
    verify_chain_tamper hashing link_discrete canonical_link (some 7) (first ∷ second ∷ [])
      (first ∷ second ∷ []) chain-verified chain-verified refl refl
