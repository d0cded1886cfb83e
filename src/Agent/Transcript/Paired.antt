-- ===== src/Agent/Transcript/Paired.antt =====
-- Tool calls and their results in a transcript: what the Messages API asks of the payload.
use sigil_pi.Prelude.{ℕ, String, ◌≡◌, refl, inl, inr, List, [], ◌∷◌, ◌++◌, arith, subst, sym, true}
use sigil_pi.Agent.Transcript.{
  Block, text, tool_use, tool_result, Content, string, blocks, Message, is_string, compact,
}
use sigil_pi.Agent.Transcript.Compact.{Opens, IsSuffix, here, there, compact_lem}

abbrev pub block_uses : List Block → List String
block_uses [] = []
block_uses (text s ∷ bs) = block_uses bs
block_uses (tool_use id name input ∷ bs) = id ∷ block_uses bs
block_uses (tool_result id content is_error ∷ bs) = block_uses bs

abbrev pub block_results : List Block → List String
block_results [] = []
block_results (text s ∷ bs) = block_results bs
block_results (tool_use id name input ∷ bs) = block_results bs
block_results (tool_result id content is_error ∷ bs) = id ∷ block_results bs

abbrev pub uses : Content → List String
uses (string s) = []
uses (blocks bs) = block_uses bs

abbrev pub results : Content → List String
results (string s) = []
results (blocks bs) = block_results bs

-- Each message answers the tool calls of the message before it, in their order, and no others;
-- `open_calls` are those that the first message has to answer.
abbrev pub PairedFrom : List String → List Message → Type 0
PairedFrom open_calls [] = open_calls ≡ []
PairedFrom open_calls (m ∷ ms) = (results m.content ≡ open_calls) × PairedFrom (uses m.content) ms

abbrev pub Paired : List Message → Type 0
Paired ms = PairedFrom [] ms

results-string : (c : Content) → is_string c ≡ true → results c ≡ []
results-string (string s) h = refl
results-string (blocks bs) h = cc

opened : (calls : List String) (s : List Message) → Opens s → PairedFrom calls s → Paired s
opened calls [] o p = absurd o
opened calls (m ∷ s) o (e, p) =
    let is_text : is_string m.content ≡ true = ground arith in (results-string m.content is_text, p)

-- A cut at a real user turn leaves no call without its result and no result without its call.
suffix-Paired :
    {s : List Message} (calls : List String) {ms : List Message}
    → IsSuffix s ms
    → Opens s
    → PairedFrom calls ms
    → Paired s
suffix-Paired {s} calls here o p = opened calls s o p
suffix-Paired calls (there {m} q) o p = suffix-Paired (uses m.content) q o p.1

-- `compact` never separates a tool call from its result.
pub compact-Paired :
    (dumps : List Message → List ℕ) (limit : ℕ) (ms : List Message)
    → Paired ms
    → Paired (compact dumps ms limit)
compact-Paired dumps limit ms p =
    let c = compact_lem dumps limit ms in
    elim c.cut [
      | inl same ↦ subst Paired (sym same) p
      | inr opens ↦ suffix-Paired [] c.suffix opens p
    ]

-- A message at the end that answers the calls left open.
pub Paired-append : (ms new : List Message) → Paired ms → Paired new → Paired (ms ++ new)
Paired-append ms new p q = from [] ms p
  where
    from :
        (calls : List String) (xs : List Message)
        → PairedFrom calls xs
        → PairedFrom calls (xs ++ new)
    from calls [] e = subst (λ c. PairedFrom c new) (sym e) q
    from calls (m ∷ xs) (e, h) = (e, from (uses m.content) xs h)
