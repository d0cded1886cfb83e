-- ===== src/Agent/Frames/RoundTrip.antt =====
-- The stream that `parse_reply` writes, by the frame format in the header of agent.py, and its
-- decoding.
use sigil_pi.Prelude.{
  ℕ, zero, suc, ◌+◌, ◌^◌, ◌<◌, ◌≤◌, ◌≡◌, ◌⊎◌, refl, subst, none, true, false, List, [], ◌∷◌, ◌++◌,
  Option, some, take, drop, length, arith, ◌==◌, length-drop, take-append, drop-append, Each,
}
use sigil_pi.Agent.Json.{Json, negsuc}
use sigil_pi.Agent.PyInt.{int, digits_of}
use sigil_pi.Agent.PyInt.Laws.{Digits, value}
use sigil_pi.Agent.Frames.{
  Decoded, ok, err, ◌>>=◌, Frame, Decoders, frame_of, payload_of, frames, decode_frames,
}

-- What the guest sends: the model's text, the token counts as raw slices of the reply, such slices that
-- are no counts, a tool call with its raw input, and a block of another kind.
pub data Sent : Type 0 where
  text : List ℕ → Sent
  usage bad_usage : List ℕ → List ℕ → Sent
  unknown : List ℕ → Sent
  tool_use : List ℕ → List ℕ → List ℕ → Option Json → Sent

abbrev pub tag_of : Sent → ℕ
tag_of (text p) = b't'
tag_of (usage a b) = b'g'
tag_of (bad_usage a b) = b'g'
tag_of (unknown p) = b'?'
tag_of (tool_use id tool raw input) = b'u'

abbrev pub payload : Sent → List ℕ
payload (text p) = p
payload (usage a b) = a ++ b'|' ∷ b
payload (bad_usage a b) = a ++ b'|' ∷ b
payload (unknown p) = p
payload (tool_use id tool raw input) = id ++ 0x1f ∷ (tool ++ 0x1f ∷ raw)

unfoldable pub sent_bytes : Sent → List ℕ
sent_bytes s = tag_of s ∷ (digits_of 8 (length (payload s)) ++ payload s)

unfoldable pub stream : List Sent → List ℕ
stream [] = []
stream (s ∷ ss) = sent_bytes s ++ stream ss

abbrev pub FreeOf : ℕ → List ℕ → Type 0
FreeOf sep = Each (λ c. (c == sep) ≡ false)

pub take_exact {ℓ} : {A : Type ℓ} (n : ℕ) (xs ys : List A) → length xs ≡ n → take n (xs ++ ys) ≡ xs
take_exact n xs ys e = subst (λ k. take k (xs ++ ys) ≡ xs) e (take-append xs ys)

pub drop_exact {ℓ} : {A : Type ℓ} (n : ℕ) (xs ys : List A) → length xs ≡ n → drop n (xs ++ ys) ≡ ys
drop_exact n xs ys e = subst (λ k. drop k (xs ++ ys) ≡ ys) e (drop-append xs ys)

-- The digits of a number, at least one.
abbrev pub Number : List ℕ → Type 0
Number [] = ⊥
Number (c ∷ cs) = Digits (c ∷ cs)

-- A text that `int` does not read, or that it reads as a negative number.
abbrev pub NoCount : List ℕ → Type 0
NoCount s = (int s ≡ none) ⊎ ((n : ℕ) × (int s ≡ some (negsuc n)))

module _ (d : Decoders) where
  -- The block that the host should see.
  abbrev pub seen : Sent → Frame
  seen (text p) = Frame.text p
  seen (usage a b) = Frame.usage (value 0 a) (value 0 b)
  seen (bad_usage a b) = Frame.other (a ++ b'|' ∷ b)
  seen (unknown p) = Frame.other p
  seen (tool_use id tool raw input) = Frame.tool_use (d.identifier id) (d.identifier tool) input

  abbrev pub FieldsOk : Sent → Type 0
  FieldsOk (text p) = d.is_utf8 p ≡ true
  FieldsOk (usage a b) = Number a × Number b
  FieldsOk (bad_usage a b) =
      FreeOf b'|' a × (NoCount a ⊎ NoCount b) × (d.is_utf8 (a ++ b'|' ∷ b) ≡ true)
  FieldsOk (unknown p) = d.is_utf8 p ≡ true
  FieldsOk (tool_use id tool raw input) =
      (d.is_utf8 id ≡ true)
      × (d.is_utf8 tool ≡ true)
      × FreeOf 0x1f id
      × FreeOf 0x1f tool
      × (d.loads raw ≡ ok input)

  abbrev pub Sendable : Sent → Type 0
  Sendable s = (length (payload s) < 10 ^ 8) × FieldsOk s

  round_same :
      (f g tag : ℕ) (rest : List ℕ) (r : Decoded (ℕ × List ℕ))
      → ((n : ℕ) → frames d f (drop (8 + n) rest) ≡ frames d g (drop (8 + n) rest))
      → (do
        p ← r
        block ← frame_of d tag p.1
        blocks ← frames d f (drop (8 + p.0) rest)
        ok (block ∷ blocks))
        ≡ (do
          p ← r
          block ← frame_of d tag p.1
          blocks ← frames d g (drop (8 + p.0) rest)
          ok (block ∷ blocks))
  round_same f g tag rest (ok (n, p)) h = rw (h n)
  round_same f g tag rest (err e) h = refl

  frames_same :
      (f g : ℕ) (input : List ℕ)
      → length input ≤ f
      → length input ≤ g
      → frames d f input ≡ frames d g input
  unfolding frames
  frames_same f g [] hf hg = refl
  frames_same zero g (tag ∷ rest) hf hg = absurd (omega arith)
  frames_same (suc f) zero (tag ∷ rest) hf hg = absurd (omega arith)
  frames_same (suc f) (suc g) (tag ∷ rest) hf hg = round_same f g tag rest (payload_of d rest) (λ n.
      frames_same f g (drop (8 + n) rest) (omega (arith, length-drop (8 + n) rest))
        (omega (arith, length-drop (8 + n) rest)))

  -- Fuel never runs out: more fuel than there are bytes makes no difference.
  pub frames_fuel :
      (fuel : ℕ) (input : List ℕ)
      → length input ≤ fuel
      → frames d fuel input ≡ decode_frames d input
  unfolding decode_frames
  frames_fuel fuel input h = frames_same fuel (length input) input h (omega arith)
