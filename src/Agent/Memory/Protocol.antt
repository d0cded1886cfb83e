-- ===== src/Agent/Memory/Protocol.antt =====
-- How many callbacks a request to the memory can cost, and what it can be answered.
use sigil_pi.Prelude.{
  ℕ, zero, suc, ◌+◌, ◌≤◌, ◌≡◌, refl, arith, String, Bool, true, false, Option, none, some, ◌⊎◌, inl,
  inr, if_both,
}
use sigil_pi.Agent.Json.{Json, null, boolean, integer, float, string, array, object, Items, Fields}
use sigil_pi.Agent.Memory.{
  Host, Read, closed, doc, broken, Outcome, reply, raised, error, get, id_is, is_text, is_callback,
  answer, texts_of, completed, with_id, request_of, after_write, after_acquire, answer_embedding,
  answer_callback, on_callback, on_doc, listen, ask, call, max_memory_callbacks, embed_texts,
}

module _ {W : Type 0} (host : Host W) (calls : W → ℕ) where
  -- `calls` counts the runs of the model and of the embedding; nothing else counts.
  pub record Counts : Type 0 where
    pub at_readline : (w : W) → calls (host.readline w).1 ≡ calls w
    pub at_write : (v : Json) (w : W) → calls (host.write v w).1 ≡ calls w
    pub at_acquire_within : (w : W) → calls (host.acquire_within w).1 ≡ calls w
    pub at_acquire : (w : W) → calls (host.acquire w) ≡ calls w
    pub at_release : (w : W) → calls (host.release w) ≡ calls w
    pub at_terminate : (w : W) → calls (host.terminate w) ≡ calls w
    pub at_complete :
        (f : Json → W → Option Json × W) (v : Json) (w : W)
        → host.complete ≡ some f
        → calls (f v w).1 ≤ suc (calls w)
    pub at_embed :
        (f : Items → Json → W → (Json ⊎ String) × W) (texts : Items) (v : Json) (w : W)
        → host.embed ≡ some f
        → calls (f texts v w).1 ≤ suc (calls w)

  -- The reply to the request with this number, or an error of the host's own, or the exception.
  abbrev pub Matches : ℕ → Outcome → Type 0
  Matches sent o =
      ((f : Fields) × (o ≡ reply f) × (id_is host (get "id" f) sent ≡ true))
      ⊎ (((message : String) × (o ≡ reply (error "dead" message))) ⊎ (o ≡ raised))

  abbrev pub Bounded : ℕ → ℕ → W → Outcome × W → Type 0
  Bounded left sent w r = Matches sent r.0 × (calls r.1 ≤ left + calls w)

  completed-le :
      (callback : Fields) (n : ℕ) (r : Option Json × W)
      → calls r.1 ≤ n
      → calls (completed host callback r).1 ≤ n
  completed-le callback n (none, w) h = h
  completed-le callback n (some v, w) h = h

  answer-le :
      (o : Option (Json → W → Option Json × W)) (callback : Fields) (w : W)
      → Counts
      → host.complete ≡ o
      → calls (answer host o callback w).1 ≤ suc (calls w)
  unfolding answer
  answer-le none callback w counts same = omega arith
  answer-le (some f) callback w counts same =
      completed-le callback (suc (calls w)) (f (request_of host callback) w)
        (counts.at_complete f (request_of host callback) w same)

  embed_texts-le :
      (f : Items → Json → W → (Json ⊎ String) × W) (texts : Option Items) (callback : Fields)
      (w : W)
      → Counts
      → host.embed ≡ some f
      → calls (embed_texts host f callback texts w).1 ≤ suc (calls w)
  embed_texts-le f none callback w counts same = omega arith
  embed_texts-le f (some texts) callback w counts same =
      counts.at_embed f texts (get "model" callback) w same

  answer_embedding-le :
      (o : Option (Items → Json → W → (Json ⊎ String) × W)) (callback : Fields) (w : W)
      → Counts
      → host.embed ≡ o
      → calls (answer_embedding host o callback w).1 ≤ suc (calls w)
  unfolding answer_embedding
  answer_embedding-le none callback w counts same = omega arith
  answer_embedding-le (some f) callback w counts same =
      embed_texts-le f (texts_of (get "texts" callback)) callback w counts same

  answer_callback-le :
      (callback : Fields) (w : W)
      → Counts
      → calls (answer_callback host callback w).1 ≤ suc (calls w)
  unfolding answer_callback
  answer_callback-le callback w counts =
      if_both (λ (r : Json × W). calls r.1 ≤ suc (calls w))
        (is_text "model_request" (get "callback" callback))
        (λ _. answer-le host.complete callback w counts refl)
        (λ _. answer_embedding-le host.embed callback w counts refl)

  on_doc-Bounded :
      (left sent : ℕ) (again : Option (W → Outcome × W)) (read : Read) (w : W)
      → Counts
      → ((callback : Fields) → Bounded left sent w (on_callback host again callback w))
      → Bounded left sent w (on_doc host sent again read w)
  unfolding on_doc
  on_doc-Bounded left sent again closed w counts h = (inr (inl (_, refl)), omega arith)
  on_doc-Bounded left sent again (broken text) w counts h = (inr (inl (_, refl)), omega arith)
  on_doc-Bounded left sent again (doc (object f)) w counts h =
      if_both (Bounded left sent w) (is_callback host f) (λ _. h f)
        (λ _.
          if_both (Bounded left sent w) (id_is host (get "id" f) sent)
            (λ same. (inl (f, refl, same), omega arith))
            (λ _. (inr (inl (_, refl)), rw (counts.at_terminate w) omega arith)))
  on_doc-Bounded left sent again (doc null) w counts h = (inr (inr refl), omega arith)
  on_doc-Bounded left sent again (doc (boolean b)) w counts h = (inr (inr refl), omega arith)
  on_doc-Bounded left sent again (doc (integer n)) w counts h = (inr (inr refl), omega arith)
  on_doc-Bounded left sent again (doc (float x)) w counts h = (inr (inr refl), omega arith)
  on_doc-Bounded left sent again (doc (string t)) w counts h = (inr (inr refl), omega arith)
  on_doc-Bounded left sent again (doc (array xs)) w counts h = (inr (inr refl), omega arith)

  after_write-Bounded :
      (m n sent : ℕ) (next : W → Outcome × W) (r : Option String × W)
      → m ≤ n
      → calls r.1 ≤ m
      → ((v : W) → calls v ≤ m → Matches sent (next v).0 × (calls (next v).1 ≤ n))
      → Matches sent (after_write host next r).0 × (calls (after_write host next r).1 ≤ n)
  after_write-Bounded m n sent next (none, v) h at_write next_bounded = next_bounded v at_write
  after_write-Bounded m n sent next (some text, v) h at_write next_bounded =
      (inr (inl (_, refl)), omega arith)

  at_callback-le :
      (callback : Fields) (w : W)
      → Counts
      → calls (host.write (answer_callback host callback w).0 (answer_callback host callback w).1).1
        ≤ suc (calls w)
  at_callback-le callback w counts =
      let (value, v) = answer_callback host callback w in
      rw (counts.at_write value v) (answer_callback-le callback w counts)

  listen-Bounded : (left sent : ℕ) (w : W) → Counts → Bounded left sent w (listen host left sent w)
  unfolding listen on_callback
  listen-Bounded zero sent w counts =
      let v = (host.readline w).1 in
      let same = counts.at_readline w in
      let (matches, bound) =
        on_doc-Bounded 0 sent none (host.readline w).0 v counts
          (λ callback. (inr (inl (_, refl)), rw (counts.at_terminate v) omega arith)) in
      (matches, omega arith)
  listen-Bounded (suc left) sent w counts =
      let v = (host.readline w).1 in
      let same = counts.at_readline w in
      let (matches, bound) =
        on_doc-Bounded (suc left) sent (some (λ u. listen host left sent u)) (host.readline w).0 v
          counts
          (λ callback.
            after_write-Bounded (suc (calls v)) (suc left + calls v) sent
              (λ u. listen host left sent u) _ (omega arith) (at_callback-le callback v counts)
              (λ u h.
                let (matches, bound) = listen-Bounded left sent u counts in
                (matches, omega arith))) in
      (matches, omega arith)

  -- The number of the request is the next one, and the request is answered within the bound.
  abbrev pub IsAnswered : ℕ → W → Outcome × ℕ × W → Type 0
  IsAnswered last w (outcome, sent, v) =
      (sent ≡ suc last) × Matches sent outcome × (calls v ≤ max_memory_callbacks + calls w)

  ask-IsAnswered :
      (request : Fields) (last : ℕ) (w : W) → Counts → IsAnswered last w (ask host request last w)
  unfolding ask
  ask-IsAnswered request last w counts =
      let written = host.write (object (with_id (suc last) request)) w in
      let same = counts.at_write (object (with_id (suc last) request)) w in
      let r = after_write host (listen host max_memory_callbacks (suc last)) written in
      let (matches, bound) =
        after_write-Bounded (calls w) (max_memory_callbacks + calls w) (suc last)
          (listen host max_memory_callbacks (suc last)) written (omega arith) (omega arith)
          (λ u h.
            let (matches, bound) = listen-Bounded max_memory_callbacks (suc last) u counts in
            (matches, omega arith)) in
      let freed = counts.at_release r.1 in (refl, matches, omega arith)

  after_acquire_cases :
      (request : Fields) (last : ℕ) (w : W) (r : Bool × W)
      → calls r.1 ≡ calls w
      → Counts
      → (after_acquire host request last r
          ≡ (reply (error "busy" "memory is mid-consolidation"), last, r.1))
        ⊎ IsAnswered last w (after_acquire host request last r)
  unfolding after_acquire
  after_acquire_cases request last w (false, v) same counts = inl refl
  after_acquire_cases request last w (true, v) same counts =
      let (numbered, matches, bound) = ask-IsAnswered request last v counts in
      inr (numbered, matches, omega arith)

  -- Where the lock and each line of the child come: either the lock is not won in time, and the answer
  -- is busy and the state as it was but for the wait; or the request has the next number, at most 64
  -- callbacks run the model or the embedding, whatever the child sends, and the outcome is a document
  -- with the number of this request, or an error of code dead, or the exception for a document that is
  -- no object.
  pub call_lem :
      (with_timeout : Bool) (request : Fields) (last : ℕ) (w : W)
      → Counts
      → (call host with_timeout request last w
          ≡ (reply (error "busy" "memory is mid-consolidation"), last, (host.acquire_within w).1))
        ⊎ IsAnswered last w (call host with_timeout request last w)
  unfolding call
  call_lem false request last w counts =
      let (numbered, matches, bound) = ask-IsAnswered request last (host.acquire w) counts in
      let same = counts.at_acquire w in inr (numbered, matches, omega arith)
  call_lem true request last w counts =
      after_acquire_cases request last w (host.acquire_within w) (counts.at_acquire_within w) counts
