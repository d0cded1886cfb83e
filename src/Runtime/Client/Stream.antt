-- ===== src/Runtime/Client/Stream.antt =====
-- When a connection may be used again: after each answer that was read for its request.
use sigil_pi.Prelude.{
  ℕ, suc, ◌+◌, ◌≡◌, refl, arith, String, Bool, true, false, Option, none, some, ◌==◌, if_both,
}
use sigil_pi.Agent.Json.{Json, null, boolean, integer, float, string, array, object, Fields, lookup}
use sigil_pi.Runtime.{
  Outcome, returned, raised, protocol_error, client_error, other_error, client_timeout,
}
use sigil_pi.Runtime.Client.{
  Line, ended, malformed, doc, Pipes, Client, allowed, budget_expired, answers, result_of, on_line,
  after_select, after_write, request, as_tool, forge, request_fields, value_of, text_at, content_of,
}

module _ {W : Type 0} (pipes : Pipes W) (sent received : W → ℕ) where
  -- `sent` counts the lines that were written, `received` those that were read.
  pub record Counts : Type 0 where
    pub sent-write :
        (f : Fields) (w : W) → (pipes.write f w).0 ≡ true → sent (pipes.write f w).1 ≡ suc (sent w)
    pub received-write : (f : Fields) (w : W) → received (pipes.write f w).1 ≡ received w
    pub sent-select : (t : ℕ) (w : W) → sent (pipes.select t w).1 ≡ sent w
    pub received-select : (t : ℕ) (w : W) → received (pipes.select t w).1 ≡ received w
    pub sent-readline : (w : W) → sent (pipes.readline w).1 ≡ sent w
    pub received-readline : (w : W) → received (pipes.readline w).1 ≡ suc (received w)

  -- As many lines were read since as were written.
  abbrev pub InStep : W → W → Type 0
  InStep w w' = received w' + sent w ≡ received w + sent w'

  -- What an answer says of the connection: `expired` is whose deadline a timeout is of.
  abbrev pub Fate : ℕ → Bool → W → Outcome Json × Client × W → Type 0
  Fate id expired w (returned v, c, w') =
      ((f : Fields) × (answers pipes f id ≡ true)
        × (lookup "result" f ≡ some v)
        × (lookup "error" f ≡ none))
      × InStep w w'
  Fate id expired w (raised protocol_error, c, w') = InStep w w'
  Fate id expired w (raised (client_timeout b), c, w') = (c.closed ≡ true) × (b ≡ expired)
  Fate id expired w (raised client_error, c, w') = Unit
  Fate id expired w (raised other_error, c, w') = Unit

  result_of-Fate :
      (id : ℕ) (expired : Bool) (w w' : W) (c : Client) (f : Fields) (error result : Option Json)
      → answers pipes f id ≡ true
      → InStep w w'
      → lookup "error" f ≡ error
      → lookup "result" f ≡ result
      → Fate id expired w (result_of pipes error result, c, w')
  result_of-Fate id expired w w' c f (some e) result same h is_error is_result = h
  result_of-Fate id expired w w' c f none none same h is_error is_result = h
  result_of-Fate id expired w w' c f none (some v) same h is_error is_result =
      ((f, same, is_result, is_error), h)

  on_line-Fate :
      (id : ℕ) (expired : Bool) (w w' : W) (c : Client) (line : Line)
      → InStep w w'
      → Fate id expired w (on_line pipes id line, c, w')
  unfolding on_line
  on_line-Fate id expired w w' c ended h = tt
  on_line-Fate id expired w w' c malformed h = tt
  on_line-Fate id expired w w' c (doc (object f)) h =
      if_both (λ o. Fate id expired w (o, c, w')) (answers pipes f id)
        (λ same.
          result_of-Fate id expired w w' c f (lookup "error" f) (lookup "result" f) same h refl
            refl)
        (λ _. tt)
  on_line-Fate id expired w w' c (doc null) h = tt
  on_line-Fate id expired w w' c (doc (boolean b)) h = tt
  on_line-Fate id expired w w' c (doc (integer n)) h = tt
  on_line-Fate id expired w w' c (doc (float x)) h = tt
  on_line-Fate id expired w w' c (doc (string s)) h = tt
  on_line-Fate id expired w w' c (doc (array xs)) h = tt

  after_select-Fate :
      (id : ℕ) (expired : Bool) (w : W) (r : Bool × W)
      → Counts
      → received r.1 ≡ received w
      → sent r.1 ≡ suc (sent w)
      → Fate id expired w (after_select pipes id expired r)
  unfolding after_select
  after_select-Fate id expired w (true, v) counts behind ahead =
      on_line-Fate id expired w (pipes.readline v).1 _ (pipes.readline v).0
        (omega (arith, counts.sent-readline v, counts.received-readline v))
  after_select-Fate id expired w (false, v) counts behind ahead = (refl, refl)

  after_write-Fate :
      (id base : ℕ) (timeout : Option ℕ) (w : W) (r : Bool × W)
      → Counts
      → (r.0 ≡ true → sent r.1 ≡ suc (sent w))
      → received r.1 ≡ received w
      → Fate id (budget_expired base timeout) w (after_write pipes id base timeout r)
  unfolding after_write
  after_write-Fate id base timeout w (false, v) counts ahead behind = tt
  after_write-Fate id base timeout w (true, v) counts ahead behind =
      let more = ahead refl in
      let t = allowed base timeout in
      if_both (Fate id (budget_expired base timeout) w) (t == 0) (λ _. (refl, refl))
        (λ _.
          after_select-Fate id (budget_expired base timeout) w (pipes.select t v) counts
            (omega (arith, counts.received-select t v)) (omega (arith, counts.sent-select t v)))

  -- A request is answered with the result of a document that has no error and the version and id of this
  -- request. After that, and after a protocol error, as many lines were read as were written; after a timeout
  -- the client is closed, and the timeout says whether the deadline was the caller's.
  pub request-Fate :
      (base : ℕ) (method : String) (params : Json) (timeout : Option ℕ) (c : Client) (w : W)
      → Counts
      → Fate c.next_id
          (budget_expired base timeout)
          w
          (request pipes base method params timeout c w)
  unfolding request
  request-Fate base method params timeout c w counts =
      let f = request_fields c.next_id method params in
      if_both (Fate c.next_id (budget_expired base timeout) w) c.closed (λ _. tt)
        (λ _.
          after_write-Fate c.next_id base timeout w (pipes.write f w) counts (counts.sent-write f w)
            (counts.received-write f w))

  -- The same of a forge, whose result is the JSON text in the answer.
  abbrev pub ForgeFate : Bool → W → Outcome Json × Client × W → Type 0
  ForgeFate expired w (returned v, c, w') = InStep w w'
  ForgeFate expired w (raised protocol_error, c, w') = InStep w w'
  ForgeFate expired w (raised (client_timeout b), c, w') = (c.closed ≡ true) × (b ≡ expired)
  ForgeFate expired w (raised client_error, c, w') = Unit
  ForgeFate expired w (raised other_error, c, w') = Unit

  text-ForgeFate :
      (expired : Bool) (w w' : W) (c : Client) (o : Option Json)
      → InStep w w'
      → ForgeFate expired w (value_of pipes o, c, w')
  text-ForgeFate expired w w' c none h = h
  text-ForgeFate expired w w' c (some v) h = h

  as_tool-ForgeFate :
      (id : ℕ) (expired : Bool) (w : W) (r : Outcome Json × Client × W)
      → Fate id expired w r
      → ForgeFate expired w (as_tool pipes r)
  as_tool-ForgeFate id expired w (returned v, c, w') (found, h) =
      read_text (text_at pipes (content_of pipes v))
    where
      read_text :
          (o : Option String)
          → ForgeFate expired w (
            (elim o [
              | none ↦ raised protocol_error
              | some text ↦ value_of pipes (pipes.loads text)
            ]),
            c,
            w',
          )
      read_text none = h
      read_text (some text) = text-ForgeFate expired w w' c (pipes.loads text) h
  as_tool-ForgeFate id expired w (raised protocol_error, c, w') h = h
  as_tool-ForgeFate id expired w (raised (client_timeout b), c, w') h = h
  as_tool-ForgeFate id expired w (raised client_error, c, w') h = tt
  as_tool-ForgeFate id expired w (raised other_error, c, w') h = tt

  forge-ForgeFate :
      (base : ℕ) (arguments : Fields) (timeout : Option ℕ) (c : Client) (w : W)
      → Counts
      → ForgeFate (budget_expired base timeout) w (forge pipes base arguments timeout c w)
  unfolding forge
  forge-ForgeFate base arguments timeout c w counts =
      as_tool-ForgeFate c.next_id (budget_expired base timeout) w _
        (request-Fate base "tools/call" _ timeout c w counts)
