-- ===== src/Agent/Memory.antt =====
-- `PiMemory._call`, `_answer` and `_answer_embedding` of agent.py: one request to the memory's child
-- process, with the callbacks that it makes before it replies. The child, the model and the embedding
-- act on a world `W`; a failed write or read is an `OSError` or a `ValueError`, and its
-- text is the message that `_call` makes of it. Every read of a line and the untimed lock return.
pub mod Protocol
pub mod Buffer
pub mod Recall
mod Tests
use sigil_pi.Prelude.{
  ℕ, zero, suc, ◌+◌, String, Bool, true, false, ◌||◌, Option, none, some, ◌⊎◌, inl, inr, ◌==◌,
  str_eq, if◌then◌else◌,
}
use sigil_pi.Agent.Json.{
  Json, null, boolean, integer, float, string, array, object, Items, nil, cons, Fields, end, field,
  lookup, pos,
}
use sigil_pi.Audit.Chain.{is_falsy}

-- `readline` and `json.loads`.
pub data Read : Type 0 where
  closed : Read
  doc : Json → Read
  broken : String → Read

-- A reply, or an `AttributeError` of a document that is no object.
pub data Outcome : Type 0 where
  reply : Fields → Outcome
  raised : Outcome

pub record Host (W : Type 0) : Type 0 where
  pub float_is : String → ℕ → Bool
  -- `Lock.acquire`, with a timeout or without one, and `release`
  pub acquire_within : W → Bool × W
  pub acquire : W → W
  pub release : W → W
  pub terminate : W → W
  pub write : Json → W → Option String × W
  pub readline : W → Read × W
  pub complete : Option (Json → W → Option Json × W)
  pub embed : Option (Items → Json → W → (Json ⊎ String) × W)

abbrev pub max_memory_callbacks : ℕ
max_memory_callbacks = 64

abbrev pub error : String → String → Fields
error code message =
    field "err" (object (field "code" (string code) (field "message" (string message) end))) end

abbrev pub get : String → Fields → Json
get key fields = elim (lookup key fields) [ none ↦ null | some v ↦ v ]

abbrev pub all_texts : Items → Bool
all_texts nil = true
all_texts (cons (string t) rest) = all_texts rest
all_texts (cons _ rest) = false

abbrev pub texts_of : Json → Option Items
texts_of (array texts) = if all_texts texts then some texts else none
texts_of _ = none

abbrev pub unavailable : Json
unavailable = object (field "unavailable" (boolean true) end)

abbrev pub response : Fields → Json → Json
response callback value =
    object (field "call_id" (get "call_id" callback) (field "response" value end))

abbrev pub embedding_error : Fields → String → Json
embedding_error callback message = object (
    field "call_id" (get "call_id" callback)
      (field "error" (object (field "message" (string message) end)) end))

abbrev pub embeddings : Fields → Json ⊎ String → Json
embeddings callback (inl vectors) =
    object (field "call_id" (get "call_id" callback) (field "embeddings" vectors end))
embeddings callback (inr message) = embedding_error callback message

-- `dict(obj, id=sent_id)`, of an object without an id.
abbrev pub with_id : ℕ → Fields → Fields
with_id sent end = field "id" (integer (pos sent)) end
with_id sent (field k v rest) = field k v (with_id sent rest)

abbrev pub is_text : String → Json → Bool
is_text t (string s) = str_eq s t
is_text t _ = false

module _ {W : Type 0} (host : Host W) where
  -- `doc.get("id") == sent_id`
  abbrev pub id_is : Json → ℕ → Bool
  id_is (integer (pos n)) sent = n == sent
  id_is (boolean true) sent = sent == 1
  id_is (boolean false) sent = sent == 0
  id_is (float literal) sent = host.float_is literal sent
  id_is _ sent = false

  abbrev pub completed : Fields → Option Json × W → Json × W
  completed callback (none, w) = (response callback unavailable, w)
  completed callback (some value, w) = (response callback value, w)

  abbrev pub request_of : Fields → Json
  request_of callback =
      if is_falsy host.float_is (lookup "request" callback)
      then object end
      else get "request" callback

  unfoldable pub answer : Option (Json → W → Option Json × W) → Fields → W → Json × W
  answer none callback w = (response callback unavailable, w)
  answer (some complete) callback w = completed callback (complete (request_of callback) w)

  abbrev pub embedded : Fields → (Json ⊎ String) × W → Json × W
  embedded callback (result, w) = (embeddings callback result, w)

  abbrev pub embed_texts :
      (Items → Json → W → (Json ⊎ String) × W) → Fields → Option Items → W → Json × W
  embed_texts embed callback none w =
      (embedding_error callback "embedding_request texts must be strings", w)
  embed_texts embed callback (some texts) w =
      embedded callback (embed texts (get "model" callback) w)

  unfoldable pub answer_embedding :
      Option (Items → Json → W → (Json ⊎ String) × W) → Fields → W → Json × W
  answer_embedding none callback w =
      (embedding_error callback "no production embedding provider is configured", w)
  answer_embedding (some embed) callback w =
      embed_texts embed callback (texts_of (get "texts" callback)) w

  unfoldable pub answer_callback : Fields → W → Json × W
  unfolding answer answer_embedding
  answer_callback callback w =
      if is_text "model_request" (get "callback" callback)
      then answer host.complete callback w
      else answer_embedding host.embed callback w

  -- What follows a write: the text of its error, or `next`.
  abbrev pub after_write : (W → Outcome × W) → Option String × W → Outcome × W
  after_write next (none, w) = next w
  after_write next (some text, w) = (reply (error "dead" text), w)

  abbrev pub answered : (W → Outcome × W) → Json × W → Outcome × W
  answered next (value, w) = after_write next (host.write value w)

  -- A callback: `again` goes on, and is not there once too many were made.
  unfoldable pub on_callback : Option (W → Outcome × W) → Fields → W → Outcome × W
  unfolding answer_callback
  on_callback none callback w =
      (reply (error "dead" "callback storm; sidecar killed"), host.terminate w)
  on_callback (some again) callback w = answered again (answer_callback callback w)

  abbrev pub is_callback : Fields → Bool
  is_callback fields =
      is_text "model_request" (get "callback" fields)
      || is_text "embedding_request" (get "callback" fields)

  unfoldable pub on_doc : ℕ → Option (W → Outcome × W) → Read → W → Outcome × W
  unfolding on_callback
  on_doc sent again closed w = (reply (error "dead" "memory sidecar exited"), w)
  on_doc sent again (broken text) w = (reply (error "dead" text), w)
  on_doc sent again (doc (object fields)) w =
      if is_callback fields
      then on_callback again fields w
      else if id_is (get "id" fields) sent
      then (reply fields, w)
      else (reply (error "dead" "protocol corrupt; sidecar killed"), host.terminate w)
  on_doc sent again (doc _) w = (raised, w)

  -- The loop, with the callbacks that it may still answer.
  unfoldable pub listen : ℕ → ℕ → W → Outcome × W
  unfolding on_doc
  listen zero sent w = let (read, w') = host.readline w in on_doc sent none read w'
  listen (suc left) sent w =
      let (read, w') = host.readline w in on_doc sent (some (λ v. listen left sent v)) read w'

  abbrev pub released : ℕ → Outcome × W → Outcome × ℕ × W
  released sent (outcome, w) = (outcome, sent, host.release w)

  -- With the lock: the number of this request is the last one's, and one more.
  unfoldable pub ask : Fields → ℕ → W → Outcome × ℕ × W
  unfolding listen
  ask request last w =
      let sent = suc last in
      released sent (
        after_write (listen max_memory_callbacks sent)
          (host.write (object (with_id sent request)) w))

  unfoldable pub after_acquire : Fields → ℕ → Bool × W → Outcome × ℕ × W
  unfolding ask
  after_acquire request last (true, w) = ask request last w
  after_acquire request last (false, w) =
      (reply (error "busy" "memory is mid-consolidation"), last, w)

  unfoldable pub call : Bool → Fields → ℕ → W → Outcome × ℕ × W
  unfolding after_acquire
  call with_timeout request last w =
      if with_timeout
      then after_acquire request last (host.acquire_within w)
      else ask request last (host.acquire w)
