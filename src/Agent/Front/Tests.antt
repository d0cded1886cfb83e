-- ===== src/Agent/Front/Tests.antt =====
-- An agent whose world counts the turns and the calls of its schedule surface.
use sigil_pi.Prelude.{
  ℕ, ◌+◌, ◌≡◌, refl, String, Bool, true, false, Option, none, some, [], ◌∷◌, ◌⊎◌, str_eq,
  if◌then◌else◌,
}
use sigil_pi.Agent.Json.{string, end, field, object}
use sigil_pi.Agent.PyInt.{int}
use sigil_pi.Agent.Front.{
  Host, Request, value, replied, scheduled, chat_reply, unauthorized, bad_request, handle, serve,
  token_of, bind_is_loopback,
}
use sigil_pi.Agent.Front.Access.{Guarded, serve_guards}

abbrev lower_bearer : String → String
lower_bearer s = if str_eq s "Bearer" then "bearer" else s

abbrev loopback : String → Option Bool
loopback s =
    if str_eq s "127.0.0.1" then some true else if str_eq s "0.0.0.0" then some false else none

abbrev host : Host ℕ
host = record {
  ip_is_loopback = loopback;
  lower = lower_bearer;
  strip = λ s. s;
  str_of = λ j. "s";
  read_body =
      λ n w. (value (object (field "session" (string "s") (field "message" (string "hi") end))), w);
  turn = λ session message w. (replied (111 ∷ []) (3, 2), w + 1);
  stream = λ session message w. w + 1;
  schedule = λ path w. (scheduled (string path), w + 10);
}

abbrev chat_request : Option String → Request
chat_request authorization = record {
  is_post = true;
  path = "/chat";
  authorization = authorization;
  content_length = some (49 ∷ 48 ∷ []);
  accepts_stream = false;
}

abbrev long_request : Request
long_request = record {
  is_post = true;
  path = "/chat";
  authorization = some "Bearer key";
  content_length = some (45 ∷ 49 ∷ []);
  accepts_stream = false;
}

handle_answers :
    handle host (some "key") true (chat_request (some "Bearer key")) 0
    ≡ (chat_reply (111 ∷ []) (3, 2), 1)
unfolding handle int
handle_answers = refl

handle_refuses :
    handle host (some "key") true (chat_request (some "Bearer lock")) 0 ≡ (unauthorized, 0)
unfolding handle
handle_refuses = refl

handle_negative_length : handle host (some "key") true long_request 0 ≡ (bad_request, 0)
unfolding handle int
handle_negative_length = refl

serve_public : serve host "0.0.0.0" (some "") ≡ none
unfolding serve
serve_public = refl

serve_key : serve host "0.0.0.0" (some "key") ≡ some (some "key")
unfolding serve
serve_key = refl

serve_guards_example :
    ((t : String) × (token_of (some "key") ≡ some t)
      × Guarded host (some "key") true (chat_request (some "Bearer lock")) 0 t)
    ⊎ ((token_of (some "key") ≡ none) × (bind_is_loopback host "0.0.0.0" ≡ true))
serve_guards_example =
    serve_guards host "0.0.0.0" (some "key") (some "key") true (chat_request (some "Bearer lock")) 0
      serve_key
