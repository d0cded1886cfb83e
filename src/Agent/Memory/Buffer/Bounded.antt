-- ===== src/Agent/Memory/Buffer/Bounded.antt =====
-- What the buffer holds while the child takes no record.
use mathlib.Core.List.{append_assoc, append-nil}
use sigil_pi.Prelude.{
  ℕ, suc, ◌-◌, ◌≤◌, ◌≡◌, refl, sym, ap, ◌∙◌, arith, String, Bool, true, false, Option, none, some,
  List, [], ◌∷◌, ◌++◌, length, drop, length-append, ltb, ltb→lt, ◌<◌, str_eq, if◌then◌else◌,
  Bool-cases, inl, inr,
}
use sigil_pi.Agent.Json.{Fields, lookup}
use sigil_pi.Agent.Memory.{Host, Outcome, reply, raised, call}
use sigil_pi.Agent.Memory.Buffer.{
  State, max_memory_pending, record_request, waits, pushed, after_reply, keep_if, flush, flushed,
  record_text, records, again,
}

-- The newest of a list, at most `max_memory_pending`.
abbrev pub newest : List Fields → List Fields
newest xs = drop (length xs - max_memory_pending) xs

-- The requests of the records whose text is not empty.
abbrev pub requests : List (String × String × String) → List Fields
requests [] = []
requests ((session, text, kind) ∷ rest) =
    let others = requests rest in
    if str_eq text "" then others else record_request session text kind ∷ others

drop_one :
    (p xs : List Fields)
    → max_memory_pending ≤ length p
    → (x : Fields) → newest (p ++ xs) ≡ newest ((x ∷ p) ++ xs)
drop_one p xs h x =
    let e : suc (length (p ++ xs)) - 256 ≡ suc (length (p ++ xs) - 256) =
      omega (arith, length-append p xs) in
    rw e refl

newest-pushed :
    (p xs : List Fields) (r : Fields)
    → length p ≤ max_memory_pending
    → (newest (pushed r p ++ xs) ≡ newest (p ++ r ∷ xs))
      × (length (pushed r p) ≤ max_memory_pending)
newest-pushed [] xs r h = (refl, omega arith)
newest-pushed (x ∷ p) xs r h =
    let longer = length-append p (r ∷ []) in
    let same : newest ((x ∷ (p ++ r ∷ [])) ++ xs) ≡ newest ((x ∷ p) ++ r ∷ xs) =
      ap (λ zs. newest (x ∷ zs)) (append_assoc p (r ∷ []) xs) in
    elim (Bool-cases (ltb max_memory_pending (length ((x ∷ p) ++ r ∷ [])))) [
      | inl full ↦
          let many : max_memory_pending ≤ length (p ++ r ∷ []) = omega (arith, ltb→lt _ _ full) in
          rw full (drop_one (p ++ r ∷ []) xs many x ∙ same, omega (arith, longer))
      | inr room ↦
          let few : length (p ++ r ∷ []) < max_memory_pending = ground (arith, room) in
          rw room (same, omega arith)
    ]

module _ {W : Type 0} (host : Host W) where
  -- Every record is answered busy or dead.
  abbrev pub IsDown : Type 0
  IsDown =
      (request : Fields) (last : ℕ) (w : W)
      → (f : Fields) × ((call host true request last w).0 ≡ reply f)
        × (waits (lookup "err" f) ≡ some true)

  after_reply_waits :
      (request : Fields) (next : ℕ → W → Option (List Fields) × ℕ × W) (r : Outcome × ℕ × W)
      (f : Fields)
      → r.0 ≡ reply f
      → waits (lookup "err" f) ≡ some true
      → (after_reply host request next r).0 ≡ keep_if true request (next r.1 r.2).0
  after_reply_waits request next (reply g, last, w) f same waiting =
      let is_f : g ≡ f = cc in
      let is_waiting : waits (lookup "err" g) ≡ some true = rw is_f waiting in
      rw (after_reply, is_waiting) refl
  after_reply_waits request next (raised, last, w) f same waiting = cc

  flush_down :
      IsDown
      → (pending : List Fields) (last : ℕ) (w : W) → (flush host pending last w).0 ≡ some pending
  unfolding flush
  flush_down down [] last w = refl
  flush_down down (request ∷ rest) last w =
      let (f, is_reply, is_waiting) = down request last w in
      let later =
        flush_down down rest (call host true request last w).1 (call host true request last w).2 in
      after_reply_waits request (λ l v. flush host rest l v) (call host true request last w) f
        is_reply is_waiting
      ∙ rw later refl

  flushed-some :
      (pending still : List Fields) (r : Option (List Fields) × ℕ × W)
      → r.0 ≡ some still
      → ((flushed host pending r).0 ≡ true) × ((flushed host pending r).1.pending ≡ still)
  flushed-some pending still (none, last, w) h = cc
  flushed-some pending still (some xs, last, w) h = (refl, cc)

  again-true :
      (next : State → W → Bool × State × W) (r : Bool × State × W)
      → r.0 ≡ true
      → again host next r ≡ next r.1 r.2
  again-true next (true, s, w) h = refl
  again-true next (false, s, w) h = cc

  record_text_down :
      (session text kind : String) (s : State) (w : W)
      → IsDown
      → str_eq text "" ≡ false
      → ((record_text host session text kind s w).0 ≡ true)
        × ((record_text host session text kind s w).1.pending
            ≡ pushed (record_request session text kind) s.pending)
  unfolding record_text
  record_text_down session text kind s w down filled =
      let pending = pushed (record_request session text kind) s.pending in
      rw filled (
        flushed-some pending pending (flush host pending s.last_id w)
          (flush_down down pending s.last_id w))

  -- From a buffer of at most 256 records, while every record is answered busy or dead: `record`
  -- returns, and the buffer holds the newest 256 of what it held and of the records since whose text is
  -- not empty, in their order.
  pub records_down :
      (rs : List (String × String × String)) (s : State) (w : W)
      → IsDown
      → length s.pending ≤ max_memory_pending
      → ((records host rs s w).0 ≡ true)
        × ((records host rs s w).1.pending ≡ newest (s.pending ++ requests rs))
  unfolding records
  records_down [] s w down small =
      let none_over : length (s.pending ++ []) - max_memory_pending ≡ 0 =
        omega (arith, length-append s.pending []) in
      (refl, rw none_over (sym (append-nil s.pending)))
  records_down ((session, text, kind) ∷ rest) s w down small = elim (Bool-cases (str_eq text "")) [
    | inl empty ↦ rw (record_text, empty) (records_down rest s w down small)
    | inr filled ↦
        let request = record_request session text kind in
        let (goes_on, is_pushed) = record_text_down session text kind s w down filled in
        let (same, within) = newest-pushed s.pending (requests rest) request small in
        let next = record_text host session text kind s w in
        let fits : length next.1.pending ≤ max_memory_pending = rw is_pushed within in
        let (ends, held) = records_down rest next.1 next.2 down fits in
        let added : (if str_eq text "" then requests rest else request ∷ requests rest)
            ≡ request ∷ requests rest =
          rw filled refl in
        let shown : newest (next.1.pending ++ requests rest)
            ≡ newest (s.pending ++ request ∷ requests rest) =
          rw is_pushed same in
        rw (again-true (λ t v. records host rest t v) next goes_on)
          (ends, held ∙ (shown ∙ ap (λ xs. newest (s.pending ++ xs)) (sym added)))
  ]
