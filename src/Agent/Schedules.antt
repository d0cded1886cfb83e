-- ===== src/Agent/Schedules.antt =====
-- `due_at`, `ScheduleStore` and `Scheduler.tick` of agent.py. The store is its JSON object, as it is
-- read and written under the lock. Times are in microseconds. What a turn and other threads do to the
-- store meanwhile is the host's, arbitrary.
pub mod Firing
mod Tests
use Prim.Native.String.{compare}
use Prim.Native.Nat.{Ordering}
use sigil_pi.Prelude.{
  ℕ, zero, suc, ◌+◌, ◌*◌, String, Bool, true, false, not, ◌&&◌, Option, none, some, List, [], ◌∷◌,
  ◌++◌, any, leb, str_eq, if◌then◌else◌,
}
use sigil_pi.Prelude.Dict.{Dict, get, put, without}
use sigil_pi.Agent.Json.{ℤ, pos, negsuc}

pub record Entry : Type 0 where
  pub session : String
  pub message : String
  pub every_ms : ℕ
  pub last_run : Option ℕ

abbrev pub due_at : Entry → ℕ → Bool
due_at e now = elim e.last_run [ none ↦ true | some t ↦ leb (t + e.every_ms * 1000) now ]

-- `sorted(self._load().items())`, by insertion.
unfoldable pub insert_by_name : String × Entry → Dict Entry → Dict Entry
insert_by_name p [] = p ∷ []
insert_by_name p (q ∷ rest) = elim (compare p.0 q.0) [
  | Ordering.gt ↦ q ∷ insert_by_name p rest
  | _ ↦ p ∷ q ∷ rest
]

unfoldable pub entries : Dict Entry → Dict Entry
unfolding insert_by_name
entries [] = []
entries (p ∷ rest) = insert_by_name p (entries rest)

-- `put`, with `int(every_ms)`; `none` is its `ValueError`.
unfoldable pub put_entry : String → String → String → ℤ → Dict Entry → Option (Dict Entry)
put_entry name session message (pos (suc n)) store =
    let last_run : Option ℕ = elim (get name store) [ none ↦ none | some prior ↦ prior.last_run ] in
    some (
      put name
        (record { session = session; message = message; every_ms = suc n; last_run = last_run })
        store)
put_entry name session message _ store = none

unfoldable pub remove : String → Dict Entry → Bool × Dict Entry
remove name store = elim (get name store) [
  | none ↦ (false, store)
  | some e ↦ (true, without name store)
]

unfoldable pub mark_run : String → ℕ → Dict Entry → Dict Entry
mark_run name when store = elim (get name store) [
  | none ↦ store
  | some e ↦ put name (record e { last_run = some when }) store
]

pub record Host (W : Type 0) : Type 0 where
  pub time : W → ℕ × W
  -- `agent.turn`, whose exception is printed only, and what became of the store meanwhile
  pub turn : String → String → Dict Entry → W → Dict Entry × W

-- The arguments of a call of `agent.turn`, with the name of its entry.
pub record Call : Type 0 where
  pub name : String
  pub session : String
  pub message : String

abbrev pub call_of : String × Entry → Call
call_of (name, e) = record { name = name; session = e.session; message = e.message }

abbrev pub mid_turn : List String → String → Bool
mid_turn running name = any (str_eq name) running

-- `set.discard`
unfoldable pub discard : String → List String → List String
discard name [] = []
discard name (k ∷ ks) = let rest = discard name ks in if str_eq k name then rest else k ∷ rest

-- What a tick calls, and what it leaves: the keys of `_running`, the store, the rest.
pub record Ticked (W : Type 0) : Type 0 where
  pub calls : List Call
  pub running : List String
  pub store : Dict Entry
  pub world : W

module _ {W : Type 0} (host : Host W) where
  -- The loop over the entries of the snapshot.
  unfoldable pub tick_entries : ℕ → Dict Entry → List String → Dict Entry → W → Ticked W
  unfolding mark_run discard
  tick_entries now [] running store w = record {
    calls = [];
    running = running;
    store = store;
    world = w;
  }
  tick_entries now ((name, e) ∷ rest) running store w =
      let skipped = tick_entries now rest running store w in
      let (store', w1) = host.turn e.session e.message store w in
      let (when, w2) = host.time w1 in
      let after =
        tick_entries now rest (discard name (name ∷ running)) (mark_run name when store') w2 in
      if due_at e now && not (mid_turn running name)
      then record after { calls = call_of (name, e) ∷ after.calls }
      else skipped

  unfoldable pub tick : List String → Dict Entry → W → Ticked W
  unfolding tick_entries entries
  tick running store w =
      let (now, w1) = host.time w in tick_entries now (entries store) running store w1
