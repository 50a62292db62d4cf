-- ===== src/Tests/Listening.antt =====
-- Runs of a listener, and snapshots.
use disintegrate.Prelude.{
  ℕ, ◌+◌, ◌≡◌, refl, Bool, true, false, Option, none, some, String, List, [], ◌∷◌, arith, ◌==◌,
  eq_iff, not, if◌then◌else◌,
}
use disintegrate.Prelude.Result.{Result, ok, err}
use disintegrate.Event.{EventId, PersistedEvent}
use disintegrate.State.{StateMutate, StatePart}
use disintegrate.Postgres.Listener.{EventListener, handle_stream}
use disintegrate.Postgres.Listener.Progress.{Progress, handle_stream-Progress}
use disintegrate.Postgres.Snapshotter.{Codec, Snapshot, query_key, load_snapshot, store_snapshot}
use disintegrate.Postgres.Snapshotter.Store.{IsCodec, load-store}
use disintegrate.Tests.Streams.{ShoppingEvent, added, cleared, item_filter, one}

-- Counts the items; a cup is an error.
abbrev count_event : ℕ → ShoppingEvent → ℕ × Bool
count_event n (added item) = (n + 1, not (item == "cup"))
count_event n cleared = (0, true)

abbrev pub counter : EventListener ℕ ShoppingEvent
counter = record {
  id = "counter";
  query = one (item_filter "pen");
  handle = λ n e. count_event n e.event;
}

abbrev pub never : ℕ → Bool
never k = false

abbrev pub item : EventId → String → PersistedEvent ShoppingEvent
item id name = record { id = id; event = added name }

abbrev failing : List (Result (PersistedEvent ShoppingEvent) String)
failing = ok (item 3 "pen") ∷ ok (item 5 "ink") ∷ ok (item 8 "cup") ∷ []

handle_stream-Progress_example :
    Progress counter 0 2 failing (err (record { last_processed_event_id = 5 }))
unfolding handle_stream
handle_stream-Progress_example = handle_stream-Progress counter never 0 2 0 failing

-- A state is a text, which is its own JSON form; no state has the empty text.
abbrev nonempty : String → Option String
nonempty s = if s == "" then none else some s

abbrev codec : Codec String String
codec = record {
  snapshot_id = λ name key. name;
  same_id = λ a b. a == b;
  to_string = nonempty;
  from_str = nonempty;
}

nonempty_inv : (s text : String) → nonempty s ≡ some text → nonempty text ≡ some s
nonempty_inv s text h = ground arith

codec-IsCodec : IsCodec codec
codec-IsCodec = record { reads_back = nonempty_inv; same_id_iff = eq_iff }

abbrev basket : StateMutate String ShoppingEvent ShoppingEvent
basket = record {
  name = "Basket";
  query = λ s. one (item_filter "pen");
  try_into = λ e. some e;
  mutate = λ s e. some s;
}

abbrev loaded : StatePart String
loaded = record { version = 9; applied_events = 3; inner = "three pens" }

abbrev fresh : StatePart String
fresh = record { version = 0; applied_events = 0; inner = "default" }

abbrev snapshot_of : String → EventId → Snapshot String
snapshot_of payload version = record {
  id = "Basket";
  name = "Basket";
  query = query_key (one (item_filter "pen"));
  payload = payload;
  version = version;
}

load-store_example :
    load_snapshot codec basket (snapshot_of "three pens" 9 ∷ []) fresh
    ≡ record { version = 9; applied_events = 0; inner = "three pens" }
load-store_example =
    load-store codec basket codec-IsCodec 2 (snapshot_of "one pen" 4 ∷ [])
      (snapshot_of "three pens" 9 ∷ []) loaded fresh (omega arith) refl (omega arith)
      (unfold store_snapshot in refl)
