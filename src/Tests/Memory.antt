-- ===== src/Tests/Memory.antt =====
-- A store that keeps its events in a list, as a client of the contract of stores.
use disintegrate.Prelude.{
  ◌+◌, ◌≡◌, refl, ap, ◌∙◌, Bool, true, false, List, [], ◌∷◌, ◌++◌, map, any, String, arith, ℕ,
  length,
}
use disintegrate.Prelude.Result.{Result, ok, err}
use disintegrate.Event.{Event, PersistedEvent}
use disintegrate.Stream.Query
use disintegrate.Stream.Query.{StreamQuery}
use disintegrate.EventStore.{EventStore, KeepsLog, Increasing}

-- The events with the ids from `n + 1` on.
abbrev pub numbered : {E : Type 0} → ℕ → List E → List (PersistedEvent E)
numbered n [] = []
numbered n (e ∷ es) = record { id = n + 1; event = e } ∷ numbered (n + 1) es

module _ {E : Type 0} (ev : Event E) where
  abbrev admit : List E → List E → Bool → List E × Result (List (PersistedEvent E)) String
  admit st events true = (st, err "concurrency")
  admit st events false = (st ++ events, ok (numbered (0 + length st) events))

  abbrev pub memory : EventStore (List E) E String
  memory = record {
    stream = λ st q. map ok (numbered 0 st);
    append = λ st events q last.
        admit st events (any (Query.matches ev (Query.change_origin last q)) (numbered 0 st));
    append_without_validation = λ st events. admit st events false;
  }

  numbered-Increasing : (n : ℕ) (es : List E) → Increasing n (numbered n es)
  numbered-Increasing n [] = tt
  numbered-Increasing n (e ∷ es) = (omega arith, numbered-Increasing (n + 1) es)

  numbered-append :
      (n : ℕ) (xs ys : List E)
      → numbered n (xs ++ ys) ≡ numbered n xs ++ numbered (n + length xs) ys
  numbered-append n [] ys = let same : n + 0 ≡ n = omega arith in rw same refl
  numbered-append n (x ∷ xs) ys =
      let same : n + 1 + length xs ≡ n + length (x ∷ xs) = omega arith in
      ap (◌∷◌ (record { id = n + 1; event = x })) (numbered-append (n + 1) xs ys ∙ rw same refl)

  numbered-event : (n : ℕ) (es : List E) → map (λ p. p.event) (numbered n es) ≡ es
  numbered-event n [] = refl
  numbered-event n (e ∷ es) = ap (◌∷◌ e) (numbered-event (n + 1) es)

  admit_inv :
      (st st' events : List E) (conflict : Bool) (persisted : List (PersistedEvent E))
      → admit st events conflict ≡ (st', ok persisted)
      → (conflict ≡ false) × (st' ≡ st ++ events) × (persisted ≡ numbered (0 + length st) events)
  admit_inv st st' events true persisted h = absurd (ground arith)
  admit_inv st st' events false persisted h = (refl, ground arith, ground arith)

  unfoldable pub memory-KeepsLog : KeepsLog memory ev
  unfolding numbered-Increasing numbered-append numbered-event admit_inv
  memory-KeepsLog = record {
    log = λ st. numbered 0 st;
    increasing = λ st. numbered-Increasing 0 st;
    streamed = λ st q. (numbered 0 st, refl, numbered-Increasing 0 st, refl);
    appended = λ st st' events q last persisted h.
        let (free, grown, new) =
          admit_inv st st' events
            (any (Query.matches ev (Query.change_origin last q)) (numbered 0 st)) persisted h in
        (
          free,
          rw (grown, new) (numbered-append 0 st events),
          rw new (numbered-event (0 + length st) events),
        );
  }
