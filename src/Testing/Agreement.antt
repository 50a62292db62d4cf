-- ===== src/Testing/Agreement.antt =====
-- About what the harness of disintegrate/src/testing.rs says of the decision maker of
-- disintegrate/src/decision.rs.
use disintegrate.Prelude.{◌≡◌, ◌↔◌, List, arith, Option-cases, inl, inr}
use disintegrate.Prelude.Result.{Result, ok, err, panicked, unwrap, ◌>>=◌, map_err}
use disintegrate.Event.{Event}
use disintegrate.State.{MultiState, mutate_each}
use disintegrate.State.Multi.{IsLawful}
use disintegrate.EventStore.{EventStore, KeepsLog}
use disintegrate.StateStore.{LoadedState, load, persist}
use disintegrate.StateStore.Replay.{load-replay}
use disintegrate.Decision.{Decision, domain, state_store, make, after_process}
use disintegrate.Testing.{given, enumerate, when}

not_domain :
    {A X Y : Type 0} (r : Result A Y) (x : X)
    → map_err (λ (y : Y). state_store y) r ≡ err (domain x)
    → ⊥
not_domain (ok a) x h = cc h
not_domain (err y) x h = cc h
not_domain panicked x h = cc h

module _ {St S M E X Y : Type 0} (ms : MultiState S M E) (ev : Event E) (lawful : IsLawful ms ev)
    (es : EventStore St E Y) (k : KeepsLog es ev) (d : Decision S E X) (between : St → St) where
  process_agrees :
      (st : St) (loaded : LoadedState S) (r : Result (List E) X) (x : X)
      → (r ≡ err x) ↔ ((after_process ms es d between st loaded r).1 ≡ err (domain x))
  process_agrees st loaded (ok changes) x = (
    λ h. absurd (cc h),
    λ h. absurd (not_domain (persist ms es (between st) loaded changes d.validation_query).1 x h),
  )
  process_agrees st loaded (err y) x = ground arith
  process_agrees st loaded panicked x = ground arith

  -- Over a store that keeps its log, the harness gives a domain error for a history exactly when the
  -- decision maker returns this error for a log with the events of the history, numbered from 1,
  -- whatever other clients do meanwhile.
  pub when-make :
      (st : St) (history : List E) (x : X)
      → k.log st ≡ enumerate 0 history
      → ((when ms (given history) d).result ≡ err x)
        ↔ ((make ms es d between st).1 ≡ err (domain x))
  unfolding when make
  when-make st history x log_is =
      let replayed : load ms es st d.state_query ≡ (
          unwrap (mutate_each ms (ms.into_state_part d.state_query) (enumerate 0 history)) >>= λ m.
          ok (record { state = ms.into_state m; version = ms.version m })) =
        rw (← log_is) (load-replay ms ev lawful es k st d.state_query) in
      elim (Option-cases
        (mutate_each ms (ms.into_state_part d.state_query) (enumerate 0 history))) [
          | inl panics ↦ rw (replayed, panics) (ground arith)
          | inr (m, ran) ↦
              rw (replayed, ran)
                (process_agrees st (record { state = ms.into_state m; version = ms.version m })
                  (d.process (ms.into_state m)) x)
        ]
