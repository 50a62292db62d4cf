-- ===== src/Postgres/Listener/Tasks/Shutdown.antt =====
-- About the shutdown of the loops of `spawn_task` of disintegrate-postgres/src/listener.rs.
use mathlib.Core.List.{Memᴰ}
use disintegrate.Prelude.{
  ℕ, zero, suc, ◌≡◌, refl, Bool, true, false, Option, none, some, List, [], ◌∷◌, String, arith,
}
use disintegrate.Prelude.Result.{Result}
use disintegrate.EventStore.{EventStore}
use disintegrate.Postgres.Listener.{ListenerRow, SqlxError}
use disintegrate.Postgres.Listener.Tasks.{
  Task, Process, Fault, Branch, Step, select, round_if, round_at, wake_all, step, run,
}

abbrev is_ended : Option (Result (Unit {0}) SqlxError) → Bool
is_ended none = false
is_ended (some r) = true

-- Whether the task at a position has ended, if there is one.
abbrev pub ended_at : {W E : Type 0} → ℕ → List (Task W E) → Bool
ended_at i [] = true
ended_at zero (t ∷ ts) = is_ended t.ended
ended_at (suc i) (t ∷ ts) = ended_at i ts

module _ {W E X St : Type 0} (es : EventStore St E X) where
  round_if-ended :
      (o : Option (Result (Unit {0}) SqlxError)) (t : Task W E) (branch : Branch) (c : Bool)
      (is_cancelled : ℕ → Bool) (st : St) (fault : Fault) (shared : W × List ListenerRow)
      → t.ended ≡ o
      → is_ended t.ended ≡ true
      → is_ended (round_if es o t branch c is_cancelled st fault shared).0.ended ≡ true
  round_if-ended none t branch c is_cancelled st fault shared same h = absurd (ground arith)
  round_if-ended (some r) t branch c is_cancelled st fault shared same h = h

  ended_at-round_at :
      (i j : ℕ) (ts : List (Task W E)) (branch : Branch) (c : Bool) (is_cancelled : ℕ → Bool)
      (st : St) (fault : Fault) (shared : W × List ListenerRow)
      → ended_at j ts ≡ true
      → ended_at j (round_at es i ts branch c is_cancelled st fault shared).0 ≡ true
  ended_at-round_at i j [] branch c is_cancelled st fault shared h = refl
  ended_at-round_at zero zero (t ∷ ts) branch c is_cancelled st fault shared h =
      round_if-ended t.ended t branch c is_cancelled st fault shared refl h
  ended_at-round_at zero (suc j) (t ∷ ts) branch c is_cancelled st fault shared h = h
  ended_at-round_at (suc i) zero (t ∷ ts) branch c is_cancelled st fault shared h = h
  ended_at-round_at (suc i) (suc j) (t ∷ ts) branch c is_cancelled st fault shared h =
      ended_at-round_at i j ts branch c is_cancelled st fault shared h

  round_if-shutdown :
      (o : Option (Result (Unit {0}) SqlxError)) (t : Task W E) (is_cancelled : ℕ → Bool) (st : St)
      (fault : Fault) (shared : W × List ListenerRow)
      → t.ended ≡ o
      → is_ended (round_if es o t Branch.shutdown true is_cancelled st fault shared).0.ended ≡ true
  unfolding select
  round_if-shutdown none t is_cancelled st fault shared same = refl
  round_if-shutdown (some r) t is_cancelled st fault shared same = rw same refl

  ended_at-shutdown :
      (i : ℕ) (ts : List (Task W E)) (is_cancelled : ℕ → Bool) (st : St) (fault : Fault)
      (shared : W × List ListenerRow)
      → ended_at i (round_at es i ts Branch.shutdown true is_cancelled st fault shared).0 ≡ true
  ended_at-shutdown i [] is_cancelled st fault shared = refl
  ended_at-shutdown zero (t ∷ ts) is_cancelled st fault shared =
      round_if-shutdown t.ended t is_cancelled st fault shared refl
  ended_at-shutdown (suc i) (t ∷ ts) is_cancelled st fault shared =
      ended_at-shutdown i ts is_cancelled st fault shared

  ended_at-wake_all :
      (event : String) (j : ℕ) (ts : List (Task W E))
      → ended_at j ts ≡ true
      → ended_at j (wake_all event ts) ≡ true
  unfolding wake_all
  ended_at-wake_all event j [] h = refl
  ended_at-wake_all event zero (t ∷ ts) h = ground arith
  ended_at-wake_all event (suc j) (t ∷ ts) h = ended_at-wake_all event j ts h

  run-ended :
      (ss : List (Step St)) (p : Process W E) (j : ℕ)
      → ended_at j p.tasks ≡ true
      → ended_at j (run es ss p).tasks ≡ true
  unfolding run step
  run-ended [] p j h = h
  run-ended (Step.round_of i branch is_cancelled st fault ∷ ss) p j h =
      run-ended ss (step es (Step.round_of i branch is_cancelled st fault) p) j
        (ended_at-round_at i j p.tasks branch p.cancelled is_cancelled st fault (p.world, p.rows) h)
  run-ended (Step.notified event ∷ ss) p j h =
      run-ended ss (step es (Step.notified event) p) j (ended_at-wake_all event j p.tasks h)
  run-ended (Step.cancel ∷ ss) p j h = run-ended ss (step es Step.cancel p) j h

  step-cancelled :
      (s : Step St) (p : Process W E) → p.cancelled ≡ true → (step es s p).cancelled ≡ true
  unfolding step
  step-cancelled (Step.round_of i branch is_cancelled st fault) p h = h
  step-cancelled (Step.notified event) p h = h
  step-cancelled Step.cancel p h = refl

  -- Once the shutdown is requested, every task whose `select!` takes the branch of the shutdown at some
  -- time has ended at the end of the run, whatever else happens before and after.
  run-shutdown :
      (ss : List (Step St)) (p : Process W E) (i : ℕ) (is_cancelled : ℕ → Bool) (st : St)
      (fault : Fault)
      → p.cancelled ≡ true
      → Memᴰ (Step.round_of i Branch.shutdown is_cancelled st fault) ss
      → ended_at i (run es ss p).tasks ≡ true
  unfolding run
  run-shutdown [] p i is_cancelled st fault c m = elim m [ ]
  run-shutdown (s ∷ ss) p i is_cancelled st fault c (Memᴰ.tail m) =
      run-shutdown ss (step es s p) i is_cancelled st fault (step-cancelled s p c) m
  run-shutdown (s ∷ ss) p i is_cancelled st fault c (Memᴰ.head same) =
      run-ended ss (step es s p) i (
        rw (← same) (
          unfold step in
          rw c (ended_at-shutdown i p.tasks is_cancelled st fault (p.world, p.rows))))
