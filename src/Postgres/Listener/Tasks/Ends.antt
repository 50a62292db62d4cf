-- ===== src/Postgres/Listener/Tasks/Ends.antt =====
-- About the loops of `spawn_task` of disintegrate-postgres/src/listener.rs: why they end, that they do
-- after the shutdown, and that no notification is lost.
use disintegrate.Prelude.{
  ℕ, zero, suc, ◌≡◌, ◌⊎◌, refl, Bool, true, false, Option, none, some, List, [], ◌∷◌, String, All,
  All-weaken, if◌then◌else◌, Bool-cases, inl, inr,
}
use disintegrate.Prelude.Result.{Result, ok, err, panicked}
use disintegrate.EventStore.{EventStore}
use disintegrate.Postgres.Listener.{ListenerRow, SqlxError, execute, wake}
use disintegrate.Postgres.Listener.Tasks.{
  Task, Process, Fault, Branch, Step, end_of, execute_task, select, round_if, round_at,
  try_execute_under, wake_all, step, run,
}

-- A task still runs, or ended with the shutdown, with a fault of the database that is not passing, or
-- with a panic.
abbrev pub EndsRight : {W E : Type 0} → Bool → Task W E → Type 0
EndsRight cancelled t =
    (t.ended ≡ none)
    ⊎ (((t.ended ≡ some (ok tt)) × (cancelled ≡ true))
        ⊎ ((t.ended ≡ some (err SqlxError.other)) ⊎ (t.ended ≡ some panicked)))

end_of-execute :
    (r : Result (Unit {0}) SqlxError)
    → (end_of (execute r) ≡ none)
      ⊎ ((end_of (execute r) ≡ some (err SqlxError.other)) ⊎ (end_of (execute r) ≡ some panicked))
unfolding execute
end_of-execute (ok u) = inl refl
end_of-execute (err SqlxError.io) = inl refl
end_of-execute (err SqlxError.pool_timed_out) = inl refl
end_of-execute (err SqlxError.other) = inr (inl refl)
end_of-execute panicked = inr (inr refl)

if_both : {A : Type 0} (P : A → Type 0) (b : Bool) {x y : A} → P x → P y → P (if b then x else y)
if_both P true hx hy = hx
if_both P false hx hy = hy

module _ {W E X St : Type 0} (es : EventStore St E X) where
  executed-EndsRight :
      (t : Task W E) (c : Bool) (is_cancelled : ℕ → Bool) (st : St) (fault : Fault)
      (shared : W × List ListenerRow)
      → EndsRight c (execute_task es t is_cancelled st fault shared).0
  executed-EndsRight t c is_cancelled st fault (w, rows) =
      elim (end_of-execute
        (try_execute_under es t.executor.event_handler is_cancelled st t.executor.config.fetch_size
          fault w rows).1) [
            | inl going ↦ inl going
            | inr (inl fault) ↦ inr (inr (inl fault))
            | inr (inr panics) ↦ inr (inr (inr panics))
          ]

  select-EndsRight :
      (t : Task W E) (branch : Branch) (c : Bool) (is_cancelled : ℕ → Bool) (st : St)
      (fault : Fault) (shared : W × List ListenerRow)
      → t.ended ≡ none
      → EndsRight c (select es t branch c is_cancelled st fault shared).0
  unfolding select
  select-EndsRight t Branch.changed c is_cancelled st fault shared going =
      elim (Bool-cases t.woken) [
        | inl y ↦
            rw y (executed-EndsRight (record t { woken = false }) c is_cancelled st fault shared)
        | inr n ↦ rw n (inl going)
      ]
  select-EndsRight t Branch.tick c is_cancelled st fault shared going =
      executed-EndsRight t c is_cancelled st fault shared
  select-EndsRight t Branch.shutdown true is_cancelled st fault shared going =
      inr (inl (refl, refl))
  select-EndsRight t Branch.shutdown false is_cancelled st fault shared going = inl going

  round-EndsRight :
      (o : Option (Result (Unit {0}) SqlxError)) (t : Task W E) (branch : Branch) (c : Bool)
      (is_cancelled : ℕ → Bool) (st : St) (fault : Fault) (shared : W × List ListenerRow)
      → t.ended ≡ o
      → EndsRight c t
      → EndsRight c (round_if es o t branch c is_cancelled st fault shared).0
  round-EndsRight none t branch c is_cancelled st fault shared same h =
      select-EndsRight t branch c is_cancelled st fault shared same
  round-EndsRight (some r) t branch c is_cancelled st fault shared same h = h

  round_at-EndsRight :
      (i : ℕ) (ts : List (Task W E)) (branch : Branch) (c : Bool) (is_cancelled : ℕ → Bool)
      (st : St) (fault : Fault) (shared : W × List ListenerRow)
      → All (EndsRight c) ts
      → All (EndsRight c) (round_at es i ts branch c is_cancelled st fault shared).0
  round_at-EndsRight i [] branch c is_cancelled st fault shared h = tt
  round_at-EndsRight zero (t ∷ ts) branch c is_cancelled st fault shared h =
      (round-EndsRight t.ended t branch c is_cancelled st fault shared refl h.0, h.1)
  round_at-EndsRight (suc i) (t ∷ ts) branch c is_cancelled st fault shared h =
      (h.0, round_at-EndsRight i ts branch c is_cancelled st fault shared h.1)

  wake_all-EndsRight :
      (event : String) (ts : List (Task W E)) (c : Bool)
      → All (EndsRight c) ts
      → All (EndsRight c) (wake_all event ts)
  unfolding wake_all
  wake_all-EndsRight event [] c h = tt
  wake_all-EndsRight event (t ∷ ts) c h =
      let same : EndsRight c (
          if t.executor.config.notifier_enabled
          then (if wake t.executor.event_handler.query event then record t { woken = true } else t)
          else t) =
        if_both (EndsRight c) t.executor.config.notifier_enabled
          (if_both (EndsRight c) (wake t.executor.event_handler.query event) h.0 h.0) h.0 in
      (same, wake_all-EndsRight event ts c h.1)

  cancel-EndsRight : (t : Task W E) (c : Bool) → EndsRight c t → EndsRight true t
  cancel-EndsRight t c (inl going) = inl going
  cancel-EndsRight t c (inr (inl h)) = inr (inl (h.0, refl))
  cancel-EndsRight t c (inr (inr h)) = inr (inr h)

  -- Whatever happens, a task of the listener has ended only because the shutdown was requested, because
  -- of a database error other than a broken connection or a timeout of the pool, or by a panic.
  pub run-EndsRight :
      (ss : List (Step St)) (p : Process W E)
      → All (EndsRight p.cancelled) p.tasks
      → let p' = run es ss p in All (EndsRight p'.cancelled) p'.tasks
  unfolding run step
  run-EndsRight [] p h = h
  run-EndsRight (Step.round_of i branch is_cancelled st fault ∷ ss) p h =
      run-EndsRight ss (step es (Step.round_of i branch is_cancelled st fault) p)
        (round_at-EndsRight i p.tasks branch p.cancelled is_cancelled st fault (p.world, p.rows) h)
  run-EndsRight (Step.notified event ∷ ss) p h =
      run-EndsRight ss (step es (Step.notified event) p)
        (wake_all-EndsRight event p.tasks p.cancelled h)
  run-EndsRight (Step.cancel ∷ ss) p h = run-EndsRight ss (step es Step.cancel p) (
      All-weaken (EndsRight p.cancelled) (EndsRight true) p.tasks
        (λ t e. cancel-EndsRight t p.cancelled e) h)
