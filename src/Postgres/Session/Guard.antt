-- ===== src/Postgres/Session/Guard.antt =====
-- About the check of `append` in disintegrate-postgres/src/event_store.rs, and the rows that it leaves.
use disintegrate.Prelude.{
  ℕ, zero, suc, ◌<◌, ◌≡◌, Bool, true, false, not, ◌&&◌, ◌||◌, List, [], ◌∷◌, ltb, eqb, All,
  All-append, arith, Bool-cases, Option-cases, inl, inr, if◌then◌else◌,
}
use disintegrate.Event.{EventId, Event}
use disintegrate.Postgres.Criteria.{Group}
use disintegrate.Postgres.Criteria.Rows.{holds}
use disintegrate.Postgres.Append.{
  SequenceRow, Database, has_id, is_true, is_updated, consume, update_rows, stage, ids_of, last_id,
}
use disintegrate.Postgres.Append.Rows.{IsSound, update_rows-All}
use disintegrate.Postgres.Session.{
  Client, ready, staging, updated, inserted, batching, World, Action, begin, stages, updates,
  inserts, commits, begin_batch, stages_batch, commits_batch, quits, is_checked, effect, step_at,
  step, run,
}

-- The action commits events without a check.
abbrev pub is_unchecked : {E : Type 0} → Action E → Bool
is_unchecked commits_batch = true
is_unchecked _ = false

module _ (ids : List EventId) (last : EventId) (gs : List Group) where
  -- The row is no conflict with an append that has the ids and the criteria, and never will be one: it
  -- is the append's own, or later, or not selected, or lost.
  abbrev pub is_safe : SequenceRow → Bool
  is_safe r =
      has_id ids r.row.event_id
      || (ltb last r.row.event_id
          || (not (is_true (holds r.row gs)) || (eqb r.consumed 1 && not r.committed)))

  pub update_safe :
      (r : SequenceRow)
      → IsSound r
      → (is_updated ids last gs r ≡ true → r.consumed ≡ 0)
      → is_safe (if is_updated ids last gs r then consume ids last gs r else r) ≡ true
  update_safe r s fresh = elim (Bool-cases (is_updated ids last gs r)) [
    | inl y ↦ let unspent = fresh y in rw y (ground arith)
    | inr n ↦ rw n (let checked = s.checked in ground arith)
  ]

  module _ {E : Type 0} (ev : Event E) where
    pub record IsGuarded (db : Database E) : Type 0 where
      pub ahead : last < db.next_id
      pub rows : All (λ r. is_safe r ≡ true) db.event_sequence

    effect-IsGuarded :
        (a : Action E) (db : Database E) (c : Client E)
        → is_unchecked a ≡ false
        → IsGuarded db
        → IsGuarded (effect ev a db c).0
    unfolding effect stage
    effect-IsGuarded (stages event) db (staging epoch es) checked g = record {
      ahead = omega (arith, g.ahead);
      rows = All-append _ db.event_sequence _ g.rows (let lt = g.ahead in ground arith, tt);
    }
    effect-IsGuarded (stages_batch event) db (batching epoch es) checked g = record {
      ahead = omega (arith, g.ahead);
      rows = All-append _ db.event_sequence _ g.rows (let lt = g.ahead in ground arith, tt);
    }
    effect-IsGuarded (updates gs') db (staging epoch es) checked g =
        elim (Bool-cases (is_checked ev gs' es)) [
          | inr n ↦ rw n g
          | inl y ↦
              elim (Option-cases (update_rows (ids_of es) (last_id 0 es) gs' db.event_sequence)) [
                | inl fails ↦ rw (y, fails) g
                | inr (rows, passes) ↦
                    rw (y, passes)
                      (record {
                        ahead = g.ahead;
                        rows =
                            update_rows-All (ids_of es) (last_id 0 es) gs' (λ r. is_safe r ≡ true)
                              (λ r fresh p. ground arith) db.event_sequence rows g.rows passes;
                      })
              ]
        ]
    effect-IsGuarded inserts db (updated epoch es) checked g = record {
      ahead = g.ahead;
      rows = g.rows;
    }
    effect-IsGuarded begin db ready checked g = g
    effect-IsGuarded begin_batch db ready checked g = g
    effect-IsGuarded commits db (inserted epoch) checked g = g
    effect-IsGuarded quits db (staging epoch es) checked g = g
    effect-IsGuarded quits db (batching epoch es) checked g = g
    effect-IsGuarded commits_batch db c checked g = absurd (cc checked)
    effect-IsGuarded _ db c checked g = g

    step_at-IsGuarded :
        (i : ℕ) (a : Action E) (db : Database E) (cs : List (Client E))
        → is_unchecked a ≡ false
        → IsGuarded db
        → IsGuarded (step_at ev i a db cs).0
    unfolding step_at
    step_at-IsGuarded i a db [] checked g = g
    step_at-IsGuarded zero a db (c ∷ cs) checked g = effect-IsGuarded a db c checked g
    step_at-IsGuarded (suc i) a db (c ∷ cs) checked g = step_at-IsGuarded i a db cs checked g

    pub run-IsGuarded :
        (w : World E) (actions : List (ℕ × Action E))
        → All (λ a. is_unchecked a.1 ≡ false) actions
        → IsGuarded w.db
        → IsGuarded (run ev w actions).db
    unfolding run step
    run-IsGuarded w [] checked g = g
    run-IsGuarded w ((i, a) ∷ actions) checked g =
        run-IsGuarded (step ev w (i, a)) actions checked.1
          (step_at-IsGuarded i a w.db w.clients checked.0 g)
