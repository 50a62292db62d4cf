-- ===== src/Testing.antt =====
-- The test harness for decisions: disintegrate/src/testing.rs. A failed assertion is `false`.
pub mod Agreement
pub mod Follow
use disintegrate.Prelude.{ℕ, ◌+◌, Bool, false, List, [], ◌∷◌}
use disintegrate.Prelude.Result.{Result, ok, err, panicked, unwrap, ◌>>=◌}
use disintegrate.Event.{EventId, PersistedEvent}
use disintegrate.State.{MultiState, mutate_each}
use disintegrate.Decision.{Decision}

pub record Given (E : Type 0) : Type 0 where
  pub history : List E

pub record When (E X : Type 0) : Type 0 where
  pub history : List E
  pub result : Result (List E) X

-- `TestHarness::given`
abbrev pub given : {E : Type 0} → List E → Given E
given history = record { history = history }

-- `enumerate().map(|(id, event)| PersistedEvent::new((id + 1) as i64, ...))`, from an index on.
abbrev pub enumerate : {E : Type 0} → ℕ → List E → List (PersistedEvent E)
enumerate id [] = []
enumerate id (event ∷ events) = record { id = id + 1; event = event } ∷ enumerate (id + 1) events

-- `when`; a panic of the replay is one of the decision.
unfoldable pub when : {S M E X : Type 0} → MultiState S M E → Given E → Decision S E X → When E X
unfolding mutate_each
when ms step decision = record {
  history = step.history;
  result =
      unwrap (mutate_each ms (ms.into_state_part decision.state_query) (enumerate 0 step.history))
      >>= λ state. decision.process (ms.into_state state);
}

module _ {E X : Type 0} where
  abbrev changes_match : (List E → Bool) → Result (List E) X → Bool
  changes_match assertion (ok changes) = assertion changes
  changes_match assertion (err x) = false
  changes_match assertion panicked = false

  -- `then`, with the equality of changes.
  unfoldable pub then_changes : (List E → List E → Bool) → When E X → List E → Bool
  then_changes same step expected = changes_match (same expected) step.result

  -- `then_assert`
  unfoldable pub then_assert : When E X → (List E → Bool) → Bool
  then_assert step assertion = changes_match assertion step.result

  abbrev error_matches : (X → Bool) → Result (List E) X → Bool
  error_matches is_expected (err x) = is_expected x
  error_matches is_expected (ok changes) = false
  error_matches is_expected panicked = false

  -- `then_err`, with the equality of errors.
  unfoldable pub then_err : (X → X → Bool) → When E X → X → Bool
  then_err same step expected = error_matches (same expected) step.result
