-- ===== src/Tests/Projecting.antt =====
-- Runs of the read model of the courses.
use disintegrate.Prelude.{◌≡◌, ◌++◌, refl, true, none, some, List, [], ◌∷◌, arith, ◌>>=◌}
use disintegrate.Prelude.Int.{pos, negsuc, ◌-ℤ◌}
use disintegrate.Event.{PersistedEvent}
use disintegrate.Courses.{DomainEvent}
use disintegrate.Courses.ReadModel.{handle_all, update, insert, course_by_id}
use disintegrate.Courses.ReadModel.Redelivery.{handle_all-redelivered}

abbrev log : List (PersistedEvent DomainEvent)
log =
    record { id = 1; event = DomainEvent.course_created "c" "name" 2 }
    ∷ record { id = 4; event = DomainEvent.student_subscribed "s" "c" }
    ∷ []

abbrev later : List (PersistedEvent DomainEvent)
later = record { id = 5; event = DomainEvent.course_closed "c" } ∷ []

shown :
    (handle_all [] (log ++ later) >>= λ rows. course_by_id rows "c")
    ≡ some (record { course_id = "c"; name = "name"; available_seats = pos 1; closed = true })
unfolding update insert ◌-ℤ◌
shown = refl

-- The seats of a course are an `INT`: those of a `u32` that does not fit wrap around.
wrapped :
    (handle_all []
        (record { id = 1; event = DomainEvent.course_created "c" "name" 4294967295 } ∷ [])
      >>= λ rows. course_by_id rows "c" >>= λ row. some row.available_seats)
    ≡ some (negsuc 0)
unfolding insert
wrapped = refl

-- No room below the least `INT`.
out_of_range :
    handle_all [] (
      record { id = 1; event = DomainEvent.course_created "c" "name" 2147483648 }
      ∷ record { id = 2; event = DomainEvent.student_subscribed "s" "c" }
      ∷ [])
    ≡ none
unfolding update insert ◌-ℤ◌
out_of_range = refl

handle_all-redelivered_example :
    handle_all [] (log ++ (log ++ later)) ≡ handle_all [] (log ++ later)
handle_all-redelivered_example =
    handle_all-redelivered 0 log later [] (omega arith, (omega arith, tt))
