-- ===== src/Tests/Courses.antt =====
-- The unit tests of examples/courses/src/domain/subscription.rs, and the limits of subscriptions.
use disintegrate.Prelude.{◌≡◌, ◌↔◌, some, refl, true, false, List, [], ◌∷◌, arith}
use disintegrate.Prelude.Result.{Result, ok, err}
use disintegrate.Identifier
use disintegrate.Stream.Filter
use disintegrate.Stream.Query
use disintegrate.State.{
  StatePart, MultiState, single, pair, mutate_each, mutate_matching, matches_event, mutate_part,
  query_part, new,
}
use disintegrate.Courses.{CourseId, DomainEvent}
use disintegrate.Courses.Streams.{courses_event}
use disintegrate.Courses.Subscription.{
  Course, Student, SubscriptionError, course, student, mutate_course, mutate_student,
  subscribe_student, unsubscribe_student, new_course, new_student, new_unsubscription,
  Unsubscription, unsubscription,
}
use disintegrate.Courses.Administration
use disintegrate.Courses.Administration.{create_course, register_student}
use disintegrate.Courses.Roster.{IsSafe, Legal, empty, after_all}
use disintegrate.Courses.Roster.Agreement.{CourseAgrees, StudentAgrees, SeatAgrees}
use disintegrate.Courses.Roster.Runs.{LegalRun}
use disintegrate.Courses.Roster.States.{on_course, on_seat}
use disintegrate.Courses.Roster.Safety.{
  Accepted, Accepted-LegalRun, Accepted-IsSafe, Accepted-agrees, Accepted-accepts,
}
use disintegrate.Testing.Follow.{follow}
use disintegrate.Testing.{given, when}
use disintegrate.Event.{PersistedEvent}
use disintegrate.Courses.ReadModel
use disintegrate.Courses.ReadModel.Shown.{CourseShows, events_of, Accepted-shown}

abbrev states : MultiState (Course × Student) (StatePart Course × StatePart Student) DomainEvent
states = pair (single course courses_event) student courses_event

abbrev subscribe_after : List DomainEvent → Result (List DomainEvent) SubscriptionError
subscribe_after history =
    (when states (given history) (subscribe_student "some student" "some course")).result

abbrev created : DomainEvent
created = DomainEvent.course_created "some course" "some name" 1

abbrev registered : DomainEvent
registered = DomainEvent.student_registered "some student" "some name"

subscribes_a_student :
    subscribe_after (created ∷ registered ∷ [])
    ≡ ok (DomainEvent.student_subscribed "some student" "some course" ∷ [])
unfolding when mutate_each single pair mutate_matching matches_event mutate_part query_part new
    Query.matches Query.change_origin Query.query Query.cast Filter.matches Filter.change_origin
    Filter.cast Filter.new Identifier.get mutate_course mutate_student subscribe_student
subscribes_a_student = refl

full_course :
    subscribe_after
      (created ∷ registered ∷ DomainEvent.student_subscribed "another student" "some course" ∷ [])
    ≡ err SubscriptionError.no_seats_available
unfolding when mutate_each single pair mutate_matching matches_event mutate_part query_part new
    Query.matches Query.change_origin Query.query Query.cast Filter.matches Filter.change_origin
    Filter.cast Filter.new Identifier.get mutate_course mutate_student subscribe_student
full_course = refl

attends_two_courses :
    subscribe_after (
      created
      ∷ registered
      ∷ DomainEvent.student_subscribed "some student" "another course"
      ∷ DomainEvent.student_subscribed "some student" "yet another course"
      ∷ [])
    ≡ err SubscriptionError.student_has_too_many_courses
unfolding when mutate_each single pair mutate_matching matches_event mutate_part query_part new
    Query.matches Query.change_origin Query.query Query.cast Filter.matches Filter.change_origin
    Filter.cast Filter.new Identifier.get mutate_course mutate_student subscribe_student
attends_two_courses = refl

abbrev one_left : Course
one_left = record { course_id = "some course"; available_seats = 1; closed = false }

abbrev busy : Student
busy = record {
  student_id = "some student";
  subscribed_courses = "another course" ∷ [];
  registered = true;
}

abbrev subscribed : DomainEvent
subscribed = DomainEvent.student_subscribed "some student" "some course"

abbrev unsubscribed : DomainEvent
unsubscribed = DomainEvent.student_unsubscribed "some student" "some course"

abbrev log : List DomainEvent
log = created ∷ registered ∷ subscribed ∷ []

log-Accepted : Accepted log
unfolding when mutate_each single pair mutate_matching matches_event mutate_part query_part new
    Query.matches Query.change_origin Query.query Query.cast Filter.matches Filter.change_origin
    Filter.cast Filter.new Identifier.get mutate_course mutate_student subscribe_student
    Administration.mutate_course Administration.mutate_student create_course register_student
log-Accepted =
    let first : Accepted (created ∷ []) =
      Accepted.creates [] (created ∷ []) "some course" "some name" 1 (omega arith) Accepted.nothing
        refl in
    let second : Accepted (created ∷ registered ∷ []) =
      Accepted.registers (created ∷ []) (registered ∷ []) "some student" "some name" first refl in
    Accepted.subscribes (created ∷ registered ∷ []) (subscribed ∷ []) "some student" "some course"
      second refl

Accepted-LegalRun_example : LegalRun empty log
Accepted-LegalRun_example = Accepted-LegalRun log log-Accepted

Accepted-IsSafe_example : IsSafe (after_all empty log)
Accepted-IsSafe_example = Accepted-IsSafe log log-Accepted

Accepted-agrees_example :
    ((k : Course) × (follow course courses_event (new_course "some course") log ≡ some k)
      × CourseAgrees "some course" (after_all empty log) k)
    × ((t : Student) × (follow student courses_event (new_student "some student") log ≡ some t)
        × StudentAgrees "some student" (after_all empty log) t)
    × ((u : Unsubscription) × (follow unsubscription courses_event
            (new_unsubscription "some student" "some course")
            log
          ≡ some u)
        × SeatAgrees "some student" "some course" (after_all empty log) u)
Accepted-agrees_example = Accepted-agrees log "some student" "some course" log-Accepted

Accepted-accepts_example :
    ((on_course log (subscribe_student "some student" "some course") ≡ ok (subscribed ∷ []))
      ↔ Legal (after_all empty log) subscribed)
    × ((on_seat log (unsubscribe_student "some student" "some course") ≡ ok (unsubscribed ∷ []))
        ↔ Legal (after_all empty log) unsubscribed)
Accepted-accepts_example = Accepted-accepts log "some student" "some course" log-Accepted

abbrev persisted : List (PersistedEvent DomainEvent)
persisted =
    record { id = 3; event = created }
    ∷ record { id = 4; event = registered }
    ∷ record { id = 7; event = subscribed }
    ∷ []

Accepted-shown_example :
    (rows : ReadModel.Rows) × (ReadModel.handle_all [] persisted ≡ some rows)
    × ((c : CourseId)
        → CourseShows (after_all empty (events_of persisted)) c (ReadModel.course_by_id rows c))
Accepted-shown_example =
    Accepted-shown persisted log-Accepted (omega arith, (omega arith, (omega arith, tt)))
      (omega arith, (tt, (tt, tt)))
