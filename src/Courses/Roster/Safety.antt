-- ===== src/Courses/Roster/Safety.antt =====
-- About logs that the decisions of examples/courses/src/domain alone have written.
use disintegrate.Prelude.{ℕ, String, ◌^◌, ◌≡◌, ◌↔◌, ◌<◌, some, List, [], ◌∷◌, ◌++◌}
use disintegrate.Prelude.Result.{ok}
use disintegrate.Courses.{CourseId, StudentId, DomainEvent}
use disintegrate.Courses.Streams.{courses_event}
use disintegrate.Courses.Administration.{
  create_course, close_course, rename_course, register_student,
}
use disintegrate.Courses.Subscription
use disintegrate.Courses.Subscription.{
  course, student, unsubscription, Unsubscription, subscribe_student, unsubscribe_student,
}
use disintegrate.Courses.Roster.{empty, after_all, Legal, IsSafe}
use disintegrate.Courses.Roster.Agreement.{CourseAgrees, StudentAgrees, SeatAgrees}
use disintegrate.Courses.Roster.Runs.{LegalRun, LegalRun-append, LegalRun-IsSafe}
use disintegrate.Testing.Follow.{follow}
use disintegrate.Courses.Roster.States.{
  on_listing, on_enrolment, on_seat, on_course, empty-IsSafe, follow-course, follow-student,
  follow-seat,
}
use disintegrate.Courses.Roster.Decisions.{
  IsOne, create-IsOne, close-IsOne, rename-IsOne, register-IsOne, subscribe-IsOne,
  unsubscribe-IsOne, subscribe_of_Legal, unsubscribe_of_Legal,
}

-- The logs that accepted decisions write, each on the log before it. The seats are a `u32`.
pub data Accepted : List DomainEvent → Type 0 where
  nothing : Accepted []
  creates :
      (h events : List DomainEvent) (c : CourseId) (name : String) (seats : ℕ)
      → seats < 2 ^ 32
      → Accepted h
      → on_listing h (create_course c name seats) ≡ ok events
      → Accepted (h ++ events)
  closes :
      (h events : List DomainEvent) (c : CourseId)
      → Accepted h
      → on_listing h (close_course c) ≡ ok events
      → Accepted (h ++ events)
  renames :
      (h events : List DomainEvent) (c : CourseId) (name : String)
      → Accepted h
      → on_listing h (rename_course c name) ≡ ok events
      → Accepted (h ++ events)
  registers :
      (h events : List DomainEvent) (s : StudentId) (name : String)
      → Accepted h
      → on_enrolment h (register_student s name) ≡ ok events
      → Accepted (h ++ events)
  subscribes :
      (h events : List DomainEvent) (s : StudentId) (c : CourseId)
      → Accepted h
      → on_course h (subscribe_student s c) ≡ ok events
      → Accepted (h ++ events)
  unsubscribes :
      (h events : List DomainEvent) (s : StudentId) (c : CourseId)
      → Accepted h
      → on_seat h (unsubscribe_student s c) ≡ ok events
      → Accepted (h ++ events)

-- One more event, which the roster allows.
extend :
    (h events : List DomainEvent) (run : LegalRun empty h) (e : DomainEvent)
    → IsOne h run e events
    → LegalRun empty (h ++ events)
extend h events run e (one, legal) = rw one (LegalRun-append empty h e run legal)

-- Every log that accepted decisions alone have written is a run of the roster, each event allowed
-- where it stands: on a course that exists, that has a free seat and is open, for a student who is
-- registered and has fewer than two courses, and so on.
pub Accepted-LegalRun : (h : List DomainEvent) → Accepted h → LegalRun empty h
Accepted-LegalRun _ nothing = tt
Accepted-LegalRun _ (creates h events c name seats bound before done) =
    let run = Accepted-LegalRun h before in
    extend h events run (DomainEvent.course_created c name seats)
      (create-IsOne h run c name seats events bound done)
Accepted-LegalRun _ (closes h events c before done) =
    let run = Accepted-LegalRun h before in
    extend h events run (DomainEvent.course_closed c) (close-IsOne h run c events done)
Accepted-LegalRun _ (renames h events c name before done) =
    let run = Accepted-LegalRun h before in
    extend h events run (DomainEvent.course_renamed c name) (rename-IsOne h run c name events done)
Accepted-LegalRun _ (registers h events s name before done) =
    let run = Accepted-LegalRun h before in
    extend h events run (DomainEvent.student_registered s name)
      (register-IsOne h run s name events done)
Accepted-LegalRun _ (subscribes h events s c before done) =
    let run = Accepted-LegalRun h before in
    extend h events run (DomainEvent.student_subscribed s c) (subscribe-IsOne h run s c events done)
Accepted-LegalRun _ (unsubscribes h events s c before done) =
    let run = Accepted-LegalRun h before in
    extend h events run (DomainEvent.student_unsubscribed s c)
      (unsubscribe-IsOne h run s c events done)

-- After any log that accepted decisions alone have written no course has more members than seats, no
-- student is twice on a course or on more than two, and a course that was not created has no seats.
pub Accepted-IsSafe : (h : List DomainEvent) → Accepted h → IsSafe (after_all empty h)
Accepted-IsSafe h a = LegalRun-IsSafe empty h empty-IsSafe (Accepted-LegalRun h a)

-- After any log that accepted decisions alone have written, the replays of the states that
-- subscriptions are decided on do not panic; the free seats of a course and its members make up its
-- seats; a student has the courses that it is a member of, in their order; and a student counts as
-- subscribed exactly when it is on the course.
pub Accepted-agrees :
    (h : List DomainEvent) (s : StudentId) (c : CourseId)
    → Accepted h
    → let r = after_all empty h in
      ((k : Subscription.Course) × (follow course courses_event (Subscription.new_course c) h
          ≡ some k)
        × CourseAgrees c r k)
      × ((t : Subscription.Student) × (follow student courses_event (Subscription.new_student s) h
            ≡ some t)
          × StudentAgrees s r t)
      × ((u : Unsubscription) × (follow unsubscription courses_event
              (Subscription.new_unsubscription s c)
              h
            ≡ some u)
          × SeatAgrees s c r u)
Accepted-agrees h s c a =
    let run = Accepted-LegalRun h a in
    (follow-course h run c, follow-student h run s, follow-seat h run s c)

-- After any log that accepted decisions alone have written, a subscription is accepted exactly when
-- the roster allows it, and so is an unsubscription: no student is refused a seat without a reason.
pub Accepted-accepts :
    (h : List DomainEvent) (s : StudentId) (c : CourseId)
    → Accepted h
    → let r = after_all empty h in
      let subscribed = DomainEvent.student_subscribed s c in
      let unsubscribed = DomainEvent.student_unsubscribed s c in
      ((on_course h (subscribe_student s c) ≡ ok (subscribed ∷ [])) ↔ Legal r subscribed)
      × ((on_seat h (unsubscribe_student s c) ≡ ok (unsubscribed ∷ [])) ↔ Legal r unsubscribed)
Accepted-accepts h s c a =
    let run = Accepted-LegalRun h a in
    (
      (λ done. (subscribe-IsOne h run s c _ done).1, subscribe_of_Legal h run s c),
      (λ done. (unsubscribe-IsOne h run s c _ done).1, unsubscribe_of_Legal h run s c),
    )
