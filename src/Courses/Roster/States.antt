-- ===== src/Courses/Roster/States.antt =====
-- What the states of examples/courses/src/domain show after a log that the roster takes, and how the
-- decisions on them are run.
use disintegrate.Prelude.{◌≡◌, refl, some, List, arith}
use disintegrate.Prelude.Result.{Result}
use disintegrate.State.{single, pair}
use disintegrate.Decision.{Decision}
use disintegrate.Courses.{CourseId, StudentId, DomainEvent}
use disintegrate.Courses.Streams.{courses_event}
use disintegrate.Courses.Administration
use disintegrate.Courses.Administration.{
  create_course, close_course, rename_course, register_student,
}
use disintegrate.Courses.Subscription
use disintegrate.Courses.Subscription.{
  course, student, unsubscription, Unsubscription, subscribe_student, unsubscribe_student,
}
use disintegrate.Courses.Roster.{empty, after_all, IsSafe}
use disintegrate.Courses.Roster.Takes.{
  course_step, student_step, unsubscription_step, listing_step, enrolment_step, take-course,
  take-student, take-unsubscription, take-listing, take-enrolment,
}
use disintegrate.Courses.Roster.Agreement.{
  CourseAgrees, StudentAgrees, SeatAgrees, ListingAgrees, EnrolmentAgrees, course-Keeps,
  student-Keeps, seat-Keeps, listing-Keeps, enrolment-Keeps,
}
use disintegrate.Courses.Roster.Runs.{LegalRun, follow-agrees}
use disintegrate.Testing.{given, when}
use disintegrate.Testing.Follow.{follow}

abbrev pub on_listing :
    {X : Type 0}
    → List DomainEvent
    → Decision Administration.Course DomainEvent X
    → Result (List DomainEvent) X
on_listing h d = (when (single Administration.course courses_event) (given h) d).result

abbrev pub on_enrolment :
    {X : Type 0}
    → List DomainEvent
    → Decision Administration.Student DomainEvent X
    → Result (List DomainEvent) X
on_enrolment h d = (when (single Administration.student courses_event) (given h) d).result

abbrev pub on_seat :
    {X : Type 0}
    → List DomainEvent
    → Decision Unsubscription DomainEvent X
    → Result (List DomainEvent) X
on_seat h d = (when (single unsubscription courses_event) (given h) d).result

abbrev pub on_course :
    {X : Type 0}
    → List DomainEvent
    → Decision (Subscription.Course × Subscription.Student) DomainEvent X
    → Result (List DomainEvent) X
on_course h d = (when (pair (single course courses_event) student courses_event) (given h) d).result

pub empty-IsSafe : IsSafe empty
empty-IsSafe = record {
  seated = λ c. omega arith;
  fits = λ c. omega arith;
  opened = λ c h. refl;
  once = λ s c. omega arith;
  few = λ s. omega arith;
}

-- What the states show after a log that the roster takes.
module _ (h : List DomainEvent) (run : LegalRun empty h) where
  pub follow-course :
      (c : CourseId)
      → (k : Subscription.Course) × (follow course courses_event (Subscription.new_course c) h
          ≡ some k)
        × CourseAgrees c (after_all empty h) k
  follow-course c =
      follow-agrees course (CourseAgrees c) course_step take-course (course-Keeps c) empty
        (Subscription.new_course c) h empty-IsSafe run (refl, refl, refl)

  pub follow-student :
      (s : StudentId)
      → (t : Subscription.Student) × (follow student courses_event (Subscription.new_student s) h
          ≡ some t)
        × StudentAgrees s (after_all empty h) t
  follow-student s =
      follow-agrees student (StudentAgrees s) student_step take-student (student-Keeps s) empty
        (Subscription.new_student s) h empty-IsSafe run (refl, refl, refl)

  pub follow-seat :
      (s : StudentId) (c : CourseId)
      → (u : Unsubscription) × (follow unsubscription courses_event
            (Subscription.new_unsubscription s c)
            h
          ≡ some u)
        × SeatAgrees s c (after_all empty h) u
  follow-seat s c =
      follow-agrees unsubscription (SeatAgrees s c) unsubscription_step take-unsubscription
        (seat-Keeps s c) empty (Subscription.new_unsubscription s c) h empty-IsSafe run
        (refl, refl, refl)

  pub follow-listing :
      (c : CourseId)
      → (k : Administration.Course) × (follow Administration.course courses_event
            (Administration.new_course c)
            h
          ≡ some k)
        × ListingAgrees c (after_all empty h) k
  follow-listing c =
      follow-agrees Administration.course (ListingAgrees c) listing_step take-listing
        (listing-Keeps c) empty (Administration.new_course c) h empty-IsSafe run (refl, refl, refl)

  pub follow-enrolment :
      (s : StudentId)
      → (t : Administration.Student) × (follow Administration.student courses_event
            (Administration.new_student s)
            h
          ≡ some t)
        × EnrolmentAgrees s (after_all empty h) t
  follow-enrolment s =
      follow-agrees Administration.student (EnrolmentAgrees s) enrolment_step take-enrolment
        (enrolment-Keeps s) empty (Administration.new_student s) h empty-IsSafe run (refl, refl)
