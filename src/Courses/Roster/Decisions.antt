-- ===== src/Courses/Roster/Decisions.antt =====
-- About the decisions of examples/courses/src/domain after a log that the roster takes: what they
-- accept is what the roster allows.
use disintegrate.Prelude.{ℕ, String, ◌^◌, ◌≡◌, ◌<◌, List, [], ◌∷◌, arith}
use disintegrate.Prelude.Result.{ok}
use disintegrate.Courses.{CourseId, StudentId, DomainEvent}
use disintegrate.Courses.Streams.{courses_event}
use disintegrate.Courses.Administration
use disintegrate.Courses.Administration.{
  create_course, close_course, rename_course, register_student,
}
use disintegrate.Courses.Subscription
use disintegrate.Courses.Subscription.{
  course, student, unsubscription, Unsubscription, subscribe_student, unsubscribe_student,
}
use disintegrate.Courses.Roster.{empty, after_all, Legal}
use disintegrate.Courses.Roster.Counting.{any-courses_of}
use disintegrate.Courses.Roster.Agreement.{CourseAgrees, StudentAgrees}
use disintegrate.Courses.Roster.Runs.{LegalRun, LegalRun-IsSafe}
use disintegrate.Testing.Follow.{when-follow, when-follow_both}
use disintegrate.Courses.Roster.States.{
  on_listing, on_enrolment, on_seat, on_course, empty-IsSafe, follow-course, follow-student,
  follow-seat, follow-listing, follow-enrolment,
}

module _ (h : List DomainEvent) (run : LegalRun empty h) where
  -- The decisions, on the roster.
  abbrev pub IsOne : DomainEvent → List DomainEvent → Type 0
  IsOne e events = (events ≡ e ∷ []) × Legal (after_all empty h) e

  pub create-IsOne :
      (c : CourseId) (name : String) (seats : ℕ) (events : List DomainEvent)
      → seats < 2 ^ 32
      → on_listing h (create_course c name seats) ≡ ok events
      → IsOne (DomainEvent.course_created c name seats) events
  unfolding create_course
  create-IsOne c name seats events bound done =
      let (k, ran, agrees) = follow-listing h run c in
      let decided =
        when-follow Administration.course courses_event h (create_course c name seats) k ran in
      (ground arith, (ground arith, bound))

  pub close-IsOne :
      (c : CourseId) (events : List DomainEvent)
      → on_listing h (close_course c) ≡ ok events
      → IsOne (DomainEvent.course_closed c) events
  unfolding close_course
  close-IsOne c events done =
      let (k, ran, agrees) = follow-listing h run c in
      let decided = when-follow Administration.course courses_event h (close_course c) k ran in
      (ground arith, (ground arith, ground arith))

  pub rename-IsOne :
      (c : CourseId) (name : String) (events : List DomainEvent)
      → on_listing h (rename_course c name) ≡ ok events
      → IsOne (DomainEvent.course_renamed c name) events
  unfolding rename_course
  rename-IsOne c name events done =
      let (k, ran, agrees) = follow-listing h run c in
      let decided =
        when-follow Administration.course courses_event h (rename_course c name) k ran in
      (ground arith, ground arith)

  pub register-IsOne :
      (s : StudentId) (name : String) (events : List DomainEvent)
      → on_enrolment h (register_student s name) ≡ ok events
      → IsOne (DomainEvent.student_registered s name) events
  unfolding register_student
  register-IsOne s name events done =
      let (t, ran, agrees) = follow-enrolment h run s in
      let decided =
        when-follow Administration.student courses_event h (register_student s name) t ran in
      (ground arith, ground arith)

  subscribe-process :
      (s : StudentId) (c : CourseId)
      → (k : Subscription.Course) × (t : Subscription.Student) × (on_course h
            (subscribe_student s c)
          ≡ (subscribe_student s c).process (k, t))
        × CourseAgrees c (after_all empty h) k
        × StudentAgrees s (after_all empty h) t
  unfolding subscribe_student
  subscribe-process s c =
      let (k, ran, agrees) = follow-course h run c in
      let (t, ran', agrees') = follow-student h run s in
      (
        k,
        t,
        when-follow_both course student courses_event h (subscribe_student s c) k t ran ran',
        agrees,
        agrees',
      )

  pub subscribe-IsOne :
      (s : StudentId) (c : CourseId) (events : List DomainEvent)
      → on_course h (subscribe_student s c) ≡ ok events
      → IsOne (DomainEvent.student_subscribed s c) events
  unfolding subscribe_student
  subscribe-IsOne s c events done =
      let (k, t, decided, (id, sum, closed), (id', courses, registered)) = subscribe-process s c in
      let on_it = any-courses_of s c (after_all empty h).members in
      (ground arith, (ground arith, ground arith, ground arith, ground arith, ground arith))

  pub subscribe_of_Legal :
      (s : StudentId) (c : CourseId)
      → Legal (after_all empty h) (DomainEvent.student_subscribed s c)
      → on_course h (subscribe_student s c) ≡ ok (DomainEvent.student_subscribed s c ∷ [])
  unfolding subscribe_student
  subscribe_of_Legal s c (known, unlocked, room, new, few) =
      let (k, t, decided, (id, sum, closed), (id', courses, registered)) = subscribe-process s c in
      let on_it = any-courses_of s c (after_all empty h).members in ground arith

  pub unsubscribe-IsOne :
      (s : StudentId) (c : CourseId) (events : List DomainEvent)
      → on_seat h (unsubscribe_student s c) ≡ ok events
      → IsOne (DomainEvent.student_unsubscribed s c) events
  unfolding unsubscribe_student
  unsubscribe-IsOne s c events done =
      let (u, ran, agrees) = follow-seat h run s c in
      let decided = when-follow unsubscription courses_event h (unsubscribe_student s c) u ran in
      let once = (LegalRun-IsSafe empty h empty-IsSafe run).once s c in (ground arith, ground arith)

  pub unsubscribe_of_Legal :
      (s : StudentId) (c : CourseId)
      → Legal (after_all empty h) (DomainEvent.student_unsubscribed s c)
      → on_seat h (unsubscribe_student s c) ≡ ok (DomainEvent.student_unsubscribed s c ∷ [])
  unfolding unsubscribe_student
  unsubscribe_of_Legal s c on_it =
      let (u, ran, agrees) = follow-seat h run s c in
      let decided = when-follow unsubscription courses_event h (unsubscribe_student s c) u ran in
      ground arith
