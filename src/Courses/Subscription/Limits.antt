-- ===== src/Courses/Subscription/Limits.antt =====
-- About the limits of examples/courses/src/domain/subscription.rs.
use disintegrate.Prelude.{
  ℕ, zero, suc, ◌+◌, ◌^◌, ◌≡◌, refl, ap, ◌<◌, ◌≤◌, true, false, some, List, [], ◌∷◌, ◌++◌, any,
  length, length-append, ltb, leb, eqb, ◌==◌, eq_refl, arith, ◌∙◌,
}
use disintegrate.Prelude.Result.{ok}
use disintegrate.Courses.{CourseId, StudentId, DomainEvent}
use disintegrate.Courses.Streams.{CourseSubscriptionEvent, StudentSubscriptionEvent}
use disintegrate.Courses.Subscription.{
  Course, Student, take_seat, mutate_course, mutate_student, remove_first, subscribe_student,
}

-- What an accepted subscription of a student to a course does to their states, and what a later
-- unsubscription does then.
pub record Fits (student_id : StudentId) (course_id : CourseId) (k : Course) (s : Student)
    (events : List DomainEvent) : Type 0 where
  pub event : events ≡ DomainEvent.student_subscribed student_id course_id ∷ []
  pub course_after : Course
  pub student_after : Student
  pub course_accepts :
      mutate_course k (CourseSubscriptionEvent.student_subscribed student_id course_id)
      ≡ some course_after
  pub student_accepts :
      mutate_student s (StudentSubscriptionEvent.student_subscribed student_id course_id)
      ≡ some student_after
  pub seat_taken : course_after.available_seats + 1 ≡ k.available_seats
  pub not_twice : any (λ c. c == course_id) s.subscribed_courses ≡ false
  pub few : length student_after.subscribed_courses ≤ 2
  pub course_back :
      mutate_course course_after (CourseSubscriptionEvent.student_unsubscribed student_id course_id)
      ≡ some k
  pub student_back :
      mutate_student student_after
        (StudentSubscriptionEvent.student_unsubscribed student_id course_id)
      ≡ some s

remove-append :
    (id : CourseId) (cs : List CourseId)
    → any (λ c. c == id) cs ≡ false
    → remove_first id (cs ++ id ∷ []) ≡ some cs
unfolding remove_first
remove-append id [] h = rw (eq_refl id) refl
remove-append id (c ∷ cs) h = ground (arith, remove-append id cs (ground arith))

-- What the checks of the decision say.
process_inv :
    (student_id : StudentId) (course_id : CourseId) (k : Course) (s : Student)
    (events : List DomainEvent)
    → (subscribe_student student_id course_id).process (k, s) ≡ ok events
    → (events ≡ DomainEvent.student_subscribed student_id course_id ∷ [])
      × (eqb k.available_seats 0 ≡ false)
      × (any (λ c. c == course_id) s.subscribed_courses ≡ false)
      × (leb 2 (length s.subscribed_courses) ≡ false)
unfolding subscribe_student
process_inv student_id course_id k s events h =
    (ground arith, ground arith, ground arith, ground arith)

taken :
    (k : Course) (n seats : ℕ)
    → seats ≡ n
    → eqb n 0 ≡ false
    → (k' : Course) × (take_seat k seats ≡ some k')
      × (k'.available_seats + 1 ≡ n)
      × (k' ≡ record k { available_seats = k'.available_seats })
taken k n zero same h = absurd (ground arith)
taken k n (suc seats) same h =
    (record k { available_seats = seats }, refl, omega (arith, same), refl)

course-back :
    (k k' : Course) (student_id : StudentId) (course_id : CourseId)
    → k.available_seats < 2 ^ 32
    → k'.available_seats + 1 ≡ k.available_seats
    → k' ≡ record k { available_seats = k'.available_seats }
    → mutate_course k' (CourseSubscriptionEvent.student_unsubscribed student_id course_id) ≡ some k
unfolding mutate_course
course-back k k' student_id course_id bound seats same =
    let fits : ltb (k'.available_seats + 1) (2 ^ 32) ≡ true = ground arith in
    rw fits (
      ap some (
        ap (λ (x : Course). record x { available_seats = k'.available_seats + 1 }) same
        ∙ ap (λ n. record k { available_seats = n }) seats))

-- An accepted subscription takes one of the seats that are left, gives the student a course that it
-- does not have yet and at most a second one, panics at neither state, and is undone by an
-- unsubscription, if the number of seats is a `u32`.
pub subscribe_student-Fits :
    (student_id : StudentId) (course_id : CourseId) (k : Course) (s : Student)
    (events : List DomainEvent)
    → k.available_seats < 2 ^ 32
    → (subscribe_student student_id course_id).process (k, s) ≡ ok events
    → Fits student_id course_id k s events
unfolding mutate_course mutate_student
subscribe_student-Fits student_id course_id k s events bound h =
    let (event, seats_left, new, few) = process_inv student_id course_id k s events h in
    let (k', takes, taken_one, alike) =
      taken k k.available_seats k.available_seats refl seats_left in
    record {
      event = event;
      course_after = k';
      student_after = record s { subscribed_courses = s.subscribed_courses ++ course_id ∷ [] };
      course_accepts = takes;
      student_accepts = refl;
      seat_taken = taken_one;
      not_twice = new;
      few =
          let grown = length-append s.subscribed_courses (course_id ∷ []) in
          let short : length s.subscribed_courses < 2 = ground arith in omega (arith, grown, short);
      course_back = course-back k k' student_id course_id bound taken_one alike;
      student_back = rw (remove-append course_id s.subscribed_courses new) refl;
    }
