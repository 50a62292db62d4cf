-- ===== src/Courses/Subscription.antt =====
-- Subscriptions: examples/courses/src/domain/subscription.rs and
-- examples/courses/src/domain/unsubscription.rs.
pub mod Limits
use disintegrate.Prelude.{
  ℕ, zero, suc, ◌+◌, ◌^◌, String, Bool, true, false, not, Option, none, some, List, [], ◌∷◌, ◌++◌,
  any, length, ltb, leb, eqb, ◌>>=◌, ◌==◌, if◌then◌else◌,
}
use disintegrate.Prelude.Result.{Result, ok, err}
use disintegrate.Stream.Filter
use disintegrate.Stream.Query
use disintegrate.State.{StateMutate}
use disintegrate.Decision.{Decision}
use disintegrate.Courses.{CourseId, StudentId, DomainEvent}
use disintegrate.Courses.Streams.{
  CourseSubscriptionEvent, StudentSubscriptionEvent, UnsubscriptionEvent, into_course_subscription,
  into_student_subscription, into_unsubscription, course_subscription_schema,
  student_subscription_schema, unsubscription_schema, course_set, student_set, both_set,
}

pub data SubscriptionError : Type 0 where
  no_seats_available course_closed student_not_registered student_already_subscribed :
      SubscriptionError
  student_has_too_many_courses : SubscriptionError

pub record Course : Type 0 where
  pub course_id : CourseId
  pub available_seats : ℕ
  pub closed : Bool

abbrev pub new_course : CourseId → Course
new_course id = record { course_id = id; available_seats = 0; closed = false }

-- `available_seats -= 1`
abbrev pub take_seat : Course → ℕ → Option Course
take_seat s zero = none
take_seat s (suc seats) = some (record s { available_seats = seats })

unfoldable pub mutate_course : Course → CourseSubscriptionEvent → Option Course
mutate_course s (CourseSubscriptionEvent.course_created id name seats) =
    some (record s { available_seats = seats })
mutate_course s (CourseSubscriptionEvent.course_closed id) = some (record s { closed = true })
mutate_course s (CourseSubscriptionEvent.student_subscribed student id) =
    take_seat s s.available_seats
mutate_course s (CourseSubscriptionEvent.student_unsubscribed student id) =
    if ltb (s.available_seats + 1) (2 ^ 32)
    then some (record s { available_seats = s.available_seats + 1 })
    else none

abbrev pub course : StateMutate Course CourseSubscriptionEvent DomainEvent
course = record {
  name = "Course";
  query = λ s.
      Query.query course_subscription_schema
        (some (Filter.new course_subscription_schema (course_set s.course_id)));
  try_into = into_course_subscription;
  mutate = mutate_course;
}

pub record Student : Type 0 where
  pub student_id : StudentId
  pub subscribed_courses : List CourseId
  pub registered : Bool

abbrev pub new_student : StudentId → Student
new_student id = record { student_id = id; subscribed_courses = []; registered = false }

-- `remove(position(...).unwrap())`
unfoldable pub remove_first : CourseId → List CourseId → Option (List CourseId)
remove_first id [] = none
remove_first id (c ∷ cs) =
    let rest = remove_first id cs in if c == id then some cs else (rest >>= λ cs'. some (c ∷ cs'))

unfoldable pub mutate_student : Student → StudentSubscriptionEvent → Option Student
unfolding remove_first
mutate_student s (StudentSubscriptionEvent.student_subscribed id course_id) =
    some (record s { subscribed_courses = s.subscribed_courses ++ course_id ∷ [] })
mutate_student s (StudentSubscriptionEvent.student_unsubscribed id course_id) = do
  courses ← remove_first course_id s.subscribed_courses
  some (record s { subscribed_courses = courses })
mutate_student s (StudentSubscriptionEvent.student_registered id name) =
    some (record s { registered = true })

abbrev pub student : StateMutate Student StudentSubscriptionEvent DomainEvent
student = record {
  name = "Student";
  query = λ s.
      Query.query student_subscription_schema
        (some (Filter.new student_subscription_schema (student_set s.student_id)));
  try_into = into_student_subscription;
  mutate = mutate_student;
}

-- `SubscribeStudent`
unfoldable pub subscribe_student :
    StudentId → CourseId → Decision (Course × Student) DomainEvent SubscriptionError
subscribe_student student_id course_id = record {
  state_query = (new_course course_id, new_student student_id);
  validation_query = none;
  process = λ states.
      if not states.1.registered
      then err SubscriptionError.student_not_registered
      else if states.0.closed
      then err SubscriptionError.course_closed
      else if eqb states.0.available_seats 0
      then err SubscriptionError.no_seats_available
      else if any (λ c. c == course_id) states.1.subscribed_courses
      then err SubscriptionError.student_already_subscribed
      else if leb 2 (length states.1.subscribed_courses)
      then err SubscriptionError.student_has_too_many_courses
      else ok (DomainEvent.student_subscribed student_id course_id ∷ []);
}

pub data UnsubscriptionError : Type 0 where
  student_not_subscribed : UnsubscriptionError

pub record Unsubscription : Type 0 where
  pub course_id : CourseId
  pub student_id : StudentId
  pub student_subscribed : Bool

abbrev pub new_unsubscription : StudentId → CourseId → Unsubscription
new_unsubscription s c = record { course_id = c; student_id = s; student_subscribed = false }

unfoldable pub mutate_unsubscription : Unsubscription → UnsubscriptionEvent → Unsubscription
mutate_unsubscription u (UnsubscriptionEvent.student_subscribed s c) = record u {
  student_subscribed = true;
}
mutate_unsubscription u (UnsubscriptionEvent.student_unsubscribed s c) = record u {
  student_subscribed = false;
}

abbrev pub unsubscription : StateMutate Unsubscription UnsubscriptionEvent DomainEvent
unsubscription = record {
  name = "Unsubscription";
  query = λ u.
      Query.query unsubscription_schema
        (some (Filter.new unsubscription_schema (both_set u.student_id u.course_id)));
  try_into = into_unsubscription;
  mutate = λ u e. some (mutate_unsubscription u e);
}

-- `UnsubscribeStudent`
unfoldable pub unsubscribe_student :
    StudentId → CourseId → Decision Unsubscription DomainEvent UnsubscriptionError
unsubscribe_student student_id course_id = record {
  state_query = new_unsubscription student_id course_id;
  validation_query = none;
  process = λ u.
      if not u.student_subscribed
      then err UnsubscriptionError.student_not_subscribed
      else ok (DomainEvent.student_unsubscribed student_id course_id ∷ []);
}
