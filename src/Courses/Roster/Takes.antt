-- ===== src/Courses/Roster/Takes.antt =====
-- What one event of the log does to the states of examples/courses/src/domain that see it.
use disintegrate.Prelude.{
  ◌+◌, ◌≡◌, true, false, ◌&&◌, Option, none, some, [], ◌∷◌, ◌++◌, ◌==◌, ◌>>=◌, ltb, ◌^◌,
  if◌then◌else◌, arith,
}
use disintegrate.Identifier
use disintegrate.Stream.Filter
use disintegrate.Stream.Query
use disintegrate.Courses.{DomainEvent}
use disintegrate.Courses.Streams.{courses_event}
use disintegrate.Courses.Subscription
use disintegrate.Courses.Subscription.{
  take_seat, remove_first, mutate_course, mutate_student, mutate_unsubscription, course, student,
  unsubscription, Unsubscription,
}
use disintegrate.Courses.Administration
use disintegrate.Testing.Follow.{take}

abbrev pub course_step : Subscription.Course → DomainEvent → Option Subscription.Course
course_step k (DomainEvent.course_created c name seats) =
    if c == k.course_id then some (record k { available_seats = seats }) else some k
course_step k (DomainEvent.course_closed c) =
    if c == k.course_id then some (record k { closed = true }) else some k
course_step k (DomainEvent.student_subscribed s c) =
    if c == k.course_id then take_seat k k.available_seats else some k
course_step k (DomainEvent.student_unsubscribed s c) =
    if c == k.course_id
    then (if ltb (k.available_seats + 1) (2 ^ 32)
        then some (record k { available_seats = k.available_seats + 1 })
        else none)
    else some k
course_step k (DomainEvent.course_renamed c name) = some k
course_step k (DomainEvent.student_registered s name) = some k

pub take-course :
    (k : Subscription.Course) (e : DomainEvent) → take course courses_event k e ≡ course_step k e
unfolding mutate_course Query.matches Query.change_origin Query.query Query.cast Filter.matches
    Filter.change_origin Filter.cast Filter.new Identifier.get
take-course k (DomainEvent.course_created c name seats) = ground arith
take-course k (DomainEvent.course_closed c) = ground arith
take-course k (DomainEvent.course_renamed c name) = ground arith
take-course k (DomainEvent.student_registered s name) = ground arith
take-course k (DomainEvent.student_subscribed s c) = ground arith
take-course k (DomainEvent.student_unsubscribed s c) = ground arith

abbrev pub student_step : Subscription.Student → DomainEvent → Option Subscription.Student
student_step t (DomainEvent.student_subscribed s c) =
    if s == t.student_id
    then some (record t { subscribed_courses = t.subscribed_courses ++ c ∷ [] })
    else some t
student_step t (DomainEvent.student_unsubscribed s c) =
    if s == t.student_id
    then (remove_first c t.subscribed_courses >>= λ cs. some (record t { subscribed_courses = cs }))
    else some t
student_step t (DomainEvent.student_registered s name) =
    if s == t.student_id then some (record t { registered = true }) else some t
student_step t (DomainEvent.course_created c name seats) = some t
student_step t (DomainEvent.course_closed c) = some t
student_step t (DomainEvent.course_renamed c name) = some t

pub take-student :
    (t : Subscription.Student) (e : DomainEvent) → take student courses_event t e ≡ student_step t e
unfolding mutate_student Query.matches Query.change_origin Query.query Query.cast Filter.matches
    Filter.change_origin Filter.cast Filter.new Identifier.get
take-student t (DomainEvent.course_created c name seats) = ground arith
take-student t (DomainEvent.course_closed c) = ground arith
take-student t (DomainEvent.course_renamed c name) = ground arith
take-student t (DomainEvent.student_registered s name) = ground arith
take-student t (DomainEvent.student_subscribed s c) = ground arith
take-student t (DomainEvent.student_unsubscribed s c) = ground arith

-- Only the subscriptions of the student to the course are seen.
abbrev pub unsubscription_step : Unsubscription → DomainEvent → Option Unsubscription
unsubscription_step u (DomainEvent.student_subscribed s c) =
    if s == u.student_id && c == u.course_id
    then some (record u { student_subscribed = true })
    else some u
unsubscription_step u (DomainEvent.student_unsubscribed s c) =
    if s == u.student_id && c == u.course_id
    then some (record u { student_subscribed = false })
    else some u
unsubscription_step u _ = some u

pub take-unsubscription :
    (u : Unsubscription) (e : DomainEvent)
    → take unsubscription courses_event u e ≡ unsubscription_step u e
unfolding mutate_unsubscription Query.matches Query.change_origin Query.query Query.cast
    Filter.matches Filter.change_origin Filter.cast Filter.new Identifier.get
take-unsubscription u (DomainEvent.course_created c name seats) = ground arith
take-unsubscription u (DomainEvent.course_closed c) = ground arith
take-unsubscription u (DomainEvent.course_renamed c name) = ground arith
take-unsubscription u (DomainEvent.student_registered s name) = ground arith
take-unsubscription u (DomainEvent.student_subscribed s c) = ground arith
take-unsubscription u (DomainEvent.student_unsubscribed s c) = ground arith

abbrev pub listing_step : Administration.Course → DomainEvent → Option Administration.Course
listing_step k (DomainEvent.course_created c name seats) =
    if c == k.course_id then some (record k { name = name; created = true }) else some k
listing_step k (DomainEvent.course_closed c) =
    if c == k.course_id then some (record k { closed = true }) else some k
listing_step k (DomainEvent.course_renamed c name) =
    if c == k.course_id then some (record k { name = name }) else some k
listing_step k (DomainEvent.student_registered s name) = some k
listing_step k (DomainEvent.student_subscribed s c) = some k
listing_step k (DomainEvent.student_unsubscribed s c) = some k

pub take-listing :
    (k : Administration.Course) (e : DomainEvent)
    → take Administration.course courses_event k e ≡ listing_step k e
unfolding Administration.mutate_course Query.matches Query.change_origin Query.query Query.cast
    Filter.matches Filter.change_origin Filter.cast Filter.new Identifier.get
take-listing k (DomainEvent.course_created c name seats) = ground arith
take-listing k (DomainEvent.course_closed c) = ground arith
take-listing k (DomainEvent.course_renamed c name) = ground arith
take-listing k (DomainEvent.student_registered s name) = ground arith
take-listing k (DomainEvent.student_subscribed s c) = ground arith
take-listing k (DomainEvent.student_unsubscribed s c) = ground arith

abbrev pub enrolment_step : Administration.Student → DomainEvent → Option Administration.Student
enrolment_step t (DomainEvent.student_registered s name) =
    if s == t.student_id then some (record t { registered = true; name = name }) else some t
enrolment_step t _ = some t

pub take-enrolment :
    (t : Administration.Student) (e : DomainEvent)
    → take Administration.student courses_event t e ≡ enrolment_step t e
unfolding Administration.mutate_student Query.matches Query.change_origin Query.query Query.cast
    Filter.matches Filter.change_origin Filter.cast Filter.new Identifier.get
take-enrolment t (DomainEvent.course_created c name seats) = ground arith
take-enrolment t (DomainEvent.course_closed c) = ground arith
take-enrolment t (DomainEvent.course_renamed c name) = ground arith
take-enrolment t (DomainEvent.student_registered s name) = ground arith
take-enrolment t (DomainEvent.student_subscribed s c) = ground arith
take-enrolment t (DomainEvent.student_unsubscribed s c) = ground arith
