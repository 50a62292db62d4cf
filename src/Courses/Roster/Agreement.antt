-- ===== src/Courses/Roster/Agreement.antt =====
-- About the states of examples/courses/src/domain along a log: each of them shows what the roster says.
use disintegrate.Prelude.{
  ℕ, zero, suc, ◌+◌, ◌^◌, ◌≡◌, refl, ◌∙◌, ◌<◌, true, false, ◌&&◌, Option, some, [], ◌∷◌, ◌++◌, ◌==◌,
  eq_iff, arith, ltb, leb, Bool-cases, inl, inr,
}
use disintegrate.Courses.{CourseId, StudentId, DomainEvent}
use disintegrate.Courses.Administration
use disintegrate.Courses.Subscription
use disintegrate.Courses.Subscription.{course, student, unsubscription, Unsubscription, take_seat}
use disintegrate.Courses.Roster.{Roster, after, Legal, IsSafe, courses_of, enrolled, times, leave}
use disintegrate.Courses.Roster.Counting.{
  enrolled-enter, enrolled-leave, times-enter, times-leave, courses_of-enter,
  courses_of-leave_other, remove_first-courses_of,
}
use disintegrate.Courses.Roster.Takes.{
  course_step, student_step, unsubscription_step, listing_step, enrolment_step,
}

-- A state of a course or a student agrees with the roster.
abbrev pub CourseAgrees : CourseId → Roster → Subscription.Course → Type 0
CourseAgrees c r k =
    (k.course_id ≡ c)
    × (k.available_seats + enrolled c r.members ≡ r.capacity c)
    × (k.closed ≡ r.closed c)

abbrev pub StudentAgrees : StudentId → Roster → Subscription.Student → Type 0
StudentAgrees s r t =
    (t.student_id ≡ s)
    × (t.subscribed_courses ≡ courses_of s r.members)
    × (t.registered ≡ r.registered s)

abbrev pub SeatAgrees : StudentId → CourseId → Roster → Unsubscription → Type 0
SeatAgrees s c r u =
    (u.student_id ≡ s) × (u.course_id ≡ c) × (u.student_subscribed ≡ leb 1 (times s c r.members))

abbrev pub ListingAgrees : CourseId → Roster → Administration.Course → Type 0
ListingAgrees c r k = (k.course_id ≡ c) × (k.created ≡ r.created c) × (k.closed ≡ r.closed c)

abbrev pub EnrolmentAgrees : StudentId → Roster → Administration.Student → Type 0
EnrolmentAgrees s r t = (t.student_id ≡ s) × (t.registered ≡ r.registered s)

-- A step of a state keeps its agreement with the roster, and does not panic.
abbrev pub Keeps : {S : Type 0} → (Roster → S → Type 0) → (S → DomainEvent → Option S) → Type 0
Keeps {S} A step =
    (r : Roster) (s : S) (e : DomainEvent)
    → IsSafe r
    → Legal r e
    → A r s
    → (s' : S) × (step s e ≡ some s') × A (after r e) s'

pub listing-Keeps : (c : CourseId) → Keeps (ListingAgrees c) listing_step
listing-Keeps c r k (DomainEvent.course_created d name seats) safe l a =
    elim (Bool-cases (d == c)) [
      | inl y ↦ (record k { name = name; created = true }, ground arith, ground arith)
      | inr n ↦ (k, ground arith, ground arith)
    ]
listing-Keeps c r k (DomainEvent.course_closed d) safe l a = elim (Bool-cases (d == c)) [
  | inl y ↦ (record k { closed = true }, ground arith, ground arith)
  | inr n ↦ (k, ground arith, ground arith)
]
listing-Keeps c r k (DomainEvent.course_renamed d name) safe l a = elim (Bool-cases (d == c)) [
  | inl y ↦ (record k { name = name }, ground arith, a)
  | inr n ↦ (k, ground arith, a)
]
listing-Keeps c r k (DomainEvent.student_registered s name) safe l a = (k, refl, a)
listing-Keeps c r k (DomainEvent.student_subscribed s d) safe l a = (k, refl, a)
listing-Keeps c r k (DomainEvent.student_unsubscribed s d) safe l a = (k, refl, a)

pub enrolment-Keeps : (s : StudentId) → Keeps (EnrolmentAgrees s) enrolment_step
enrolment-Keeps s r t (DomainEvent.student_registered u name) safe l a =
    elim (Bool-cases (u == s)) [
      | inl y ↦ (record t { registered = true; name = name }, ground arith, ground arith)
      | inr n ↦ (t, ground arith, ground arith)
    ]
enrolment-Keeps s r t (DomainEvent.course_created d name seats) safe l a = (t, refl, a)
enrolment-Keeps s r t (DomainEvent.course_closed d) safe l a = (t, refl, a)
enrolment-Keeps s r t (DomainEvent.course_renamed d name) safe l a = (t, refl, a)
enrolment-Keeps s r t (DomainEvent.student_subscribed u d) safe l a = (t, refl, a)
enrolment-Keeps s r t (DomainEvent.student_unsubscribed u d) safe l a = (t, refl, a)

pub seat-Keeps : (s : StudentId) (c : CourseId) → Keeps (SeatAgrees s c) unsubscription_step
seat-Keeps s c r u (DomainEvent.student_subscribed t d) safe l a =
    elim (Bool-cases (t == s && d == c)) [
      | inl y ↦ (
        record u { student_subscribed = true },
        ground arith,
        ground (arith, times-enter t s d c r.members),
      )
      | inr n ↦ (u, ground arith, ground (arith, times-enter t s d c r.members))
    ]
seat-Keeps s c r u (DomainEvent.student_unsubscribed t d) safe l a =
    elim (Bool-cases (t == s && d == c)) [
      | inl y ↦ (
        record u { student_subscribed = false },
        ground arith,
        ground (arith, times-leave t s d c r.members),
      )
      | inr n ↦ (u, ground arith, ground (arith, times-leave t s d c r.members))
    ]
seat-Keeps s c r u (DomainEvent.course_created d name seats) safe l a = (u, refl, a)
seat-Keeps s c r u (DomainEvent.course_closed d) safe l a = (u, refl, a)
seat-Keeps s c r u (DomainEvent.course_renamed d name) safe l a = (u, refl, a)
seat-Keeps s c r u (DomainEvent.student_registered t name) safe l a = (u, refl, a)

pub student-Keeps : (s : StudentId) → Keeps (StudentAgrees s) student_step
student-Keeps s r t (DomainEvent.student_subscribed u d) safe l (id, courses, registered) =
    let entered = courses_of-enter u s d r.members in
    elim (Bool-cases (u == s)) [
      | inl y ↦ (
        record t { subscribed_courses = t.subscribed_courses ++ d ∷ [] },
        ground arith,
        (id, ground arith, registered),
      )
      | inr n ↦ (t, ground arith, (id, ground arith, registered))
    ]
student-Keeps s r t (DomainEvent.student_unsubscribed u d) safe l (id, courses, registered) =
    elim (Bool-cases (u == s)) [
      | inl y ↦ (
        record t { subscribed_courses = courses_of s (leave u d r.members) },
        ground (arith, remove_first-courses_of u d r.members, eq_iff u s),
        (id, refl, registered),
      )
      | inr n ↦ (
        t,
        ground arith,
        (id, ground (arith, courses_of-leave_other u s d r.members), registered),
      )
    ]
student-Keeps s r t (DomainEvent.student_registered u name) safe l (id, courses, registered) =
    elim (Bool-cases (u == s)) [
      | inl y ↦ (record t { registered = true }, ground arith, (id, courses, ground arith))
      | inr n ↦ (t, ground arith, (id, courses, ground arith))
    ]
student-Keeps s r t (DomainEvent.course_created d name seats) safe l a = (t, refl, a)
student-Keeps s r t (DomainEvent.course_closed d) safe l a = (t, refl, a)
student-Keeps s r t (DomainEvent.course_renamed d name) safe l a = (t, refl, a)

take_seat-some :
    (k : Subscription.Course) (n : ℕ)
    → 0 < n
    → (k' : Subscription.Course) × (take_seat k n ≡ some k')
      × (k'.available_seats + 1 ≡ n)
      × (k'.course_id ≡ k.course_id)
      × (k'.closed ≡ k.closed)
take_seat-some k zero h = absurd (omega (arith, h))
take_seat-some k (suc n) h = (record k { available_seats = n }, refl, omega arith, refl, refl)

pub course-Keeps : (c : CourseId) → Keeps (CourseAgrees c) course_step
course-Keeps c r k (DomainEvent.course_created d name seats) safe l (id, sum, closed) =
    elim (Bool-cases (d == c)) [
      | inl y ↦ (
        record k { available_seats = seats },
        ground arith,
        (id, ground (arith, safe.opened c, safe.seated c, eq_iff d c), closed),
      )
      | inr n ↦ (k, ground arith, (id, ground arith, closed))
    ]
course-Keeps c r k (DomainEvent.course_closed d) safe l (id, sum, closed) =
    elim (Bool-cases (d == c)) [
      | inl y ↦ (record k { closed = true }, ground arith, (id, sum, ground arith))
      | inr n ↦ (k, ground arith, (id, sum, ground arith))
    ]
course-Keeps c r k (DomainEvent.student_subscribed s d) safe l (id, sum, closed) =
    let entered = enrolled-enter s d c r.members in
    elim (Bool-cases (d == c)) [
      | inl y ↦
          let room : 0 < k.available_seats = ground (arith, eq_iff d c) in
          let (k', takes, seats, same_id, same_closed) = take_seat-some k k.available_seats room in
          (k', ground arith, (same_id ∙ id, ground arith, same_closed ∙ closed))
      | inr n ↦ (k, ground arith, (id, ground arith, closed))
    ]
course-Keeps c r k (DomainEvent.student_unsubscribed s d) safe l (id, sum, closed) =
    let left = enrolled-leave s d c r.members in
    elim (Bool-cases (d == c)) [
      | inl y ↦
          let fits : ltb (k.available_seats + 1) (2 ^ 32) ≡ true =
            ground (arith, safe.fits c, eq_iff d c) in
          (
            record k { available_seats = k.available_seats + 1 },
            ground arith,
            (id, ground (arith, eq_iff d c), closed),
          )
      | inr n ↦ (k, ground arith, (id, ground arith, closed))
    ]
course-Keeps c r k (DomainEvent.course_renamed d name) safe l a = (k, refl, a)
course-Keeps c r k (DomainEvent.student_registered s name) safe l a = (k, refl, a)
