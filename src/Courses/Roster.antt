-- ===== src/Courses/Roster.antt =====
-- What the courses example promises, without states and queries: who is on which course. The decisions
-- of examples/courses/src/domain keep this roster.
pub mod Counting
pub mod Takes
pub mod Agreement
pub mod Runs
pub mod States
pub mod Decisions
pub mod Safety
use disintegrate.Prelude.{
  ℕ, String, ◌+◌, ◌<◌, ◌≤◌, ◌^◌, ◌≡◌, Bool, true, false, ◌&&◌, List, [], ◌∷◌, ◌==◌, if◌then◌else◌,
  length,
}
use disintegrate.Courses.{CourseId, StudentId, DomainEvent}

abbrev pub Members : Type 0
Members = List (StudentId × CourseId)

pub record Roster : Type 0 where
  pub members : Members
  pub capacity : CourseId → ℕ
  pub created : CourseId → Bool
  pub closed : CourseId → Bool
  pub registered : StudentId → Bool

abbrev pub empty : Roster
empty = record {
  members = [];
  capacity = λ c. 0;
  created = λ c. false;
  closed = λ c. false;
  registered = λ s. false;
}

-- The courses of a student, in the order of the subscriptions.
abbrev pub courses_of : StudentId → Members → List CourseId
courses_of s [] = []
courses_of s ((t, c) ∷ ms) = let rest = courses_of s ms in if t == s then c ∷ rest else rest

-- The number of members of a course.
abbrev pub enrolled : CourseId → Members → ℕ
enrolled c [] = 0
enrolled c ((t, d) ∷ ms) = (if d == c then 1 else 0) + enrolled c ms

-- How often a student is on a course.
abbrev pub times : StudentId → CourseId → Members → ℕ
times s c [] = 0
times s c ((t, d) ∷ ms) = (if t == s && d == c then 1 else 0) + times s c ms

abbrev pub leave : StudentId → CourseId → Members → Members
leave s c [] = []
leave s c ((t, d) ∷ ms) =
    let rest = leave s c ms in if t == s && d == c then rest else (t, d) ∷ rest

abbrev pub enter : StudentId → CourseId → Members → Members
enter s c [] = (s, c) ∷ []
enter s c (m ∷ ms) = m ∷ enter s c ms

-- A function with a new value at one key.
abbrev pub at {ℓ} : {A : Type ℓ} → (String → A) → String → A → String → A
at f k a j = if k == j then a else f j

-- What an event means for the roster.
abbrev pub after : Roster → DomainEvent → Roster
after r (DomainEvent.course_created c name seats) = record r {
  capacity = at r.capacity c seats;
  created = at r.created c true;
}
after r (DomainEvent.course_closed c) = record r { closed = at r.closed c true }
after r (DomainEvent.course_renamed c name) = r
after r (DomainEvent.student_registered s name) = record r { registered = at r.registered s true }
after r (DomainEvent.student_subscribed s c) = record r { members = enter s c r.members }
after r (DomainEvent.student_unsubscribed s c) = record r { members = leave s c r.members }

abbrev pub after_all : Roster → List DomainEvent → Roster
after_all r [] = r
after_all r (e ∷ es) = after_all (after r e) es

-- The roster may take this event: the course is new and its seats are a `u32`, or the student has no
-- seat on the course yet and there is room for both, or it has one.
abbrev pub Legal : Roster → DomainEvent → Type 0
Legal r (DomainEvent.course_created c name seats) = (r.created c ≡ false) × (seats < 2 ^ 32)
Legal r (DomainEvent.course_closed c) = (r.created c ≡ true) × (r.closed c ≡ false)
Legal r (DomainEvent.course_renamed c name) = r.created c ≡ true
Legal r (DomainEvent.student_registered s name) = r.registered s ≡ false
Legal r (DomainEvent.student_subscribed s c) =
    (r.registered s ≡ true)
    × (r.closed c ≡ false)
    × (enrolled c r.members < r.capacity c)
    × (times s c r.members ≡ 0)
    × (length (courses_of s r.members) < 2)
Legal r (DomainEvent.student_unsubscribed s c) = times s c r.members ≡ 1

-- What holds of the roster at any time.
pub record IsSafe (r : Roster) : Type 0 where
  pub seated : (c : CourseId) → enrolled c r.members ≤ r.capacity c
  pub fits : (c : CourseId) → r.capacity c < 2 ^ 32
  pub opened : (c : CourseId) → r.created c ≡ false → r.capacity c ≡ 0
  pub once : (s : StudentId) (c : CourseId) → times s c r.members ≤ 1
  pub few : (s : StudentId) → length (courses_of s r.members) ≤ 2
