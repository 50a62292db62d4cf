-- ===== src/Courses.antt =====
-- The courses example: examples/courses/src/domain.rs and the files of examples/courses/src/domain. A
-- `u32` is a natural number whose sums and differences are checked: an overflow panics.
pub mod Roster
pub mod Streams
pub mod Subscription
pub mod Administration
pub mod ReadModel
use disintegrate.Prelude.{ℕ, String, List, []}
use disintegrate.Identifier.{IdentifierValue, DomainIdentifierSet}

abbrev pub CourseId : Type 0
CourseId = String

abbrev pub StudentId : Type 0
StudentId = String

pub data DomainEvent : Type 0 where
  course_created : (course_id : CourseId) (name : String) (seats : ℕ) → DomainEvent
  course_closed : (course_id : CourseId) → DomainEvent
  course_renamed : (course_id : CourseId) (name : String) → DomainEvent
  student_registered : (student_id : StudentId) (name : String) → DomainEvent
  student_subscribed student_unsubscribed :
      (student_id : StudentId) (course_id : CourseId) → DomainEvent
