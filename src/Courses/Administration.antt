-- ===== src/Courses/Administration.antt =====
-- Courses and students: examples/courses/src/domain/course.rs and
-- examples/courses/src/domain/student.rs.
use disintegrate.Prelude.{
  ℕ, String, Bool, true, false, not, none, some, List, [], ◌∷◌, ◌==◌, if◌then◌else◌,
}
use disintegrate.Prelude.Result.{Result, ok, err}
use disintegrate.Stream.Filter
use disintegrate.Stream.Query
use disintegrate.State.{StateMutate}
use disintegrate.Decision.{Decision}
use disintegrate.Courses.{CourseId, StudentId, DomainEvent}
use disintegrate.Courses.Streams.{
  CourseEvent, StudentEvent, into_course, into_student, course_schema, student_schema, course_set,
  student_set,
}

pub data CourseError : Type 0 where
  not_found already_created already_closed invalid_seats name_empty : CourseError

pub record Course : Type 0 where
  pub course_id : CourseId
  pub name : String
  pub created : Bool
  pub closed : Bool

abbrev pub new_course : CourseId → Course
new_course id = record { course_id = id; name = ""; created = false; closed = false }

unfoldable pub mutate_course : Course → CourseEvent → Course
mutate_course s (CourseEvent.course_created id name seats) = record s {
  name = name;
  created = true;
}
mutate_course s (CourseEvent.course_closed id) = record s { closed = true }
mutate_course s (CourseEvent.course_renamed id name) = record s { name = name }

abbrev pub course : StateMutate Course CourseEvent DomainEvent
course = record {
  name = "Course";
  query = λ s. Query.query course_schema (some (Filter.new course_schema (course_set s.course_id)));
  try_into = into_course;
  mutate = λ s e. some (mutate_course s e);
}

unfoldable pub create_course : CourseId → String → ℕ → Decision Course DomainEvent CourseError
create_course id name seats = record {
  state_query = new_course id;
  validation_query = none;
  process = λ state.
      if state.created
      then err CourseError.already_created
      else if name == ""
      then err CourseError.name_empty
      else ok (DomainEvent.course_created id name seats ∷ []);
}

unfoldable pub close_course : CourseId → Decision Course DomainEvent CourseError
close_course id = record {
  state_query = new_course id;
  validation_query = none;
  process = λ state.
      if not state.created
      then err CourseError.not_found
      else if state.closed
      then err CourseError.already_closed
      else ok (DomainEvent.course_closed id ∷ []);
}

unfoldable pub rename_course : CourseId → String → Decision Course DomainEvent CourseError
rename_course id name = record {
  state_query = new_course id;
  validation_query = none;
  process = λ state.
      if not state.created
      then err CourseError.not_found
      else if name == ""
      then err CourseError.name_empty
      else ok (DomainEvent.course_renamed id name ∷ []);
}

pub data StudentError : Type 0 where
  not_found already_registered name_empty : StudentError

pub record Student : Type 0 where
  pub student_id : StudentId
  pub name : String
  pub registered : Bool

abbrev pub new_student : StudentId → Student
new_student id = record { student_id = id; name = ""; registered = false }

unfoldable pub mutate_student : Student → StudentEvent → Student
mutate_student s (StudentEvent.student_registered id name) = record s {
  registered = true;
  name = name;
}

abbrev pub student : StateMutate Student StudentEvent DomainEvent
student = record {
  name = "Student";
  query =
      λ s. Query.query student_schema (some (Filter.new student_schema (student_set s.student_id)));
  try_into = into_student;
  mutate = λ s e. some (mutate_student s e);
}

-- `Student::register`
unfoldable pub register : Student → String → Result (List StudentEvent) StudentError
register s name =
    if s.registered
    then err StudentError.already_registered
    else if name == ""
    then err StudentError.name_empty
    else ok (StudentEvent.student_registered s.student_id name ∷ [])

unfoldable pub register_student : StudentId → String → Decision Student DomainEvent StudentError
register_student id name = record {
  state_query = new_student id;
  validation_query = none;
  process = λ state.
      if state.registered
      then err StudentError.already_registered
      else if name == ""
      then err StudentError.name_empty
      else ok (DomainEvent.student_registered id name ∷ []);
}
