-- ===== src/Courses/ReadModel.antt =====
-- The read model of the courses: examples/courses/src/read_model.rs. The table `course` is the list of
-- its rows. A statement is its effect on the rows; one that fails is unwrapped, a panic (`none`): the
-- database refuses a sum out of the range of an `INT`.
pub mod Statements
pub mod Redelivery
pub mod Seats
pub mod Shown
use disintegrate.Prelude.{
  ℕ, String, ◌+◌, ◌-◌, ◌^◌, Bool, true, false, ◌&&◌, Option, none, some, List, [], ◌∷◌, ◌++◌, any,
  ◌==◌, if◌then◌else◌, ltb, ◌>>=◌,
}
use disintegrate.Prelude.Int.{ℤ, pos, negsuc, ◌+ℤ◌, ◌-ℤ◌, pos_part, neg_part}
use disintegrate.Event.{EventId, PersistedEvent}
use disintegrate.Courses.{CourseId, DomainEvent}

pub record Course : Type 0 where
  pub course_id : CourseId
  pub name : String
  pub available_seats : ℤ
  pub closed : Bool

-- A row of the table `course`.
pub record CourseRow : Type 0 where
  pub course_id : CourseId
  pub name : String
  pub available_seats : ℤ
  pub closed : Bool
  pub event_id : EventId

abbrev pub Rows : Type 0
Rows = List CourseRow

-- `seats as i32`, for a `u32`.
abbrev pub as_i32 : ℕ → ℤ
as_i32 seats = if ltb seats (2 ^ 31) then pos seats else negsuc (2 ^ 32 - seats - 1)

abbrev pub int : ℤ → Option ℤ
int z = if ltb (pos_part z) (2 ^ 31) && ltb (neg_part z) (2 ^ 31 + 1) then some z else none

abbrev shown : CourseRow → Course
shown row = record {
  course_id = row.course_id;
  name = row.name;
  available_seats = row.available_seats;
  closed = row.closed;
}

-- `SELECT ... FROM course WHERE course_id = $1`
abbrev pub course_by_id : Rows → CourseId → Option Course
course_by_id [] course_id = none
course_by_id (row ∷ rows) course_id =
    let rest = course_by_id rows course_id in
    if row.course_id == course_id then some (shown row) else rest

abbrev pub has : CourseId → Rows → Bool
has course_id rows = any (λ row. row.course_id == course_id) rows

-- `INSERT INTO course ... ON CONFLICT DO NOTHING`; the primary key is the `course_id`.
unfoldable pub insert : CourseRow → Rows → Rows
insert row rows = if has row.course_id rows then rows else rows ++ row ∷ []

-- `UPDATE course SET ..., event_id = n WHERE course_id = $1 and event_id < n`
unfoldable pub update : (CourseRow → Option CourseRow) → CourseId → EventId → Rows → Option Rows
update set course_id n [] = some []
update set course_id n (row ∷ rows) =
    let rest = update set course_id n rows in
    if row.course_id == course_id && ltb row.event_id n
    then (set row >>= λ row'. rest >>= λ rows'. some (record row' { event_id = n } ∷ rows'))
    else (rest >>= λ rows'. some (row ∷ rows'))

abbrev pub set_closed : CourseRow → Option CourseRow
set_closed row = some (record row { closed = true })

abbrev pub take_seat : CourseRow → Option CourseRow
take_seat row =
    int (row.available_seats -ℤ pos 1) >>= λ z. some (record row { available_seats = z })

abbrev pub free_seat : CourseRow → Option CourseRow
free_seat row =
    int (row.available_seats +ℤ pos 1) >>= λ z. some (record row { available_seats = z })

abbrev pub set_name : String → CourseRow → Option CourseRow
set_name name row = some (record row { name = name })

abbrev pub new_course : EventId → CourseId → String → ℕ → CourseRow
new_course n c name seats = record {
  course_id = c;
  name = name;
  available_seats = as_i32 seats;
  closed = false;
  event_id = n;
}

abbrev pub handle_event : EventId → DomainEvent → Rows → Option Rows
handle_event n (DomainEvent.course_created c name seats) rows =
    some (insert (new_course n c name seats) rows)
handle_event n (DomainEvent.course_closed c) rows = update set_closed c n rows
handle_event n (DomainEvent.student_subscribed s c) rows = update take_seat c n rows
handle_event n (DomainEvent.student_unsubscribed s c) rows = update free_seat c n rows
handle_event n (DomainEvent.course_renamed c name) rows = update (set_name name) c n rows
handle_event n (DomainEvent.student_registered s name) rows = some rows

abbrev pub handle : Rows → PersistedEvent DomainEvent → Option Rows
handle rows e = handle_event e.id e.event rows

abbrev pub handle_all : Rows → List (PersistedEvent DomainEvent) → Option Rows
handle_all rows [] = some rows
handle_all rows (e ∷ es) = handle rows e >>= λ rows'. handle_all rows' es
