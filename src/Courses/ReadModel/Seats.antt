-- ===== src/Courses/ReadModel/Seats.antt =====
-- What the table of examples/courses/src/read_model.rs shows, compared with the roster.
use disintegrate.Prelude.{
  ◌≡◌, refl, ◌+◌, ◌-◌, String, ◌<◌, ◌≤◌, ◌^◌, ℕ, true, false, Option, some, [], ◌∷◌, All, arith,
  ◌==◌, Bool-cases, inl, inr, eq_iff, ltb,
}
use disintegrate.Prelude.Int.{pos, ◌+ℤ◌, ◌-ℤ◌}
use disintegrate.Event.{EventId}
use disintegrate.Courses.{CourseId, StudentId, DomainEvent}
use disintegrate.Courses.Roster.{Roster, enter, leave, Legal, after, enrolled}
use disintegrate.Courses.Roster.Counting.{enrolled-enter, enrolled-leave}
use disintegrate.Courses.ReadModel.{
  CourseRow, Rows, update, has, take_seat, free_seat, set_closed, set_name, int,
}

-- The row shows the seats that the roster has left, and whether the course is closed.
abbrev pub RowShows : Roster → EventId → CourseRow → Type 0
RowShows r n row =
    (row.event_id ≤ n)
    × (row.closed ≡ r.closed row.course_id)
    × ((k : ℕ) × (row.available_seats ≡ pos k)
        × (k + enrolled row.course_id r.members ≡ r.capacity row.course_id)
        × (r.capacity row.course_id < 2 ^ 31))

-- Each row shows the roster, and the courses of the rows are those that are created;
-- only these are closed.
abbrev pub Shows : Roster → EventId → Rows → Type 0
Shows r n rows =
    All (RowShows r n) rows
    × ((c : CourseId) → has c rows ≡ r.created c)
    × ((c : CourseId) → r.created c ≡ false → r.closed c ≡ false)

-- What an update of the course makes of a row.
abbrev Turns : (CourseRow → Option CourseRow) → CourseId → EventId → Roster → CourseRow → Type 0
Turns set c m r row =
    ((row.course_id ≡ c)
      → (row' : CourseRow) × (set row ≡ some row')
        × (row'.course_id ≡ row.course_id)
        × RowShows r m (record row' { event_id = m }))
    × ((row.course_id == c ≡ false) → RowShows r m row)

pub update-Shows :
    (set : CourseRow → Option CourseRow) (c : CourseId) (n m : EventId) (r r' : Roster)
    (rows : Rows)
    → n < m
    → ((row : CourseRow) → RowShows r n row → Turns set c m r' row)
    → All (RowShows r n) rows
    → (rows' : Rows) × (update set c m rows ≡ some rows')
      × All (RowShows r' m) rows'
      × ((d : CourseId) → has d rows' ≡ has d rows)
unfolding update
update-Shows set c n m r r' [] lt turns s = ([], refl, tt, λ d. refl)
update-Shows set c n m r r' (row ∷ rows) lt turns (here, s) =
    let (rest, ran, shows, same) = update-Shows set c n m r r' rows lt turns s in
    let (hit, pass) = turns row here in
    let older : ltb row.event_id m ≡ true = ground (arith, lt, here.0) in
    elim (Bool-cases (row.course_id == c)) [
      | inr miss ↦
          (row ∷ rest, rw (miss, ran) refl, (pass miss, shows), λ d. ground (arith, same d))
      | inl y ↦
          let (row', set_to, key, shows') = hit ((eq_iff row.course_id c).0 y) in
          (
            record row' { event_id = m } ∷ rest,
            rw (y, older, ran, set_to) refl,
            (shows', shows),
            λ d. rw key (ground (arith, same d)),
          )
    ]

int_pos : (k : ℕ) → k < 2 ^ 31 → int (pos k) ≡ some (pos k)
int_pos k lt = ground (arith, lt)

-- The seats of the course fit an `i32`.
abbrev pub Moderate : DomainEvent → Type 0
Moderate (DomainEvent.course_created c name seats) = seats < 2 ^ 31
Moderate (DomainEvent.course_closed c) = Unit
Moderate (DomainEvent.student_subscribed s c) = Unit
Moderate (DomainEvent.student_unsubscribed s c) = Unit
Moderate (DomainEvent.course_renamed c name) = Unit
Moderate (DomainEvent.student_registered s name) = Unit

module _ (r : Roster) (n m : EventId) (lt : n < m) where
  pub closed-Turns :
      (c : CourseId) (row : CourseRow)
      → RowShows r n row
      → Turns set_closed c m (after r (DomainEvent.course_closed c)) row
  closed-Turns c row (old, is, left) = (
    λ eq. (
      record row { closed = true },
      refl,
      refl,
      (omega arith, ground (arith, eq, eq_iff c row.course_id), left),
    ),
    λ miss. (
      omega (arith, lt, old),
      ground (arith, is, miss, eq_iff c row.course_id, eq_iff row.course_id c),
      left,
    ),
  )

  pub renamed-Turns :
      (c : CourseId) (name : String) (row : CourseRow)
      → RowShows r n row
      → Turns (set_name name) c m r row
  renamed-Turns c name row (old, is, left) = (
    λ eq. (record row { name = name }, refl, refl, (omega arith, is, left)),
    λ miss. (omega (arith, lt, old), is, left),
  )

  pub subscribed-Turns :
      (s : StudentId) (c : CourseId) (row : CourseRow)
      → Legal r (DomainEvent.student_subscribed s c)
      → RowShows r n row
      → Turns take_seat c m (after r (DomainEvent.student_subscribed s c)) row
  subscribed-Turns s c row (known, unlocked, room, new, few) (old, is, (k, seats, sum, fits)) =
      let more = enrolled-enter s c row.course_id r.members in
      (
        λ eq.
            let room' : enrolled row.course_id r.members < r.capacity row.course_id = rw eq room in
            let sum' : k - 1 + enrolled row.course_id (enter s c r.members)
                ≡ r.capacity row.course_id =
              ground (arith, more, sum, room', eq, eq_iff c row.course_id) in
            let is_int = int_pos (k - 1) (omega (arith, sum, fits)) in
            let less : pos k -ℤ pos 1 ≡ pos (k - 1) = unfold ◌-ℤ◌ in ground (arith, sum, room') in
            (
              record row { available_seats = pos (k - 1) },
              rw (seats, less, is_int) refl,
              refl,
              (omega arith, is, (k - 1, refl, sum', fits)),
            ),
        λ miss.
            let sum' : k + enrolled row.course_id (enter s c r.members) ≡ r.capacity row.course_id =
              ground (arith, more, sum, miss, eq_iff c row.course_id, eq_iff row.course_id c) in
            (omega (arith, lt, old), is, (k, seats, sum', fits)),
      )

  pub unsubscribed-Turns :
      (s : StudentId) (c : CourseId) (row : CourseRow)
      → Legal r (DomainEvent.student_unsubscribed s c)
      → RowShows r n row
      → Turns free_seat c m (after r (DomainEvent.student_unsubscribed s c)) row
  unsubscribed-Turns s c row once (old, is, (k, seats, sum, fits)) =
      let fewer = enrolled-leave s c row.course_id r.members in
      (
        λ eq.
            let sum' : k + 1 + enrolled row.course_id (leave s c r.members)
                ≡ r.capacity row.course_id =
              ground (arith, fewer, sum, once, eq, eq_iff c row.course_id) in
            let is_int = int_pos (k + 1) (omega (arith, sum', fits)) in
            let more : pos k +ℤ pos 1 ≡ pos (k + 1) = unfold ◌+ℤ◌ in ground arith in
            (
              record row { available_seats = pos (k + 1) },
              rw (seats, more, is_int) refl,
              refl,
              (omega arith, is, (k + 1, refl, sum', fits)),
            ),
        λ miss.
            let sum' : k + enrolled row.course_id (leave s c r.members) ≡ r.capacity row.course_id =
              ground (arith, fewer, sum, miss, eq_iff c row.course_id, eq_iff row.course_id c) in
            (omega (arith, lt, old), is, (k, seats, sum', fits)),
      )
