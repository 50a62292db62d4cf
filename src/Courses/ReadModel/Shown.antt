-- ===== src/Courses/ReadModel/Shown.antt =====
-- What a query of examples/courses/src/read_model.rs returns after a log that the decisions on courses
-- have written.
use disintegrate.Prelude.{
  ◌≡◌, refl, sym, ap, ◌∙◌, ◌+◌, ◌<◌, ◌^◌, ℕ, String, true, false, Option, none, some, List, [], ◌∷◌,
  All, All-weaken, All-append, any-append, arith, ◌==◌, Bool-cases, inl, inr, eq_iff, map,
}
use disintegrate.Prelude.Int.{pos}
use disintegrate.Event.{EventId, PersistedEvent}
use disintegrate.EventStore.{Increasing}
use disintegrate.Courses.{CourseId, DomainEvent}
use disintegrate.Courses.Roster.{Roster, IsSafe, Legal, after, after_all, empty, enrolled}
use disintegrate.Courses.Roster.Runs.{LegalRun, after-IsSafe}
use disintegrate.Courses.Roster.States.{empty-IsSafe}
use disintegrate.Courses.Roster.Safety.{Accepted, Accepted-LegalRun}
use disintegrate.Courses.ReadModel.{
  Course, Rows, new_course, as_i32, insert, has, handle_event, handle_all, course_by_id, set_closed,
  set_name, take_seat, free_seat,
}
use disintegrate.Courses.ReadModel.Seats.{
  RowShows, Shows, Moderate, update-Shows, closed-Turns, renamed-Turns, subscribed-Turns,
  unsubscribed-Turns,
}

module _ (r : Roster) (n m : EventId) (lt : n < m) (safe : IsSafe r) where
  -- A new course changes nothing for the rows of the others.
  created-others :
      (c : CourseId) (name : String) (seats : ℕ) (rows : Rows)
      → has c rows ≡ false
      → All (RowShows r n) rows
      → All (RowShows (after r (DomainEvent.course_created c name seats)) m) rows
  created-others c name seats [] absent s = tt
  created-others c name seats (row ∷ rows) absent ((old, is, (k, left, sum, fits)), s) =
      let other : c == row.course_id ≡ false =
        ground (arith, absent, eq_iff c row.course_id, eq_iff row.course_id c) in
      (
        (omega (arith, lt, old), is, (k, left, rw other sum, rw other fits)),
        created-others c name seats rows (ground (arith, absent)) s,
      )

  created-Shows :
      (c : CourseId) (name : String) (seats : ℕ) (rows : Rows)
      → Legal r (DomainEvent.course_created c name seats)
      → seats < 2 ^ 31
      → Shows r n rows
      → Shows
          (after r (DomainEvent.course_created c name seats))
          m
          (insert (new_course m c name seats) rows)
  unfolding insert
  created-Shows c name seats rows (new, u32) fits (s, same, closed) =
      let absent : has c rows ≡ false = same c ∙ new in
      let self : c == c ≡ true = (eq_iff c c).1 refl in
      let none_yet : enrolled c r.members ≡ 0 = omega (arith, safe.seated c, safe.opened c new) in
      let int : as_i32 seats ≡ pos seats = ground (arith, fits) in
      rw absent (
        All-append (RowShows (after r (DomainEvent.course_created c name seats)) m) rows
            (new_course m c name seats ∷ []) (created-others c name seats rows absent s)
            (
              (
                omega arith,
                sym (closed c new),
                (seats, int, rw self (omega (arith, none_yet)), rw self fits),
              ),
              tt,
            ),
        λ d.
            any-append (λ x. x.course_id == d) rows (new_course m c name seats ∷ [])
            ∙ ground (arith, same d),
        λ d. ground (arith, closed d),
      )

  handle-Shows :
      (e : DomainEvent) (rows : Rows)
      → Legal r e
      → Moderate e
      → Shows r n rows
      → (rows' : Rows) × (handle_event m e rows ≡ some rows') × Shows (after r e) m rows'
  handle-Shows (DomainEvent.course_created c name seats) rows l fits s =
      (insert (new_course m c name seats) rows, refl, created-Shows c name seats rows l fits s)
  handle-Shows (DomainEvent.course_closed c) rows l fits (s, same, closed) =
      let (rows', ran, s', kept) =
        update-Shows set_closed c n m r (after r (DomainEvent.course_closed c)) rows lt
          (closed-Turns r n m lt c) s in
      (rows', ran, (s', (λ d. kept d ∙ same d), λ d. ground (arith, closed d, l, eq_iff c d)))
  handle-Shows (DomainEvent.course_renamed c name) rows l fits (s, same, closed) =
      let (rows', ran, s', kept) =
        update-Shows (set_name name) c n m r r rows lt (renamed-Turns r n m lt c name) s in
      (rows', ran, (s', (λ d. kept d ∙ same d), closed))
  handle-Shows (DomainEvent.student_registered t name) rows l fits (s, same, closed) = (
    rows,
    refl,
    (
      All-weaken (RowShows r n) (RowShows r m) rows
          (λ row (old, is, left). (omega (arith, lt, old), is, left)) s,
      same,
      closed,
    ),
  )
  handle-Shows (DomainEvent.student_subscribed t c) rows l fits (s, same, closed) =
      let (rows', ran, s', kept) =
        update-Shows take_seat c n m r (after r (DomainEvent.student_subscribed t c)) rows lt
          (λ row. subscribed-Turns r n m lt t c row l) s in
      (rows', ran, (s', (λ d. kept d ∙ same d), closed))
  handle-Shows (DomainEvent.student_unsubscribed t c) rows l fits (s, same, closed) =
      let (rows', ran, s', kept) =
        update-Shows free_seat c n m r (after r (DomainEvent.student_unsubscribed t c)) rows lt
          (λ row. unsubscribed-Turns r n m lt t c row l) s in
      (rows', ran, (s', (λ d. kept d ∙ same d), closed))

abbrev pub events_of : List (PersistedEvent DomainEvent) → List DomainEvent
events_of es = map (λ e. e.event) es

handle_all-Shows :
    (r : Roster) (n : EventId) (es : List (PersistedEvent DomainEvent)) (rows : Rows)
    → IsSafe r
    → Increasing n es
    → LegalRun r (events_of es)
    → All Moderate (events_of es)
    → Shows r n rows
    → (rows' : Rows) × (handle_all rows es ≡ some rows')
      × ((m : EventId) × Shows (after_all r (events_of es)) m rows')
handle_all-Shows r n [] rows safe inc run fits s = (rows, refl, (n, s))
handle_all-Shows r n (e ∷ es) rows safe (lt, inc) (l, run) (fit, fits) s =
    let (next, ran, s') = handle-Shows r n e.id lt safe e.event rows l fit s in
    let (rows', ran', shows) =
      handle_all-Shows (after r e.event) e.id es next (after-IsSafe r e.event safe l) inc run fits
        s' in
    (rows', rw ran ran', shows)

-- The course shows the seats that the roster has left, and whether it is closed.
abbrev pub CourseShows : Roster → CourseId → Option Course → Type 0
CourseShows r c none = r.created c ≡ false
CourseShows r c (some course) =
    (r.created c ≡ true)
    × (course.closed ≡ r.closed c)
    × ((k : ℕ) × (course.available_seats ≡ pos k) × (k + enrolled c r.members ≡ r.capacity c))

course_by_id-shows :
    (r : Roster) (n : EventId) (c : CourseId) (rows : Rows)
    → has c rows ≡ r.created c
    → All (RowShows r n) rows
    → CourseShows r c (course_by_id rows c)
course_by_id-shows r n c [] same s = sym same
course_by_id-shows r n c (row ∷ rows) same ((old, is, (k, left, sum, fits)), s) =
    elim (Bool-cases (row.course_id == c)) [
      | inr miss ↦ rw miss (course_by_id-shows r n c rows (ground (arith, same, miss)) s)
      | inl y ↦
          let eq = (eq_iff row.course_id c).0 y in
          rw y (ground (arith, same, y), is ∙ ap r.closed eq, (k, left, rw eq at sum))
    ]

-- After a log that the decisions have written, in the order of its ids and with courses of less than
-- 2 ^ 31 seats, the read model has not panicked, and it has exactly the courses that are created, each
-- with the seats that its members leave and with whether it is closed.
pub Accepted-shown :
    (es : List (PersistedEvent DomainEvent))
    → Accepted (events_of es)
    → Increasing 0 es
    → All Moderate (events_of es)
    → (rows : Rows) × (handle_all [] es ≡ some rows)
      × ((c : CourseId) → CourseShows (after_all empty (events_of es)) c (course_by_id rows c))
Accepted-shown es accepted inc fits =
    let (rows, ran, (m, (s, same, closed))) =
      handle_all-Shows empty 0 es [] empty-IsSafe inc (Accepted-LegalRun (events_of es) accepted)
        fits (tt, (λ c. refl), λ c new. refl) in
    (rows, ran, λ c. course_by_id-shows (after_all empty (events_of es)) m c rows (same c) s)
