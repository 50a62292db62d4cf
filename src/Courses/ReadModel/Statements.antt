-- ===== src/Courses/ReadModel/Statements.antt =====
-- About the statements of examples/courses/src/read_model.rs: each tests the primary key or the id of
-- the event that changed the row last.
use disintegrate.Prelude.{
  ◌≡◌, ◌⊎◌, refl, ap, ◌∙◌, ◌<◌, Bool, true, false, not, ◌&&◌, ◌||◌, eq_refl, ◌==◌, Option, some, [],
  ◌∷◌, ◌++◌, all, arith, ltb, Bool-cases, any-append, Option-cases, inl, inr,
}
use disintegrate.Event.{EventId}
use disintegrate.Courses.{CourseId}
use disintegrate.Courses.ReadModel.{CourseRow, Rows, has, insert, update}

-- Whether an update of the course by the event passes over the row.
abbrev passes : CourseId → EventId → CourseRow → Bool
passes c n row = not (row.course_id == c && ltb row.event_id n)

-- No row of the course is older than the id.
abbrev pub settled : CourseId → EventId → Rows → Bool
settled c n rows = all (passes c n) rows

module _ (set : CourseRow → Option CourseRow) (d : CourseId) (m : EventId) where
  -- What an update makes of the first row.
  abbrev Updates : CourseRow → CourseRow → Type 0
  Updates row row' =
      ((row' ≡ row) × (passes d m row ≡ true))
      ⊎ ((row'.event_id ≡ m)
          × ((r : CourseRow) × (set row ≡ some r) × (row'.course_id ≡ r.course_id)))

  update-inv :
      (row : CourseRow) (rows rows' : Rows)
      → update set d m (row ∷ rows) ≡ some rows'
      → (row' : CourseRow) × (rest : Rows) × (rows' ≡ row' ∷ rest)
        × (update set d m rows ≡ some rest)
        × Updates row row'
  unfolding update
  update-inv row rows rows' h = elim (Option-cases (update set d m rows)) [
    | inl o ↦ absurd (ground (arith, h, o))
    | inr (rest, o) ↦ elim (Bool-cases (row.course_id == d && ltb row.event_id m)) [
      | inr miss ↦ (row, rest, ground (arith, h, o, miss), o, inl (refl, ap not miss))
      | inl y ↦ elim (Option-cases (set row)) [
        | inl o' ↦ absurd (ground (arith, h, y, o'))
        | inr (r, o') ↦ (
          record r { event_id = m },
          rest,
          ground (arith, h, o, y, o'),
          o,
          inr (refl, (r, o', refl)),
        )
      ]
    ]
  ]

  pub update-settled :
      (rows rows' : Rows) → update set d m rows ≡ some rows' → settled d m rows' ≡ true
  unfolding update
  update-settled [] rows' h = ground (arith, h)
  update-settled (row ∷ rows) rows' h =
      let (row', rest, eq, upd, how) = update-inv row rows rows' h in
      let ih = update-settled rows rest upd in rw eq (ground (arith, ih, how))

  pub settled-update : (rows : Rows) → settled d m rows ≡ true → update set d m rows ≡ some rows
  unfolding update
  settled-update [] h = refl
  settled-update (row ∷ rows) h = ground (arith, settled-update rows)

  pub update-keeps_settled :
      (c : CourseId) (k : EventId) (rows rows' : Rows)
      → k < m
      → settled c k rows ≡ true
      → update set d m rows ≡ some rows'
      → settled c k rows' ≡ true
  unfolding update
  update-keeps_settled c k [] rows' lt s h = ground (arith, h)
  update-keeps_settled c k (row ∷ rows) rows' lt s h =
      let (row', rest, eq, upd, how) = update-inv row rows rows' h in
      let ih = update-keeps_settled c k rows rest lt in rw eq (ground (arith, ih, upd, how, s))

  pub update-keeps_has :
      (c : CourseId) (rows rows' : Rows)
      → ((row row' : CourseRow) → set row ≡ some row' → row'.course_id ≡ row.course_id)
      → has c rows ≡ true
      → update set d m rows ≡ some rows'
      → has c rows' ≡ true
  unfolding update
  update-keeps_has c [] rows' key y h = ground (arith, y)
  update-keeps_has c (row ∷ rows) rows' key y h =
      let (row', rest, eq, upd, how) = update-inv row rows rows' h in
      let ih = update-keeps_has c rows rest key in
      let same : row'.course_id ≡ row.course_id = elim how [
        | inl (eq', pass) ↦ ap (λ x. x.course_id) eq'
        | inr (id, (r, ran, eq')) ↦ eq' ∙ key row r ran
      ] in
      rw (eq, same) (ground (arith, ih, upd, y))

or_true : (a b : Bool) → b ≡ true → (a || (b || false)) ≡ true
or_true a b y = ground (arith, y)

module _ (row : CourseRow) where
  pub insert-has : (rows : Rows) → has row.course_id (insert row rows) ≡ true
  unfolding insert
  insert-has rows =
      let last : has row.course_id (rows ++ row ∷ []) ≡ true =
        any-append (λ r. r.course_id == row.course_id) rows (row ∷ [])
        ∙ or_true (has row.course_id rows) (row.course_id == row.course_id)
            (eq_refl row.course_id) in
      ground (arith, last)

  pub insert-keeps_has :
      (c : CourseId) (rows : Rows) → has c rows ≡ true → has c (insert row rows) ≡ true
  unfolding insert
  insert-keeps_has c rows y = ground (arith, y, any-append (λ r. r.course_id == c) rows (row ∷ []))

  settled-append :
      (c : CourseId) (k : EventId) (rows : Rows)
      → k < row.event_id
      → settled c k rows ≡ true
      → settled c k (rows ++ row ∷ []) ≡ true
  settled-append c k [] lt s = ground (arith, lt)
  settled-append c k (r ∷ rows) lt s = ground (arith, settled-append c k rows lt, s)

  pub insert-keeps_settled :
      (c : CourseId) (k : EventId) (rows : Rows)
      → k < row.event_id
      → settled c k rows ≡ true
      → settled c k (insert row rows) ≡ true
  unfolding insert
  insert-keeps_settled c k rows lt s = ground (arith, settled-append c k rows lt s, s)
