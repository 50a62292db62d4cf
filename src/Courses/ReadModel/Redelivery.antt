-- ===== src/Courses/ReadModel/Redelivery.antt =====
-- About the read model of examples/courses/src/read_model.rs when events are delivered again.
use disintegrate.Prelude.{
  ◌≡◌, refl, ◌<◌, ◌≤◌, All, true, some, List, [], ◌∷◌, ◌++◌, arith, ◌>>=◌, Option-cases, inl, inr,
}
use disintegrate.Event.{EventId, PersistedEvent}
use disintegrate.EventStore.{Increasing}
use disintegrate.Courses.{CourseId, DomainEvent}
use disintegrate.Courses.ReadModel.{
  CourseRow, Rows, new_course, insert, has, handle_event, handle, handle_all, take_seat, free_seat,
  set_closed, set_name, int,
}
use disintegrate.Courses.ReadModel.Statements.{
  settled, update-settled, settled-update, update-keeps_settled, update-keeps_has, insert-has,
  insert-keeps_has, insert-keeps_settled,
}
use disintegrate.Prelude.Int.{pos, ◌+ℤ◌, ◌-ℤ◌}

take_seat-key : (row row' : CourseRow) → take_seat row ≡ some row' → row'.course_id ≡ row.course_id
take_seat-key row row' h = elim (Option-cases (int (row.available_seats -ℤ pos 1))) [
  | inl o ↦ absurd (ground (arith, h, o))
  | inr (z, o) ↦ ground (arith, h, o)
]

free_seat-key : (row row' : CourseRow) → free_seat row ≡ some row' → row'.course_id ≡ row.course_id
free_seat-key row row' h = elim (Option-cases (int (row.available_seats +ℤ pos 1))) [
  | inl o ↦ absurd (ground (arith, h, o))
  | inr (z, o) ↦ ground (arith, h, o)
]

-- The rows show the event, or a later one.
abbrev Shown : EventId → DomainEvent → Rows → Type 0
Shown n (DomainEvent.course_created c name seats) rows = has c rows ≡ true
Shown n (DomainEvent.course_closed c) rows = settled c n rows ≡ true
Shown n (DomainEvent.student_subscribed s c) rows = settled c n rows ≡ true
Shown n (DomainEvent.student_unsubscribed s c) rows = settled c n rows ≡ true
Shown n (DomainEvent.course_renamed c name) rows = settled c n rows ≡ true
Shown n (DomainEvent.student_registered s name) rows = Unit

handle-Shown :
    (n : EventId) (e : DomainEvent) (rows rows' : Rows)
    → handle_event n e rows ≡ some rows'
    → Shown n e rows'
handle-Shown n (DomainEvent.course_created c name seats) rows rows' h =
    let put = insert-has (new_course n c name seats) rows in ground (arith, h, put)
handle-Shown n (DomainEvent.course_closed c) rows rows' h =
    update-settled set_closed c n rows rows' h
handle-Shown n (DomainEvent.student_subscribed s c) rows rows' h =
    update-settled take_seat c n rows rows' h
handle-Shown n (DomainEvent.student_unsubscribed s c) rows rows' h =
    update-settled free_seat c n rows rows' h
handle-Shown n (DomainEvent.course_renamed c name) rows rows' h =
    update-settled (set_name name) c n rows rows' h
handle-Shown n (DomainEvent.student_registered s name) rows rows' h = tt

Shown-handle :
    (n : EventId) (e : DomainEvent) (rows : Rows)
    → Shown n e rows
    → handle_event n e rows ≡ some rows
unfolding insert
Shown-handle n (DomainEvent.course_created c name seats) rows h = ground (arith, h)
Shown-handle n (DomainEvent.course_closed c) rows h = settled-update set_closed c n rows h
Shown-handle n (DomainEvent.student_subscribed s c) rows h = settled-update take_seat c n rows h
Shown-handle n (DomainEvent.student_unsubscribed s c) rows h = settled-update free_seat c n rows h
Shown-handle n (DomainEvent.course_renamed c name) rows h =
    settled-update (set_name name) c n rows h
Shown-handle n (DomainEvent.student_registered s name) rows h = refl

module _ (c : CourseId) (k m : EventId) (lt : k < m) where
  handle-keeps_settled :
      (f : DomainEvent) (rows rows' : Rows)
      → settled c k rows ≡ true
      → handle_event m f rows ≡ some rows'
      → settled c k rows' ≡ true
  handle-keeps_settled (DomainEvent.course_created d name seats) rows rows' s h =
      let keeps = insert-keeps_settled (new_course m d name seats) c k rows lt s in
      ground (arith, h, keeps)
  handle-keeps_settled (DomainEvent.course_closed d) rows rows' s h =
      update-keeps_settled set_closed d m c k rows rows' lt s h
  handle-keeps_settled (DomainEvent.student_subscribed t d) rows rows' s h =
      update-keeps_settled take_seat d m c k rows rows' lt s h
  handle-keeps_settled (DomainEvent.student_unsubscribed t d) rows rows' s h =
      update-keeps_settled free_seat d m c k rows rows' lt s h
  handle-keeps_settled (DomainEvent.course_renamed d name) rows rows' s h =
      update-keeps_settled (set_name name) d m c k rows rows' lt s h
  handle-keeps_settled (DomainEvent.student_registered t name) rows rows' s h = ground (arith, s, h)

module _ (c : CourseId) (m : EventId) where
  handle-keeps_has :
      (f : DomainEvent) (rows rows' : Rows)
      → has c rows ≡ true
      → handle_event m f rows ≡ some rows'
      → has c rows' ≡ true
  handle-keeps_has (DomainEvent.course_created d name seats) rows rows' y h =
      let keeps = insert-keeps_has (new_course m d name seats) c rows y in ground (arith, h, keeps)
  handle-keeps_has (DomainEvent.course_closed d) rows rows' y h =
      update-keeps_has set_closed d m c rows rows' (λ r r' ran. ground (arith, ran)) y h
  handle-keeps_has (DomainEvent.student_subscribed t d) rows rows' y h =
      update-keeps_has take_seat d m c rows rows' take_seat-key y h
  handle-keeps_has (DomainEvent.student_unsubscribed t d) rows rows' y h =
      update-keeps_has free_seat d m c rows rows' free_seat-key y h
  handle-keeps_has (DomainEvent.course_renamed d name) rows rows' y h =
      update-keeps_has (set_name name) d m c rows rows' (λ r r' ran. ground (arith, ran)) y h
  handle-keeps_has (DomainEvent.student_registered t name) rows rows' y h = ground (arith, y, h)

handle-keeps_Shown :
    (k m : EventId) (e f : DomainEvent) (rows rows' : Rows)
    → k < m
    → Shown k e rows
    → handle_event m f rows ≡ some rows'
    → Shown k e rows'
handle-keeps_Shown k m (DomainEvent.course_created c name seats) f rows rows' lt s h =
    handle-keeps_has c m f rows rows' s h
handle-keeps_Shown k m (DomainEvent.course_closed c) f rows rows' lt s h =
    handle-keeps_settled c k m lt f rows rows' s h
handle-keeps_Shown k m (DomainEvent.student_subscribed t c) f rows rows' lt s h =
    handle-keeps_settled c k m lt f rows rows' s h
handle-keeps_Shown k m (DomainEvent.student_unsubscribed t c) f rows rows' lt s h =
    handle-keeps_settled c k m lt f rows rows' s h
handle-keeps_Shown k m (DomainEvent.course_renamed c name) f rows rows' lt s h =
    handle-keeps_settled c k m lt f rows rows' s h
handle-keeps_Shown k m (DomainEvent.student_registered t name) f rows rows' lt s h = tt

-- The rows after the events, for those that do not panic.
handle_all-keeps_Shown :
    (k lo : EventId) (e : DomainEvent) (es : List (PersistedEvent DomainEvent)) (rows rows' : Rows)
    → k ≤ lo
    → Increasing lo es
    → Shown k e rows
    → handle_all rows es ≡ some rows'
    → Shown k e rows'
handle_all-keeps_Shown k lo e [] rows rows' le inc s h =
    let eq : rows ≡ rows' = ground (arith, h) in rw eq at s
handle_all-keeps_Shown k lo e (f ∷ es) rows rows' le (lt, inc) s h =
    elim (Option-cases (handle rows f)) [
      | inl o ↦ absurd (ground (arith, h, o))
      | inr (next, o) ↦
          let h' = rw o at h in
          handle_all-keeps_Shown k f.id e es next rows' (omega (arith, le, lt)) inc
            (handle-keeps_Shown k f.id e f.event rows next (omega (arith, le, lt)) s o) h'
    ]

AllShown : List (PersistedEvent DomainEvent) → Rows → Type 0
AllShown es rows = All (λ e. Shown e.id e.event rows) es

handle_all-AllShown :
    (lo : EventId) (es : List (PersistedEvent DomainEvent)) (rows rows' : Rows)
    → Increasing lo es
    → handle_all rows es ≡ some rows'
    → AllShown es rows'
unfolding AllShown
handle_all-AllShown lo [] rows rows' inc h = tt
handle_all-AllShown lo (e ∷ es) rows rows' (lt, inc) h = elim (Option-cases (handle rows e)) [
  | inl o ↦ absurd (ground (arith, h, o))
  | inr (next, o) ↦
      let h' = rw o at h in
      (
        handle_all-keeps_Shown e.id e.id e.event es next rows' (omega arith) inc
            (handle-Shown e.id e.event rows next o) h',
        handle_all-AllShown e.id es next rows' inc h',
      )
]

AllShown-handle_all :
    (es zs : List (PersistedEvent DomainEvent)) (rows : Rows)
    → AllShown es rows
    → handle_all rows (es ++ zs) ≡ handle_all rows zs
unfolding AllShown
AllShown-handle_all [] zs rows s = refl
AllShown-handle_all (e ∷ es) zs rows (shown, s) =
    rw (Shown-handle e.id e.event rows shown) (AllShown-handle_all es zs rows s)

handle_all-append :
    (es zs : List (PersistedEvent DomainEvent)) (rows : Rows)
    → handle_all rows (es ++ zs) ≡ (handle_all rows es >>= λ rows'. handle_all rows' zs)
handle_all-append [] zs rows = refl
handle_all-append (e ∷ es) zs rows = elim (Option-cases (handle rows e)) [
  | inl o ↦ rw o refl
  | inr (next, o) ↦ rw o (handle_all-append es zs next)
]

-- A part of the log, in the order of its ids, that is delivered to the read model twice changes nothing
-- the second time, whatever the rows are and whatever follows, a panic included.
pub handle_all-redelivered :
    (lo : EventId) (es zs : List (PersistedEvent DomainEvent)) (rows : Rows)
    → Increasing lo es
    → handle_all rows (es ++ (es ++ zs)) ≡ handle_all rows (es ++ zs)
handle_all-redelivered lo es zs rows inc =
    rw (handle_all-append es (es ++ zs) rows, handle_all-append es zs rows)
      (elim (Option-cases (handle_all rows es)) [
        | inl o ↦ rw o refl
        | inr (rows', o) ↦
            rw o (AllShown-handle_all es zs rows' (handle_all-AllShown lo es rows rows' inc o))
      ])
