-- ===== src/Postgres/Append/Rows.antt =====
-- About the `UPDATE` of `append` in disintegrate-postgres/src/event_store.rs.
use disintegrate.Prelude.{
  ℕ, ◌≤◌, ◌<◌, ◌≡◌, refl, true, false, some, List, [], ◌∷◌, All, arith, Bool-cases, Option-cases,
  inl, inr, ◌⊎◌, if◌then◌else◌,
}
use disintegrate.Event.{EventId}
use disintegrate.Postgres.Criteria.{Group}
use disintegrate.Postgres.Append.{SequenceRow, is_updated, consume, update_rows}

-- The check of the table, and that a committed row is consumed.
pub record IsSound (r : SequenceRow) : Type 0 where
  pub checked : r.consumed ≤ 1
  pub spent : (r.committed ≡ false) ⊎ (r.consumed ≡ 1)

abbrev pub AllSound : List SequenceRow → Type 0
AllSound rows = All IsSound rows

-- The row stands in the table.
abbrev pub Has : SequenceRow → List SequenceRow → Type 0
Has r [] = ⊥
Has r (x ∷ rows) = (x ≡ r) ⊎ Has r rows

-- A row that the table has is sound.
pub IsSound-Has :
    (r : SequenceRow) (rows : List SequenceRow) → AllSound rows → Has r rows → IsSound r
IsSound-Has r [] s here = absurd here
IsSound-Has r (x ∷ rows) s (inl same) = rw same at s.0
IsSound-Has r (x ∷ rows) s (inr later) = IsSound-Has r rows s.1 later

module _ (ids : List EventId) (last_event_id : EventId) (gs : List Group) where
  update_rows_inv :
      (r : SequenceRow) (rows rows' : List SequenceRow)
      → update_rows ids last_event_id gs (r ∷ rows) ≡ some rows'
      → (rest : List SequenceRow) × (update_rows ids last_event_id gs rows ≡ some rest)
        × (is_updated ids last_event_id gs r ≡ true → r.consumed ≡ 0)
        × (rows'
            ≡ (if is_updated ids last_event_id gs r then consume ids last_event_id gs r else r)
              ∷ rest)
  unfolding update_rows
  update_rows_inv r rows rows' h = elim (Option-cases (update_rows ids last_event_id gs rows)) [
    | inl fails ↦ absurd (ground arith)
    | inr (rest, goes_on) ↦ (rest, goes_on, ground arith, ground arith)
  ]

  IsSound-update :
      (r : SequenceRow)
      → IsSound r
      → (is_updated ids last_event_id gs r ≡ true → r.consumed ≡ 0)
      → IsSound (if is_updated ids last_event_id gs r then consume ids last_event_id gs r else r)
  IsSound-update r s fresh = elim (Bool-cases (is_updated ids last_event_id gs r)) [
    | inl y ↦
        rw y (record { checked = omega (arith, fresh y); spent = inr (omega (arith, fresh y)) })
    | inr n ↦ rw n s
  ]

  -- What holds of every row as the update leaves it.
  pub update_rows_each :
      (P : SequenceRow → Type 0)
      → ((r : SequenceRow)
          → IsSound r
          → (is_updated ids last_event_id gs r ≡ true → r.consumed ≡ 0)
          → P (if is_updated ids last_event_id gs r then consume ids last_event_id gs r else r))
      → (rows rows' : List SequenceRow) → AllSound rows
      → update_rows ids last_event_id gs rows ≡ some rows'
      → All P rows'
  unfolding update_rows
  update_rows_each P left [] rows' s h = let none_left : rows' ≡ [] = cc h in rw none_left tt
  update_rows_each P left (r ∷ rows) rows' s h =
      let (rest, goes_on, fresh, shape) = update_rows_inv r rows rows' h in
      rw shape (left r s.0 fresh, update_rows_each P left rows rest s.1 goes_on)

  -- The update keeps the rows sound.
  pub update_rows-AllSound :
      (rows rows' : List SequenceRow)
      → AllSound rows
      → update_rows ids last_event_id gs rows ≡ some rows'
      → AllSound rows'
  update_rows-AllSound = update_rows_each IsSound IsSound-update

  -- A row that the update reaches was not consumed before.
  pub updated_unconsumed :
      (r : SequenceRow) (rows rows' : List SequenceRow)
      → update_rows ids last_event_id gs rows ≡ some rows'
      → Has r rows
      → is_updated ids last_event_id gs r ≡ true
      → r.consumed ≡ 0
  updated_unconsumed r (x ∷ rows) rows' h (inl same) u =
      let (rest, goes_on, fresh, shape) = update_rows_inv x rows rows' h in
      rw same at (fresh (rw (← same) at u))
  updated_unconsumed r (x ∷ rows) rows' h (inr later) u =
      let (rest, goes_on, fresh, shape) = update_rows_inv x rows rows' h in
      updated_unconsumed r rows rest goes_on later u
  updated_unconsumed r [] rows' h here u = absurd here

  -- The update leaves a row as it is, or consumes it.
  pub Has-update_rows :
      (r : SequenceRow) (rows rows' : List SequenceRow)
      → update_rows ids last_event_id gs rows ≡ some rows'
      → Has r rows
      → Has (if is_updated ids last_event_id gs r then consume ids last_event_id gs r else r) rows'
  Has-update_rows r [] rows' h here = absurd here
  Has-update_rows r (x ∷ rows) rows' h (inl same) =
      let (rest, goes_on, fresh, shape) = update_rows_inv x rows rows' h in
      rw (shape, same) (inl refl)
  Has-update_rows r (x ∷ rows) rows' h (inr later) =
      let (rest, goes_on, fresh, shape) = update_rows_inv x rows rows' h in
      rw shape (inr (Has-update_rows r rows rest goes_on later))

  -- What a consumed row keeps holds after the update.
  pub update_rows-All :
      (P : SequenceRow → Type 0)
      → ((r : SequenceRow) → r.consumed ≡ 0 → P r → P (consume ids last_event_id gs r))
      → (rows rows' : List SequenceRow) → All P rows
      → update_rows ids last_event_id gs rows ≡ some rows'
      → All P rows'
  unfolding update_rows
  update_rows-All P kept [] rows' s h = let none_left : rows' ≡ [] = cc h in rw none_left tt
  update_rows-All P kept (r ∷ rows) rows' s h =
      let (rest, goes_on, fresh, shape) = update_rows_inv r rows rows' h in
      rw shape (elim (Bool-cases (is_updated ids last_event_id gs r)) [
        | inl y ↦ rw y (kept r (fresh y) s.0, update_rows-All P kept rows rest s.1 goes_on)
        | inr n ↦ rw n (s.0, update_rows-All P kept rows rest s.1 goes_on)
      ])

  -- The update keeps the ids of the rows.
  pub update_rows-ids :
      (n : ℕ) (rows rows' : List SequenceRow)
      → All (λ r. r.row.event_id < n) rows
      → update_rows ids last_event_id gs rows ≡ some rows'
      → All (λ r. r.row.event_id < n) rows'
  update_rows-ids n = update_rows-All (λ r. r.row.event_id < n) (λ r fresh h. h)
