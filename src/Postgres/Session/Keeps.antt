-- ===== src/Postgres/Session/Keeps.antt =====
-- What a statement of a client leaves to the others: the rows of `event_sequence`.
use disintegrate.Prelude.{
  ℕ, ◌≤◌, ◌<◌, ◌≡◌, refl, ap, Bool, true, false, not, ◌||◌, ◌⊎◌, inl, inr, some, List, [], ◌∷◌,
  ◌++◌, map, All, All-append, eqb, arith, Bool-cases,
}
use disintegrate.Event.{EventId, Event}
use disintegrate.Postgres.Criteria.{Group}
use disintegrate.Postgres.Append.{
  SequenceRow, Database, is_updated, consume, update_rows, stage, commit_row,
}
use disintegrate.Postgres.Append.Rows.{
  Has, Has-update_rows, updated_unconsumed, update_rows-All, AllSound, IsSound-Has,
}

-- Every row with the id is consumed.
abbrev pub Spent : List SequenceRow → EventId → Type 0
Spent rows id = All (λ r. (not (eqb r.row.event_id id) || eqb r.consumed 1) ≡ true) rows

-- The rows stay, with their values, those that are committed or consumed too, and new ones take new ids.
pub record Keeps {E : Type 0} (db db' : Database E) : Type 0 where
  pub grows : db.next_id ≤ db'.next_id
  pub rows :
      (r : SequenceRow)
      → Has r db.event_sequence
      → (r' : SequenceRow) × Has r' db'.event_sequence
        × (r'.row ≡ r.row)
        × ((r.committed ≡ false) ⊎ (r'.committed ≡ true))
  pub spent :
      (id : EventId) → id < db.next_id → Spent db.event_sequence id → Spent db'.event_sequence id

pub Has-append : (r : SequenceRow) (rows new : List SequenceRow) → Has r rows → Has r (rows ++ new)
Has-append r [] new here = absurd here
Has-append r (x ∷ rows) new (inl same) = inl same
Has-append r (x ∷ rows) new (inr later) = inr (Has-append r rows new later)

pub Has-append_last : (r : SequenceRow) (rows : List SequenceRow) → Has r (rows ++ r ∷ [])
Has-append_last r [] = inl refl
Has-append_last r (x ∷ rows) = inr (Has-append_last r rows)

pub Has-map :
    (f : SequenceRow → SequenceRow) (r : SequenceRow) (rows : List SequenceRow)
    → Has r rows
    → Has (f r) (map f rows)
Has-map f r [] here = absurd here
Has-map f r (x ∷ rows) (inl same) = inl (ap f same)
Has-map f r (x ∷ rows) (inr later) = inr (Has-map f r rows later)

pub All-map :
    (P Q : SequenceRow → Type 0) (f : SequenceRow → SequenceRow) (rows : List SequenceRow)
    → ((r : SequenceRow) → P r → Q (f r))
    → All P rows
    → All Q (map f rows)
All-map P Q f [] kept h = tt
All-map P Q f (r ∷ rows) kept h = (kept r h.0, All-map P Q f rows kept h.1)

kept_flag : (b : Bool) → (b ≡ false) ⊎ (b ≡ true)
kept_flag true = inr refl
kept_flag false = inl refl

module _ {E : Type 0} where
  pub Keeps-refl :
      (db db' : Database E)
      → db'.next_id ≡ db.next_id
      → db'.event_sequence ≡ db.event_sequence
      → Keeps db db'
  Keeps-refl db db' n s = record {
    grows = omega arith;
    rows = λ r here. (r, rw s here, refl, kept_flag r.committed);
    spent = λ id lt h. rw s h;
  }

  pub update-Keeps :
      (ids : List EventId) (last : EventId) (gs : List Group) (db db' : Database E)
      → AllSound db.event_sequence
      → db'.next_id ≡ db.next_id
      → update_rows ids last gs db.event_sequence ≡ some db'.event_sequence
      → Keeps db db'
  update-Keeps ids last gs db db' sound n passes = record {
    grows = omega arith;
    rows = λ r here.
        let after =
          Has-update_rows ids last gs r db.event_sequence db'.event_sequence passes here in
        let s = IsSound-Has r db.event_sequence sound here in
        elim (Bool-cases (is_updated ids last gs r)) [
          | inr m ↦ (r, rw m at after, refl, kept_flag r.committed)
          | inl y ↦
              let fresh =
                updated_unconsumed ids last gs r db.event_sequence db'.event_sequence passes here
                  y in
              (consume ids last gs r, rw y at after, refl, ground (arith, s.spent))
        ];
    spent = λ id lt h.
        update_rows-All ids last gs (λ r. (not (eqb r.row.event_id id) || eqb r.consumed 1) ≡ true)
          (λ r fresh p. ground arith) db.event_sequence db'.event_sequence h passes;
  }

  module _ (ev : Event E) where
    pub stage-Keeps :
        (consumed : ℕ) (db : Database E) (event : E) → Keeps db (stage ev consumed db event).0
    unfolding stage
    stage-Keeps consumed db event = record {
      grows = omega arith;
      rows = λ r here. (r, Has-append r db.event_sequence _ here, refl, kept_flag r.committed);
      spent = λ id lt h. All-append _ db.event_sequence _ h (ground arith, tt);
    }

    pub commit_row-row : (ids : List EventId) (r : SequenceRow) → (commit_row ev ids r).row ≡ r.row
    commit_row-row ids r = ground arith

    commit-Keeps_rows :
        (ids : List EventId) (r : SequenceRow)
        → (r.committed ≡ false) ⊎ ((commit_row ev ids r).committed ≡ true)
    commit-Keeps_rows ids r = ground (arith, kept_flag r.committed)

    pub commit-Keeps :
        (ids : List EventId) (db db' : Database E)
        → db'.next_id ≡ db.next_id
        → db'.event_sequence ≡ map (commit_row ev ids) db.event_sequence
        → Keeps db db'
    commit-Keeps ids db db' n s = record {
      grows = omega arith;
      rows = λ r here. (
        commit_row ev ids r,
        rw s (Has-map (commit_row ev ids) r db.event_sequence here),
        commit_row-row ids r,
        commit-Keeps_rows ids r,
      );
      spent = λ id lt h.
          rw s (All-map _ _ (commit_row ev ids) db.event_sequence (λ r p. ground arith) h);
    }
