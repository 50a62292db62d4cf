-- ===== src/State/Counters.antt =====
-- About the counters of applied events in the state parts of disintegrate/src/state.rs: what a part does
-- does not depend on its counter, which a snapshot does not keep.
use disintegrate.Prelude.{
  ◌≡◌, refl, sym, ap, ap₂, ◌∙◌, Option, none, some, List, [], ◌∷◌, ◌>>=◌, max, Bool-cases,
  Option-cases, inl, inr,
}
use disintegrate.Event.{Event, PersistedEvent}
use disintegrate.State.{
  StateMutate, StatePart, MultiState, single, pair, mutate_each, mutate_matching, mutate_part,
  matches_event, query_part,
}

abbrev pub map_some : {A B : Type 0} → (A → B) → Option A → Option B
map_some f o = o >>= λ a. some (f a)

-- The parts without their counters, and that they do not matter.
pub record Forgets {S M E : Type 0} (ms : MultiState S M E) : Type 0 where
  pub forget : M → M
  pub into_state : (m : M) → ms.into_state (forget m) ≡ ms.into_state m
  pub version : (m : M) → ms.version (forget m) ≡ ms.version m
  pub mutate_all :
      (m : M) (e : PersistedEvent E)
      → map_some forget (ms.mutate_all (forget m) e) ≡ map_some forget (ms.mutate_all m e)

module _ {S QE E : Type 0} (sm : StateMutate S QE E) (ev : Event E) where
  abbrev pub forget_part : StatePart S → StatePart S
  forget_part p = record p { applied_events = 0 }

  mutate_matching-forget :
      (p : StatePart S) (e : PersistedEvent E)
      → map_some forget_part (mutate_matching sm ev (forget_part p) e)
        ≡ map_some forget_part (mutate_matching sm ev p e)
  unfolding mutate_matching matches_event mutate_part query_part
  mutate_matching-forget p e = elim (Bool-cases (matches_event sm ev p e)) [
    | inr n ↦ rw n refl
    | inl y ↦ rw y (elim (Option-cases (sm.try_into e.event)) [
      | inl o ↦ rw o refl
      | inr (qe, o) ↦ rw o (elim (Option-cases (sm.mutate p.inner qe)) [
        | inl o' ↦ rw o' refl
        | inr (s, o') ↦ rw o' refl
      ])
    ])
  ]

  unfoldable pub single-Forgets : Forgets (single sm ev)
  unfolding single mutate_matching-forget
  single-Forgets = record {
    forget = forget_part;
    into_state = λ p. refl;
    version = λ p. refl;
    mutate_all = mutate_matching-forget;
  }

module _ {S M S' QE E : Type 0} (ms : MultiState S M E) (sm : StateMutate S' QE E) (ev : Event E)
    (fs : Forgets ms) where
  abbrev forget_pair : M × StatePart S' → M × StatePart S'
  forget_pair (m, p) = (fs.forget m, forget_part sm ev p)

  both : Option M → Option (StatePart S') → Option (M × StatePart S')
  both o o' = o >>= λ m. o' >>= λ p. some (m, p)

  both-forget :
      (o : Option M) (o' : Option (StatePart S'))
      → map_some forget_pair (both o o')
        ≡ both (map_some fs.forget o) (map_some (forget_part sm ev) o')
  unfolding both
  both-forget none o' = refl
  both-forget (some m) none = refl
  both-forget (some m) (some p) = refl

  unfoldable pub pair-Forgets : Forgets (pair ms sm ev)
  unfolding pair both both-forget mutate_matching-forget
  pair-Forgets = record {
    forget = forget_pair;
    into_state = λ (m, p). ap (λ s. (s, p.inner)) (fs.into_state m);
    version = λ (m, p). ap (λ v. max p.version v) (fs.version m);
    mutate_all = λ (m, p) e.
        both-forget (ms.mutate_all (fs.forget m) e) (mutate_matching sm ev (forget_part sm ev p) e)
        ∙ ap₂ both (fs.mutate_all m e) (mutate_matching-forget sm ev p e)
        ∙ sym (both-forget (ms.mutate_all m e) (mutate_matching sm ev p e));
  }

module _ {S M E : Type 0} (ms : MultiState S M E) (fs : Forgets ms) where
  next-forget :
      (m m' : M) (e : PersistedEvent E)
      → fs.forget m ≡ fs.forget m'
      → map_some fs.forget (ms.mutate_all m e) ≡ map_some fs.forget (ms.mutate_all m' e)
  next-forget m m' e same =
      sym (fs.mutate_all m e)
      ∙ ap (λ x. map_some fs.forget (ms.mutate_all x e)) same
      ∙ fs.mutate_all m' e

  -- Parts that differ in their counters alone still do so after the same events.
  pub mutate_each-forget :
      (m m' : M) (es : List (PersistedEvent E))
      → fs.forget m ≡ fs.forget m'
      → map_some fs.forget (mutate_each ms m es) ≡ map_some fs.forget (mutate_each ms m' es)
  unfolding mutate_each
  mutate_each-forget m m' [] same = ap some same
  mutate_each-forget m m' (e ∷ es) same =
      let step = next-forget m m' e same in
      elim (Option-cases (ms.mutate_all m e)) [
        | inl o ↦ elim (Option-cases (ms.mutate_all m' e)) [
          | inl o' ↦ rw (o, o') refl
          | inr (x', o') ↦ absurd (cc (rw (o, o') at step))
        ]
        | inr (x, o) ↦ elim (Option-cases (ms.mutate_all m' e)) [
          | inl o' ↦ absurd (cc (rw (o, o') at step))
          | inr (x', o') ↦
              let same' : fs.forget x ≡ fs.forget x' = cc (rw (o, o') at step) in
              rw (o, o') (mutate_each-forget x x' es same')
        ]
      ]
