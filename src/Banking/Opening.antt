-- ===== src/Banking/Opening.antt =====
-- About `OpenAccount` of examples/banking/src/domain.rs, made on a store with other clients.
use disintegrate.Prelude.{
  ◌≤◌, ◌<◌, ◌≡◌, refl, ap, sym, ◌∙◌, Bool, true, false, Option, some, List, [], ◌∷◌, ◌++◌, any,
  arith, ◌>>=◌ as option_bind, Bool-cases, Option-cases, inl, inr,
}
use disintegrate.Prelude.Int.{eqb_ℤ, eqb_ℤ_iff}
use disintegrate.Prelude.Result.{ok}
use disintegrate.Event.{EventId, PersistedEvent}
use disintegrate.Identifier
use disintegrate.Stream.Filter
use disintegrate.Stream.Query
use disintegrate.State.{
  StatePart, MultiState, single, matches_event, mutate_matching, mutate_each, query_part, new,
}
use disintegrate.State.Part.{
  matches_event-eq, mutate_matching_skip, mutate_matching_match, mutate_part_inv,
}
use disintegrate.State.Multi.{IsLawful, single-IsLawful}
use disintegrate.EventStore.{EventStore, KeepsLog, Increasing}
use disintegrate.StateStore.Replay.{version-mutate_all}
use disintegrate.Decision.{make}
use disintegrate.Decision.Serial.{make_serial}
use disintegrate.Banking.{
  AccountId, DomainEvent, AccountStateEvent, AccountState, banking_event, account_state,
  mutate_state, open_account,
}
use disintegrate.Banking.Laws.{account_state-KeepsQuery, mutate_state-account_id}

abbrev accounts : MultiState AccountState (StatePart AccountState) DomainEvent
accounts = single account_state banking_event

accounts-IsLawful : IsLawful accounts banking_event
accounts-IsLawful = single-IsLawful account_state banking_event account_state-KeepsQuery

-- The event opens the account.
abbrev pub opens : AccountId → DomainEvent → Bool
opens id (DomainEvent.account_opened a) = eqb_ℤ a id
opens id _ = false

mutate_state_opened :
    (s : AccountState) (e : AccountStateEvent) → s.opened ≡ true → (mutate_state s e).opened ≡ true
unfolding mutate_state
mutate_state_opened s (AccountStateEvent.account_opened id) h = refl
mutate_state_opened s (AccountStateEvent.account_closed id) h = h

-- A step keeps the account of a part, and that it is open.
step_keeps :
    (p p' : StatePart AccountState) (e : PersistedEvent DomainEvent)
    → mutate_matching account_state banking_event p e ≡ some p'
    → (p'.inner.account_id ≡ p.inner.account_id) × (p.inner.opened ≡ true → p'.inner.opened ≡ true)
step_keeps p p' e h = elim (Bool-cases (matches_event account_state banking_event p e)) [
  | inr n ↦
      let same : p ≡ p' = cc (h, mutate_matching_skip account_state banking_event p e n) in
      rw (← same) (refl, λ o. o)
  | inl y ↦
      let (qe, known, step, count) =
        mutate_part_inv account_state banking_event p p' e
          (sym (mutate_matching_match account_state banking_event p e y) ∙ h) in
      let result : mutate_state p.inner qe ≡ p'.inner = ground arith in
      rw (← result) (mutate_state-account_id p.inner qe, mutate_state_opened p.inner qe)
]

-- The event that opens the account of a part is seen by it.
opening_matches :
    (p : StatePart AccountState) (n : EventId) (a : AccountId)
    → a ≡ p.inner.account_id
    → p.version < n
    → matches_event account_state banking_event p
        (record { id = n; event = DomainEvent.account_opened a })
      ≡ true
opening_matches p n a same lt =
    matches_event-eq account_state banking_event p
      (record { id = n; event = DomainEvent.account_opened a })
    ∙ (unfold query_part Query.matches Query.change_origin Query.query Filter.matches
          Filter.change_origin Filter.cast Filter.new Identifier.get in
        ground (arith, eqb_ℤ_iff a p.inner.account_id))

-- A step at an event that opens the account leaves the part open.
opening_seen :
    (p p' : StatePart AccountState) (n : EventId) (event : DomainEvent)
    → opens p.inner.account_id event ≡ true
    → p.version < n
    → mutate_matching account_state banking_event p (record { id = n; event = event }) ≡ some p'
    → p'.inner.opened ≡ true
opening_seen p p' n (DomainEvent.account_opened a) here lt h =
    let mine : a ≡ p.inner.account_id = (eqb_ℤ_iff a p.inner.account_id).0 here in
    let hit = opening_matches p n a mine lt in
    let e : PersistedEvent DomainEvent = record { id = n; event = DomainEvent.account_opened a } in
    let (qe, known, step, count) =
      mutate_part_inv account_state banking_event p p' e
        (sym (mutate_matching_match account_state banking_event p e hit) ∙ h) in
    let kind : AccountStateEvent.account_opened a ≡ qe = ground arith in
    let result : mutate_state p.inner qe ≡ p'.inner = ground arith in
    rw (← result, ← kind) (unfold mutate_state in refl)
opening_seen p p' n (DomainEvent.account_closed a) here lt h = absurd (ground arith)
opening_seen p p' n (DomainEvent.transfer_sent a to amount) here lt h = absurd (ground arith)
opening_seen p p' n (DomainEvent.transfer_received a source amount) here lt h =
    absurd (ground arith)
opening_seen p p' n (DomainEvent.amount_deposited a amount) here lt h = absurd (ground arith)
opening_seen p p' n (DomainEvent.amount_withdrawn a amount) here lt h = absurd (ground arith)

-- The rest of a run, after a step.
abbrev run_after :
    List (PersistedEvent DomainEvent)
    → Option (StatePart AccountState)
    → Option (StatePart AccountState)
run_after log o = option_bind o λ p. mutate_each accounts p log

-- A part that is open stays open over a run.
run_keeps :
    (p p' : StatePart AccountState) (log : List (PersistedEvent DomainEvent))
    → mutate_each accounts p log ≡ some p'
    → p.inner.opened ≡ true
    → p'.inner.opened ≡ true
unfolding mutate_each single
run_keeps p p' [] h o = let same : p ≡ p' = cc h in rw (← same) o
run_keeps p p' (e ∷ log) h o =
    elim (Option-cases (mutate_matching account_state banking_event p e)) [
      | inl panics ↦ absurd (cc (ap (run_after log) panics, h))
      | inr (p₁, step) ↦
          let rest = sym (ap (run_after log) step) ∙ h in
          run_keeps p₁ p' log rest ((step_keeps p p₁ e step).1 o)
    ]

-- A replay that ends with an account that is not open has met no event that opens it.
pub unopened_log :
    (p p' : StatePart AccountState) (lo : EventId) (log : List (PersistedEvent DomainEvent))
    → mutate_each accounts p log ≡ some p'
    → p.version ≤ lo
    → Increasing lo log
    → p'.inner.opened ≡ false
    → any (λ e. opens p.inner.account_id e.event) log ≡ false
unfolding mutate_each single
unopened_log p p' lo [] h le inc closed = refl
unopened_log p p' lo (e ∷ log) h le inc closed =
    elim (Option-cases (mutate_matching account_state banking_event p e)) [
      | inl panics ↦ absurd (cc (ap (run_after log) panics, h))
      | inr (p₁, step) ↦
          let rest = sym (ap (run_after log) step) ∙ h in
          let later =
            unopened_log p₁ p' e.id log rest
              (version-mutate_all accounts banking_event accounts-IsLawful p p₁ e step
                (omega arith))
              inc.1 closed in
          let same = (step_keeps p p₁ e step).0 in
          elim (Bool-cases (opens p.inner.account_id e.event)) [
            | inl y ↦ absurd (
                cc (
                  run_keeps p₁ p' log rest (opening_seen p p₁ e.id e.event y (omega arith) step),
                  closed,
                ))
            | inr n ↦ rw n (rw same at later)
          ]
    ]

module _ {St Y : Type 0} (es : EventStore St DomainEvent Y) (k : KeepsLog es banking_event) where
  opening_inv :
      (id : AccountId) (s : AccountState) (events : List DomainEvent)
      → (open_account id).process s ≡ ok events
      → (s.opened ≡ false) × (events ≡ DomainEvent.account_opened id ∷ [])
  unfolding open_account
  opening_inv id s events h = (ground arith, ground arith)

  -- If the decision to open an account succeeds, on a store that keeps its log and while other
  -- clients only add to the log, no event of the log at the time of the append has
  -- opened the account, the events of other clients since the load included.
  pub open_once :
      (id : AccountId) (between : St → St) (st st' : St)
      (zs persisted : List (PersistedEvent DomainEvent))
      → k.log (between st) ≡ k.log st ++ zs
      → make accounts es (open_account id) between st ≡ (st', ok persisted)
      → (any (λ e. opens id e.event) (k.log (between st)) ≡ false)
        × (k.log st' ≡ k.log (between st) ++ persisted)
  unfolding new
  open_once id between st st' zs persisted grown made =
      let m =
        make_serial accounts banking_event accounts-IsLawful es k (open_account id) between st st'
          zs persisted (unfold open_account in refl) grown made in
      let found = opening_inv id m.state.inner m.events (unfold single in m.processed) in
      (
        unopened_log (new 0 (record { account_id = id; opened = false; closed = false })) m.state 0
            (k.log (between st)) (unfold single open_account in m.replayed) (omega arith)
            (k.increasing (between st)) found.0,
        m.logged,
      )
