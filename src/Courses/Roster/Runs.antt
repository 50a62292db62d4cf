-- ===== src/Courses/Roster/Runs.antt =====
-- About logs that the roster takes event by event, and the states of examples/courses/src/domain that
-- follow them.
use disintegrate.Prelude.{
  ◌≡◌, refl, Option, some, List, [], ◌∷◌, ◌++◌, eq_iff, arith, length-append,
}
use disintegrate.State.{StateMutate}
use disintegrate.Courses.{DomainEvent}
use disintegrate.Courses.Streams.{courses_event}
use disintegrate.Courses.Roster.{Roster, after, after_all, Legal, IsSafe, courses_of}
use disintegrate.Courses.Roster.Counting.{
  enrolled-enter, enrolled-leave, times-enter, times-leave, courses_of-enter, courses_of-leave_le,
}
use disintegrate.Testing.Follow.{take, follow}
use disintegrate.Courses.Roster.Agreement.{Keeps}

pub after-IsSafe : (r : Roster) (e : DomainEvent) → IsSafe r → Legal r e → IsSafe (after r e)
after-IsSafe r (DomainEvent.course_created c name seats) safe (new, fits) = record {
  seated = λ d. ground (arith, safe.seated d, safe.opened d, eq_iff c d);
  fits = λ d. ground (arith, safe.fits d);
  opened = λ d. ground (arith, safe.opened d);
  once = safe.once;
  few = safe.few;
}
after-IsSafe r (DomainEvent.course_closed c) safe l = record {
  seated = safe.seated;
  fits = safe.fits;
  opened = safe.opened;
  once = safe.once;
  few = safe.few;
}
after-IsSafe r (DomainEvent.course_renamed c name) safe l = safe
after-IsSafe r (DomainEvent.student_registered s name) safe l = record {
  seated = safe.seated;
  fits = safe.fits;
  opened = safe.opened;
  once = safe.once;
  few = safe.few;
}
after-IsSafe r (DomainEvent.student_subscribed s c) safe (known, unlocked, room, new, few) =
    record {
      seated = λ d. ground (arith, safe.seated d, enrolled-enter s c d r.members, eq_iff c d);
      fits = safe.fits;
      opened = safe.opened;
      once = λ t d.
          ground (arith, safe.once t d, times-enter s t c d r.members, eq_iff c d, eq_iff s t);
      few = λ t. ground (
        arith,
        safe.few t,
        courses_of-enter s t c r.members,
        eq_iff s t,
        length-append (courses_of t r.members) (c ∷ []),
      );
    }
after-IsSafe r (DomainEvent.student_unsubscribed s c) safe l = record {
  seated = λ d. omega (arith, safe.seated d, enrolled-leave s c d r.members);
  fits = safe.fits;
  opened = safe.opened;
  once = λ t d. ground (arith, safe.once t d, times-leave s t c d r.members);
  few = λ t. omega (arith, safe.few t, courses_of-leave_le s t c r.members);
}

-- A log that the roster takes event by event.
abbrev pub LegalRun : Roster → List DomainEvent → Type 0
LegalRun r [] = Unit
LegalRun r (e ∷ es) = Legal r e × LegalRun (after r e) es

pub LegalRun-append :
    (r : Roster) (es : List DomainEvent) (e : DomainEvent)
    → LegalRun r es
    → Legal (after_all r es) e
    → LegalRun r (es ++ e ∷ [])
LegalRun-append r [] e run l = (l, tt)
LegalRun-append r (d ∷ es) e run l = (run.0, LegalRun-append (after r d) es e run.1 l)

pub LegalRun-IsSafe :
    (r : Roster) (es : List DomainEvent) → IsSafe r → LegalRun r es → IsSafe (after_all r es)
LegalRun-IsSafe r [] safe run = safe
LegalRun-IsSafe r (e ∷ es) safe run =
    LegalRun-IsSafe (after r e) es (after-IsSafe r e safe run.0) run.1

-- A state whose step keeps an agreement with the roster shows it after any legal run.
pub follow-agrees :
    {S QE : Type 0} (sm : StateMutate S QE DomainEvent) (A : Roster → S → Type 0)
    (step : S → DomainEvent → Option S)
    (is_step : (s : S) (e : DomainEvent) → take sm courses_event s e ≡ step s e)
    → Keeps A step
    → (r : Roster) (s : S) (es : List DomainEvent) → IsSafe r
    → LegalRun r es
    → A r s
    → (s' : S) × (follow sm courses_event s es ≡ some s') × A (after_all r es) s'
follow-agrees sm A step is_step keeps r s [] safe run a = (s, refl, a)
follow-agrees sm A step is_step keeps r s (e ∷ es) safe run a =
    let (s', ran, a') = keeps r s e safe run.0 a in
    let (s'', ran', a'') =
      follow-agrees sm A step is_step keeps (after r e) s' es (after-IsSafe r e safe run.0) run.1
        a' in
    (s'', rw (is_step s e, ran) ran', a'')
