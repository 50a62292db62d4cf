-- ===== src/Courses/Roster/Counting.antt =====
-- About the members of a roster: what entering and leaving a course does to their numbers.
use disintegrate.Prelude.{
  ◌+◌, ◌≡◌, ◌↔◌, refl, ◌≤◌, ◌<◌, true, false, some, [], ◌∷◌, ◌++◌, any, length, ◌==◌, eq_iff,
  if◌then◌else◌, arith, ◌&&◌,
}
use disintegrate.Courses.{CourseId, StudentId}
use disintegrate.Courses.Subscription.{remove_first}
use disintegrate.Courses.Roster.{Members, courses_of, enrolled, times, leave, enter}

pub enrolled-enter :
    (s : StudentId) (c d : CourseId) (ms : Members)
    → enrolled d (enter s c ms) ≡ enrolled d ms + (if c == d then 1 else 0)
enrolled-enter s c d [] = omega arith
enrolled-enter s c d (m ∷ ms) = omega (arith, enrolled-enter s c d ms)

pub times-enter :
    (s t : StudentId) (c d : CourseId) (ms : Members)
    → times t d (enter s c ms) ≡ times t d ms + (if s == t && c == d then 1 else 0)
times-enter s t c d [] = omega arith
times-enter s t c d (m ∷ ms) = omega (arith, times-enter s t c d ms)

pub courses_of-enter :
    (s t : StudentId) (c : CourseId) (ms : Members)
    → courses_of t (enter s c ms) ≡ (if s == t then courses_of t ms ++ c ∷ [] else courses_of t ms)
courses_of-enter s t c [] = ground arith
courses_of-enter s t c ((u, d) ∷ ms) = ground (arith, courses_of-enter s t c ms)

pub enrolled-leave :
    (s : StudentId) (c d : CourseId) (ms : Members)
    → enrolled d (leave s c ms) + (if c == d then times s c ms else 0) ≡ enrolled d ms
enrolled-leave s c d [] = ground arith
enrolled-leave s c d ((u, b) ∷ ms) =
    ground (arith, enrolled-leave s c d ms, eq_iff b c, eq_iff b d, eq_iff c d)

pub times-leave :
    (s t : StudentId) (c d : CourseId) (ms : Members)
    → times t d (leave s c ms) ≡ (if s == t && c == d then 0 else times t d ms)
times-leave s t c d [] = ground arith
times-leave s t c d ((u, b) ∷ ms) = ground (
  arith,
  times-leave s t c d ms,
  eq_iff u s,
  eq_iff u t,
  eq_iff s t,
  eq_iff b c,
  eq_iff b d,
  eq_iff c d,
)

-- Another student keeps its courses.
pub courses_of-leave_other :
    (s t : StudentId) (c : CourseId) (ms : Members)
    → (s == t) ≡ false
    → courses_of t (leave s c ms) ≡ courses_of t ms
courses_of-leave_other s t c [] h = refl
courses_of-leave_other s t c ((u, b) ∷ ms) h =
    ground (arith, courses_of-leave_other s t c ms h, eq_iff u s, eq_iff u t, eq_iff s t)

courses_of-leave_absent :
    (s : StudentId) (c : CourseId) (ms : Members)
    → times s c ms ≡ 0
    → courses_of s (leave s c ms) ≡ courses_of s ms
courses_of-leave_absent s c [] h = refl
courses_of-leave_absent s c ((u, b) ∷ ms) h = ground (arith, courses_of-leave_absent s c ms)

-- A student with one seat on a course leaves it, as the first removal does.
pub remove_first-courses_of :
    (s : StudentId) (c : CourseId) (ms : Members)
    → times s c ms ≡ 1
    → remove_first c (courses_of s ms) ≡ some (courses_of s (leave s c ms))
unfolding remove_first
remove_first-courses_of s c [] h = absurd (omega (arith, h))
remove_first-courses_of s c ((u, b) ∷ ms) h =
    ground (arith, remove_first-courses_of s c ms, courses_of-leave_absent s c ms)

pub any-courses_of :
    (s : StudentId) (c : CourseId) (ms : Members)
    → (any (λ d. d == c) (courses_of s ms) ≡ true) ↔ (0 < times s c ms)
any-courses_of s c [] = ground arith
any-courses_of s c ((u, b) ∷ ms) = ground (arith, any-courses_of s c ms)

pub courses_of-leave_le :
    (s t : StudentId) (c : CourseId) (ms : Members)
    → length (courses_of t (leave s c ms)) ≤ length (courses_of t ms)
courses_of-leave_le s t c [] = omega arith
courses_of-leave_le s t c ((u, b) ∷ ms) = ground (arith, courses_of-leave_le s t c ms)
