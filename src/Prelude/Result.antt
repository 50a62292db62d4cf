-- ===== src/Prelude/Result.antt =====
-- Results of fallible calls; `panicked` is an `unwrap` or a `panic!` that fired.
use mathlib.Core.Option.{Option, none, some}

pub data Result {ℓ} (A X : Type ℓ) : Type ℓ where
  ok : A → Result A X
  err : X → Result A X
  panicked : Result A X

infixl 5 ◌>>=◌
abbrev pub ◌>>=◌ {ℓ} : {A B X : Type ℓ} → Result A X → (A → Result B X) → Result B X
panicked >>= next = panicked
err x >>= next = err x
ok a >>= next = next a

abbrev pub map_err {ℓ} : {A X Y : Type ℓ} → (X → Y) → Result A X → Result A Y
map_err f panicked = panicked
map_err f (err x) = err (f x)
map_err f (ok a) = ok a

-- `unwrap`
abbrev pub unwrap {ℓ} : {A X : Type ℓ} → Option A → Result A X
unwrap none = panicked
unwrap (some a) = ok a
