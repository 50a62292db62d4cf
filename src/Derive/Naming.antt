-- ===== src/Derive/Naming.antt =====
-- The comparison of the schemas that disintegrate-macros/src/event.rs generates as an order on the
-- identifiers.
use Prim.Native.Char.{code}
use mathlib.Core.List.{Memᴰ}
use mathlib.Core.Path.{subst}
use text.Mathlib.TextEquality.{Char-path}
use disintegrate.Prelude.{
  String, ◌≡◌, ◌↔◌, ◌⊎◌, refl, ap, ap₂, sym, ◌∙◌, Bool, true, false, Option, none, some, List, [],
  ◌∷◌, ◌==◌, eq_iff, eq_refl, All, arith, if◌then◌else◌, Bool-cases, inl, inr,
}
use disintegrate.Identifier.{Identifier, IdentifierType}
use disintegrate.Event.{DomainIdentifierInfo}
use disintegrate.Slices.{less, is_same, compare, has_same, const_slice_unique}
use disintegrate.Slices.Order.{IsOrder, compare-IsOrder}
use disintegrate.Slices.Unique.{Strict, const_slice_unique_lem}
use disintegrate.Slices.Checked.{const_slice_unique_checked}
use disintegrate.Slices.Peaceful.{const_slice_unique_checked_unique}
use disintegrate.Slices.Panics.{StandsFor, const_slice_unique_checked-some}
use disintegrate.Derive.{into_inner, type_eq, compare_infos, inconsistent}

pub compare_infos-IsOrder : IsOrder compare_infos
compare_infos-IsOrder = record {
  flips = λ a b. compare-IsOrder.flips (into_inner a.ident) (into_inner b.ident);
  reflexive = λ a. compare-IsOrder.reflexive (into_inner a.ident);
  transitive = λ a b c.
      compare-IsOrder.transitive (into_inner a.ident) (into_inner b.ident) (into_inner c.ident);
}

compare-into_inner : (s t : String) → is_same (compare (into_inner s) (into_inner t)) ≡ true → s ≡ t
unfolding compare into_inner
compare-into_inner String.[] String.[] h = refl
compare-into_inner String.[] (String.◌∷◌ d t) h = absurd (ground arith)
compare-into_inner (String.◌∷◌ c s) String.[] h = absurd (ground arith)
compare-into_inner (String.◌∷◌ c s) (String.◌∷◌ d t) h =
    let one : code c ≡ code d = ground arith in
    let rest : is_same (compare (into_inner s) (into_inner t)) ≡ true = ground arith in
    ap₂ String.◌∷◌ (Char-path c d one) (compare-into_inner s t rest)

-- Two infos compare as the same exactly when their identifiers are equal.
pub same_ident : (a b : DomainIdentifierInfo) → is_same (compare_infos a b) ≡ (a.ident == b.ident)
same_ident a b = elim (Bool-cases (a.ident == b.ident)) [
  | inl eq ↦
      let equal : a.ident ≡ b.ident = (eq_iff a.ident b.ident).0 eq in
      rw (equal, eq_refl b.ident, compare-IsOrder.reflexive (into_inner b.ident)) refl
  | inr ne ↦ elim (Bool-cases (is_same (compare_infos a b))) [
    | inr apart ↦ apart ∙ sym ne
    | inl eq ↦
        absurd (ground (arith, compare-into_inner a.ident b.ident eq, eq_iff a.ident b.ident))
  ]
]

pub type_eq_iff : (s t : IdentifierType) → (type_eq s t ≡ true) ↔ (s ≡ t)
type_eq_iff IdentifierType.string IdentifierType.string = ground arith
type_eq_iff IdentifierType.i64 IdentifierType.i64 = ground arith
type_eq_iff IdentifierType.uuid IdentifierType.uuid = ground arith
type_eq_iff _ _ = ground arith

abbrev pub is_some {ℓ} : {A : Type ℓ} → Option A → Bool
is_some none = false
is_some (some a) = true

-- The type that a schema gives to an identifier.
abbrev pub find_type : List DomainIdentifierInfo → Identifier → Option IdentifierType
find_type [] k = none
find_type (a ∷ rest) k =
    let found = find_type rest k in if a.ident == k then some a.type_info else found

All-Mem {ℓ κ} : {A : Type ℓ} (P : A → Type κ) (xs : List A) (a : A) → All P xs → Memᴰ a xs → P a
All-Mem P [] a h m = elim m [ ]
All-Mem P (x ∷ xs) a h (Memᴰ.head eq) = subst P (sym eq) h.0
All-Mem P (x ∷ xs) a h (Memᴰ.tail m) = All-Mem P xs a h.1 m

find_type-Mem :
    (a : DomainIdentifierInfo) (xs : List DomainIdentifierInfo)
    → Strict compare_infos xs
    → Memᴰ a xs
    → find_type xs a.ident ≡ some a.type_info
find_type-Mem a [] strict m = elim m [ ]
find_type-Mem a (x ∷ xs) strict (Memᴰ.head eq) = rw eq (rw (eq_refl x.ident) refl)
find_type-Mem a (x ∷ xs) strict (Memᴰ.tail m) =
    let before = All-Mem (λ z. compare_infos x z ≡ less) xs a strict.0 m in
    let apart : (x.ident == a.ident) ≡ false = ground (arith, same_ident x a) in
    rw apart (find_type-Mem a xs strict.1 m)

-- What stands for an info in the schema gives the type of its identifier.
find_type-StandsFor :
    (a : DomainIdentifierInfo) (ys : List DomainIdentifierInfo)
    → Strict compare_infos ys
    → StandsFor compare_infos inconsistent ys a
    → find_type ys a.ident ≡ some a.type_info
find_type-StandsFor a ys strict (y, m, inl eq) = rw eq (find_type-Mem y ys strict m)
find_type-StandsFor a ys strict (y, m, inr (same_names, peaceful)) =
    let names : a.ident ≡ y.ident = ground (arith, same_ident a y, eq_iff a.ident y.ident) in
    let types : a.type_info ≡ y.type_info = ground (arith, type_eq_iff a.type_info y.type_info) in
    rw (names, types) (find_type-Mem y ys strict m)

-- The list gives each info of the other one its type.
abbrev pub Types : (Identifier → Option IdentifierType) → List DomainIdentifierInfo → Type 0
Types typing xs = All (λ a. typing a.ident ≡ some a.type_info) xs

pub find_type-Types :
    (typing : Identifier → Option IdentifierType) (xs : List DomainIdentifierInfo) (k : Identifier)
    → Types typing xs
    → (find_type xs k ≡ none) ⊎ (find_type xs k ≡ typing k)
find_type-Types typing [] k h = inl refl
find_type-Types typing (a ∷ xs) k h = elim (Bool-cases (a.ident == k)) [
  | inr ne ↦ rw ne (find_type-Types typing xs k h.1)
  | inl eq ↦
      let equal : a.ident ≡ k = (eq_iff a.ident k).0 eq in rw eq (inr (sym h.0 ∙ ap typing equal))
]

has_same-find_type :
    (k : Identifier) (xs : List DomainIdentifierInfo)
    → has_same compare_infos (record { ident = k; type_info = IdentifierType.string }) xs
      ≡ is_some (find_type xs k)
has_same-find_type k [] = refl
has_same-find_type k (a ∷ xs) = ground (
  arith,
  has_same-find_type k xs,
  same_ident (record { ident = k; type_info = IdentifierType.string }) a,
  eq_iff k a.ident,
  eq_iff a.ident k,
)

All-StandsFor :
    (ys xs : List DomainIdentifierInfo)
    → Strict compare_infos ys
    → All (StandsFor compare_infos inconsistent ys) xs
    → Types (find_type ys) xs
All-StandsFor ys [] strict h = tt
All-StandsFor ys (x ∷ xs) strict h =
    (find_type-StandsFor x ys strict h.0, All-StandsFor ys xs strict h.1)

-- A schema that is built without a panic gives every identifier the type of each of its definitions, and
-- knows no others.
pub const_slice_unique_checked-Types :
    (xs ys : List DomainIdentifierInfo)
    → const_slice_unique_checked compare_infos inconsistent xs ≡ some ys
    → Types (find_type ys) xs × ((k : Identifier) → find_type ys k ≡ find_type xs k)
const_slice_unique_checked-Types xs ys h =
    let (shape, stand) = const_slice_unique_checked-some compare_infos inconsistent xs ys h in
    let (len, rising, alike) = const_slice_unique_lem compare_infos compare_infos-IsOrder xs in
    let types = All-StandsFor ys xs (subst (Strict compare_infos) (sym shape) rising) stand in
    (
      types,
      λ k.
          let query : DomainIdentifierInfo = record {
            ident = k;
            type_info = IdentifierType.string;
          } in
          let known : is_some (find_type ys k) ≡ is_some (find_type xs k) =
            sym (has_same-find_type k ys)
            ∙ ap (has_same compare_infos query) shape
            ∙ alike query
            ∙ has_same-find_type k xs in
          elim (find_type-Types (find_type ys) xs k types) [
            | inr eq ↦ sym eq
            | inl absent ↦ ground arith
          ],
    )

-- Definitions with one type for every identifier make no comparison panic.
pub const_slice_unique_of_Types :
    (typing : Identifier → Option IdentifierType) (xs : List DomainIdentifierInfo)
    → Types typing xs
    → (ys : List DomainIdentifierInfo) × (const_slice_unique_checked compare_infos inconsistent xs
        ≡ some ys)
const_slice_unique_of_Types typing xs h = (
  const_slice_unique compare_infos xs,
  const_slice_unique_checked_unique compare_infos inconsistent
      (λ a. typing a.ident ≡ some a.type_info)
      (λ a b ha hb. ground (
        arith,
        same_ident a b,
        eq_iff a.ident b.ident,
        type_eq_iff a.type_info b.type_info,
        ap typing,
        ha,
        hb,
      ))
      xs h,
)
