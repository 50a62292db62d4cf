-- ===== src/Identifier.antt =====
-- Identifiers and sets of domain identifiers: disintegrate/src/identifier.rs and
-- disintegrate/src/domain_identifier.rs.
pub mod Names
use Prim.Native.String.{compare}
use Prim.Native.Nat.{Ordering}
use disintegrate.Prelude.{
  String, ◌≡◌, refl, ◌↔◌, Bool, true, false, Option, none, some, List, [], ◌∷◌, arith, ◌==◌, eq_iff,
  if◌then◌else◌,
}
use disintegrate.Prelude.Int.{ℤ, eqb_ℤ, eqb_ℤ_iff}

-- A validated `&'static str`, compared as text.
abbrev pub Identifier : Type 0
Identifier = String

pub data IdentifierType : Type 0 where
  string i64 uuid : IdentifierType

-- A `Uuid` is given by its text, which is what equality and `Display` see of it.
pub data IdentifierValue : Type 0 where
  string : String → IdentifierValue
  i64 : ℤ → IdentifierValue
  uuid : String → IdentifierValue

-- The derived `PartialEq`.
abbrev pub value_eq : IdentifierValue → IdentifierValue → Bool
value_eq (IdentifierValue.string a) (IdentifierValue.string b) = a == b
value_eq (IdentifierValue.i64 a) (IdentifierValue.i64 b) = eqb_ℤ a b
value_eq (IdentifierValue.uuid a) (IdentifierValue.uuid b) = a == b
value_eq _ _ = false

pub value_eq_iff : (a b : IdentifierValue) → (value_eq a b ≡ true) ↔ (a ≡ b)
value_eq_iff (IdentifierValue.string a) (IdentifierValue.string b) = ground (arith, eq_iff a b)
value_eq_iff (IdentifierValue.i64 a) (IdentifierValue.i64 b) = ground (arith, eqb_ℤ_iff a b)
value_eq_iff (IdentifierValue.uuid a) (IdentifierValue.uuid b) = ground (arith, eq_iff a b)
value_eq_iff _ _ = ground arith

pub record DomainIdentifier : Type 0 where
  pub key : Identifier
  pub value : IdentifierValue

-- The `BTreeMap` as an association list in the order of its keys.
abbrev pub DomainIdentifierSet : Type 0
DomainIdentifierSet = List (Identifier × IdentifierValue)

unfoldable pub get : DomainIdentifierSet → Identifier → Option IdentifierValue
get [] k = none
get ((j, v) ∷ m) k = if j == k then some v else get m k

unfoldable pub insert : DomainIdentifierSet → DomainIdentifier → DomainIdentifierSet
insert [] d = (d.key, d.value) ∷ []
insert ((j, w) ∷ m) d = elim (compare d.key j) [
  | Ordering.lt ↦ (d.key, d.value) ∷ (j, w) ∷ m
  | Ordering.eq ↦ (d.key, d.value) ∷ m
  | Ordering.gt ↦ (j, w) ∷ insert m d
]

-- Inserts from left to right.
unfoldable pub insert_all : DomainIdentifierSet → List DomainIdentifier → DomainIdentifierSet
insert_all m [] = m
insert_all m (d ∷ ds) = insert_all (insert m d) ds

-- `domain_identifiers! { k: v, ... }`
unfoldable pub domain_identifiers : List DomainIdentifier → DomainIdentifierSet
unfolding insert insert_all
domain_identifiers ds = insert_all [] ds

-- A lookup after an insertion: the new value at its key, and what was there at any other.
pub get-insert :
    (m : DomainIdentifierSet) (d : DomainIdentifier) (q : Identifier)
    → get (insert m d) q ≡ (if d.key == q then some d.value else get m q)
unfolding get insert
get-insert [] d q = refl
get-insert ((j, w) ∷ m) d q =
    ground (arith, get-insert m d q, eq_iff d.key j, eq_iff d.key q, eq_iff j q)
