-- ===== src/Derive/Allowed.antt =====
-- Which enums disintegrate-macros/src/event.rs generates code for that builds.
use disintegrate.Prelude.{
  ◌≡◌, ◌≢◌, ◌↔◌, length, String, true, eq_iff, ◌==◌, refl, sym, false, Option, some, List, [], ◌∷◌,
  All, any, arith, Bool-cases, inl, inr,
}
use disintegrate.Prelude.Result.{ok}
use disintegrate.Identifier.{Identifier, IdentifierType}
use disintegrate.Event.{EventInfo, EventSchema}
use disintegrate.Derive.{
  Field, Fields, identifiers_fields, reserved, reserved_identifier_names, payload_info,
  enum_unnamed_field_type, Variant, fields_reserved, variant_info, impl_enum,
}
use disintegrate.Derive.Declared.{Agree, HasInfo, impl_enum_checks}

-- The identifier is the name of no column.
abbrev IsFree : Identifier → Type 0
IsFree i = (i ≢ "event_id") × (i ≢ "payload") × (i ≢ "event_type") × (i ≢ "inserted_at")

-- What the macro accepts of the fields of a variant: no field that is marked as an identifier is named
-- like a column of the table, and the schema of a payload has exactly one event, be it a struct or an enum
-- with one variant.
abbrev pub Allowed : Fields → Type 0
Allowed (Fields.named fs) = All (λ f. f.id ≡ true → IsFree f.ident) fs
Allowed (Fields.unnamed payload) = length (enum_unnamed_field_type payload).events_info ≡ 1
Allowed Fields.unit = Unit

reserved-IsFree : (i : Identifier) → (reserved i ≡ false) ↔ IsFree i
reserved-IsFree i = (
  λ free. (
    λ same. absurd (cc free),
    λ same. absurd (cc free),
    λ same. absurd (cc free),
    λ same. absurd (cc free),
  ),
  λ (a, b, c, d). elim (Bool-cases (reserved i)) [
    | inr free ↦ free
    | inl taken ↦ absurd (one_of taken a b c d)
  ],
)
  where
    one_of :
        reserved i ≡ true
        → i ≢ "event_id"
        → i ≢ "payload"
        → i ≢ "event_type"
        → i ≢ "inserted_at"
        → ⊥
    one_of taken a b c d = elim (Bool-cases ("event_id" == i)) [
      | inl y ↦ a (sym ((eq_iff "event_id" i).0 y))
      | inr n ↦ elim (Bool-cases ("payload" == i)) [
        | inl y' ↦ b (sym ((eq_iff "payload" i).0 y'))
        | inr n' ↦ elim (Bool-cases ("event_type" == i)) [
          | inl y'' ↦ c (sym ((eq_iff "event_type" i).0 y''))
          | inr n'' ↦ d (sym ((eq_iff "inserted_at" i).0 (ground (arith, taken, n, n', n''))))
        ]
      ]
    ]

unreserved :
    (fs : List Field)
    → (reserved_identifier_names (identifiers_fields fs) ≡ false) ↔ Allowed (Fields.named fs)
unfolding reserved_identifier_names
unreserved [] = (λ h. tt, λ h. refl)
unreserved (f ∷ fs) = (
  λ h. (
    λ marked. (reserved-IsFree f.ident).0 (ground (arith, h, marked)),
    (unreserved fs).0 (ground (arith, h)),
  ),
  λ (free, rest). elim (Bool-cases f.id) [
    | inr n ↦ let others = (unreserved fs).1 rest in ground (arith, n, others)
    | inl y ↦
        let others = (unreserved fs).1 rest in
        let own = (reserved-IsFree f.ident).1 (free y) in ground (arith, y, own, others)
  ],
)

one_info :
    (name : String) (infos : List EventInfo)
    → ((info : EventInfo) × (payload_info name infos ≡ some info)) ↔ (length infos ≡ 1)
one_info name [] = (λ (info, h). absurd (cc h), λ h. absurd (omega (arith, h)))
one_info name (info ∷ []) =
    (λ h. refl, λ h. (record { name = name; domain_identifiers = info.domain_identifiers }, refl))
one_info name (info ∷ other ∷ rest) = (λ (info, h). absurd (cc h), λ h. absurd (omega (arith, h)))

fields-Allowed :
    (name : String) (fields : Fields)
    → ((fields_reserved fields ≡ false) × HasInfo (record { ident = name; fields = fields }))
      ↔ Allowed fields
unfolding variant_info
fields-Allowed name (Fields.named fs) =
    (λ (free, found). (unreserved fs).0 free, λ allowed. ((unreserved fs).1 allowed, (_, refl)))
fields-Allowed name (Fields.unnamed payload) =
    (λ (free, found). (one_info name _).0 found, λ allowed. (refl, (one_info name _).1 allowed))
fields-Allowed name Fields.unit = (λ h. tt, λ h. (refl, (_, refl)))

all-Allowed :
    (vs : List Variant)
    → ((any (λ (v : Variant). fields_reserved v.fields) vs ≡ false) × All HasInfo vs)
      ↔ All (λ (v : Variant). Allowed v.fields) vs
all-Allowed [] = (λ h. tt, λ h. (refl, tt))
all-Allowed (v ∷ vs) = (
  λ (free, (found, founds)). (
    (fields-Allowed v.ident v.fields).0 (ground (arith, free), found),
    (all-Allowed vs).0 (ground (arith, free), founds),
  ),
  λ (allowed, rest).
      let (free, found) = (fields-Allowed v.ident v.fields).1 allowed in
      let (frees, founds) = (all-Allowed vs).1 rest in
      (ground (arith, free, frees), (found, founds)),
)

-- The code generated for an enum builds exactly when no field marked as an identifier is named like a
-- column of the table, the schema of every payload has exactly one event, and each identifier has one type
-- in all the variants.
pub impl_enum_iff :
    (vs : List Variant)
    → ((schema : EventSchema) × (impl_enum vs ≡ ok schema)) ↔ (
        All (λ (v : Variant). Allowed v.fields) vs
        × ((typing : Identifier → Option IdentifierType) × Agree typing vs))
impl_enum_iff vs = (
  λ built.
      let (free, found, typed) = (impl_enum_checks vs).0 built in
      ((all-Allowed vs).0 (free, found), typed),
  λ (allowed, typed).
      let (free, found) = (all-Allowed vs).1 allowed in
      (impl_enum_checks vs).1 (free, found, typed),
)
