-- ===== src/Derive.antt =====
-- What `#[derive(Event)]` generates: disintegrate-macros/src/event.rs. A declaration is given by what the
-- macro reads of it, and the code generated by what it computes. `panicked` is a panic of a constant,
-- and so an error of the build, as `err` is.
pub mod Streams
pub mod Naming
pub mod Declared
pub mod Allowed
pub mod Typing
pub mod Events
pub mod Queries
pub mod Filters
pub mod Selection
use Prim.Native.Char.{code}
use disintegrate.Prelude.{
  ℕ, String, Bool, true, false, not, ◌&&◌, Option, none, some, List, [], ◌∷◌, map, filter, any,
  contains, ◌==◌, if◌then◌else◌,
}
use disintegrate.Prelude.Result.{Result, ok, err, panicked, unwrap, ◌>>=◌}
use disintegrate.Identifier
use disintegrate.Identifier.{
  Identifier, IdentifierType, IdentifierValue, DomainIdentifier, DomainIdentifierSet,
}
use disintegrate.Event.{EventInfo, DomainIdentifierInfo, EventSchema, Event}
use disintegrate.Slices.{Comparison, is_same, compare, const_slices_concat}
use disintegrate.Slices.Checked.{const_slice_unique_checked}

-- A field, whether it has the attribute `#[id]`, and the constant `TYPE` of its type.
pub record Field : Type 0 where
  pub ident : Identifier
  pub id : Bool
  pub type_info : IdentifierType

-- The type of a payload; of a type, the macro uses its constant `SCHEMA`.
pub data PayloadType : Type 0 where
  boxed plain : (schema : EventSchema) → PayloadType

unfoldable pub enum_unnamed_field_type : PayloadType → EventSchema
enum_unnamed_field_type (PayloadType.boxed schema) = schema
enum_unnamed_field_type (PayloadType.plain schema) = schema

pub data Fields : Type 0 where
  named : List Field → Fields
  unnamed : PayloadType → Fields
  unit : Fields

pub record Variant : Type 0 where
  pub ident : String
  pub fields : Fields

-- The arguments of an attribute `#[stream(name, [variants])]`.
pub record QueryArgs : Type 0 where
  pub name : String
  pub variants : List String

pub record DeriveInput : Type 0 where
  pub ident : String
  pub attrs : List QueryArgs
  pub variants : List Variant

abbrev pub identifiers_fields : List Field → List Field
identifiers_fields fs = filter (λ f. f.id) fs

-- `reserved_identifier_names`
abbrev pub reserved : Identifier → Bool
reserved ident = contains ("event_id" ∷ "payload" ∷ "event_type" ∷ "inserted_at" ∷ []) ident

unfoldable pub reserved_identifier_names : List Field → Bool
reserved_identifier_names fs = any (λ f. reserved f.ident) fs

abbrev pub info_of : Field → DomainIdentifierInfo
info_of f = record { ident = f.ident; type_info = f.type_info }

abbrev pub infos_of : Fields → List DomainIdentifierInfo
infos_of (Fields.named fs) = map info_of (identifiers_fields fs)
infos_of (Fields.unnamed payload) = (enum_unnamed_field_type payload).domain_identifiers
infos_of Fields.unit = []

unfoldable pub domain_identifiers_slice :
    List DomainIdentifierInfo → List Variant → List DomainIdentifierInfo
unfolding const_slices_concat enum_unnamed_field_type
domain_identifiers_slice acc [] = acc
domain_identifiers_slice acc (v ∷ vs) =
    domain_identifiers_slice (const_slices_concat acc (infos_of v.fields)) vs

-- A payload must have the schema of a struct.
abbrev pub payload_info : String → List EventInfo → Option EventInfo
payload_info name (info ∷ []) =
    some (record { name = name; domain_identifiers = info.domain_identifiers })
payload_info name [] = none
payload_info name (info ∷ other ∷ rest) = none

unfoldable pub variant_info : Variant → Option EventInfo
unfolding enum_unnamed_field_type
variant_info v = elim v.fields [
  | Fields.named fs ↦
      some
        (record { name = v.ident; domain_identifiers = map (λ f. f.ident) (identifiers_fields fs) })
  | Fields.unnamed payload ↦ payload_info v.ident (enum_unnamed_field_type payload).events_info
  | Fields.unit ↦ some (record { name = v.ident; domain_identifiers = [] })
]

unfoldable pub events_info : List EventInfo → List Variant → Option (List EventInfo)
unfolding const_slices_concat variant_info
events_info acc [] = some acc
events_info acc (v ∷ vs) = elim (variant_info v) [
  | none ↦ none
  | some info ↦ events_info (const_slices_concat acc (info ∷ [])) vs
]

-- The text of an identifier, by the numbers of its characters, which compare as the bytes of their UTF-8
-- do.
unfoldable pub into_inner : Identifier → List ℕ
into_inner String.[] = []
into_inner (String.◌∷◌ c s) = code c ∷ into_inner s

abbrev pub type_eq : IdentifierType → IdentifierType → Bool
type_eq IdentifierType.string IdentifierType.string = true
type_eq IdentifierType.i64 IdentifierType.i64 = true
type_eq IdentifierType.uuid IdentifierType.uuid = true
type_eq _ _ = false

abbrev pub compare_infos : DomainIdentifierInfo → DomainIdentifierInfo → Comparison
compare_infos a b = compare (into_inner a.ident) (into_inner b.ident)

-- The `panic!` of the generated comparison, at two infos with the same identifier.
abbrev pub inconsistent : DomainIdentifierInfo → DomainIdentifierInfo → Bool
inconsistent a b = not (type_eq a.type_info b.type_info)

abbrev pub domain_identifiers_schema : List Variant → Option (List DomainIdentifierInfo)
domain_identifiers_schema vs =
    const_slice_unique_checked compare_infos inconsistent (domain_identifiers_slice [] vs)

abbrev pub fields_reserved : Fields → Bool
fields_reserved (Fields.named fs) = reserved_identifier_names (identifiers_fields fs)
fields_reserved (Fields.unnamed payload) = false
fields_reserved Fields.unit = false

-- The constant `SCHEMA` of an enum; a reserved name is an error of the macro.
unfoldable pub impl_enum : List Variant → Result EventSchema String
unfolding reserved_identifier_names events_info variant_info domain_identifiers_slice
    const_slice_unique_checked compare into_inner
impl_enum variants =
    if any (λ v. fields_reserved v.fields) variants
    then err "Reserved domain identifier name. Please use a different name"
    else (unwrap (events_info [] variants) >>= λ infos.
        unwrap (domain_identifiers_schema variants) >>= λ identifiers. ok (record {
          events = map (λ v. v.ident) variants;
          events_info = infos;
          domain_identifiers = identifiers;
        }))

-- The constant `SCHEMA` of a struct.
unfoldable pub impl_struct : String → List Field → Result EventSchema String
unfolding reserved_identifier_names
impl_struct ident fields =
    if reserved_identifier_names (identifiers_fields fields)
    then err "Reserved domain identifier name. Please use a different name"
    else ok (record {
      events = ident ∷ [];
      events_info =
          record {
            name = ident;
            domain_identifiers = map (λ f. f.ident) (identifiers_fields fields);
          }
          ∷ [];
      domain_identifiers = map info_of (identifiers_fields fields);
    })

-- The values of an enum: the variant, and the values of its fields with their names, or its payload.
pub data Content (V : Type 0) : Type 0 where
  named : List (String × V) → Content V
  unnamed : V → Content V
  unit : Content V

pub record Value (V : Type 0) : Type 0 where
  pub variant : String
  pub content : Content V

-- The arm of a value's variant.
abbrev pub find_variant : List Variant → String → Option Variant
find_variant [] name = none
find_variant (v ∷ vs) name =
    let rest = find_variant vs name in if v.ident == name then some v else rest

-- Conversions of the fields' values and the identifiers of payloads belong to their types.
module _ {V : Type 0} (into_identifier_value : V → IdentifierValue)
    (payload_identifiers : V → DomainIdentifierSet) where
  -- The pattern binds the identifier fields, which the set is built from.
  abbrev pub bound : List Field → List (String × V) → List DomainIdentifier
  bound [] vs = []
  bound (f ∷ fs) [] = []
  bound (f ∷ fs) ((k, v) ∷ vs) =
      let rest = bound fs vs in
      if f.id then record { key = f.ident; value = into_identifier_value v } ∷ rest else rest

  abbrev pub content_identifiers : Fields → Content V → DomainIdentifierSet
  content_identifiers (Fields.named fs) (Content.named vs) =
      Identifier.domain_identifiers (bound fs vs)
  content_identifiers (Fields.unnamed payload) (Content.unnamed v) = payload_identifiers v
  content_identifiers _ _ = []

  abbrev arm_identifiers : Option Variant → Content V → DomainIdentifierSet
  arm_identifiers none c = []
  arm_identifiers (some m) c = content_identifiers m.fields c

  -- `Event::domain_identifiers` of an enum
  unfoldable pub domain_identifiers : List Variant → Value V → DomainIdentifierSet
  unfolding Identifier.domain_identifiers
  domain_identifiers variants e = arm_identifiers (find_variant variants e.variant) e.content

  -- `Event::domain_identifiers` of a struct
  unfoldable pub struct_identifiers : List Field → List (String × V) → DomainIdentifierSet
  unfolding Identifier.domain_identifiers
  struct_identifiers fields vs = Identifier.domain_identifiers (bound fields vs)

-- `Event::name`
unfoldable pub name : {V : Type 0} → Value V → String
name e = e.variant

-- The implementation of the trait `Event` for an enum.
abbrev pub derived_event :
    {V : Type 0}
    → (V → IdentifierValue)
    → (V → DomainIdentifierSet)
    → List Variant
    → EventSchema
    → Event (Value V)
derived_event into_identifier_value payload_identifiers variants schema = record {
  schema = schema;
  name = name;
  domain_identifiers = domain_identifiers into_identifier_value payload_identifiers variants;
}
