-- ===== src/Derive/Typing.antt =====
-- The types of the domain identifiers: what the code that disintegrate-macros/src/event.rs generates
-- returns for an event, against the schema that it generates.
use disintegrate.Prelude.{
  String, ◌≡◌, refl, ap, sym, ◌∙◌, true, ◌||◌, Option, some, List, [], ◌∷◌, ◌==◌, eq_iff, All, any,
  map, arith, Bool-cases, inl, inr,
}
use disintegrate.Identifier
use disintegrate.Identifier.{
  Identifier, IdentifierType, IdentifierValue, DomainIdentifier, DomainIdentifierSet, get-insert,
}
use disintegrate.Event.{EventInfo, has_domain_identifier}
use disintegrate.Derive.{
  Field, Fields, Content, enum_unnamed_field_type, identifiers_fields, info_of, bound,
}
use disintegrate.Derive.Naming.{Types, find_type, is_some}

-- The constant `TYPE` of a value's type.
abbrev pub type_of : IdentifierValue → IdentifierType
type_of (IdentifierValue.string s) = IdentifierType.string
type_of (IdentifierValue.i64 n) = IdentifierType.i64
type_of (IdentifierValue.uuid u) = IdentifierType.uuid

-- A set has exactly the identifiers of an info, each with a value of its type.
pub record Declares (info : EventInfo) (typing : Identifier → Option IdentifierType)
    (set : DomainIdentifierSet) : Type 0 where
  pub exactly : (k : Identifier) → has_domain_identifier info k ≡ is_some (Identifier.get set k)
  pub typed :
      (k : Identifier) (w : IdentifierValue)
      → Identifier.get set k ≡ some w
      → typing k ≡ some (type_of w)

get-insert_all :
    (m : DomainIdentifierSet) (ds : List DomainIdentifier) (k : Identifier)
    → is_some (Identifier.get (Identifier.insert_all m ds) k)
      ≡ (any (λ (d : DomainIdentifier). d.key == k) ds || is_some (Identifier.get m k))
unfolding Identifier.insert_all
get-insert_all m [] k = refl
get-insert_all m (d ∷ ds) k =
    ground (arith, get-insert_all (Identifier.insert m d) ds k, get-insert m d k)

-- The values of a set have the types that a function gives.
abbrev IsTyped : (Identifier → Option IdentifierType) → DomainIdentifierSet → Type 0
IsTyped typing set =
    (k : Identifier) (w : IdentifierValue)
    → Identifier.get set k ≡ some w
    → typing k ≡ some (type_of w)

insert-IsTyped :
    (typing : Identifier → Option IdentifierType) (m : DomainIdentifierSet) (d : DomainIdentifier)
    → IsTyped typing m
    → typing d.key ≡ some (type_of d.value)
    → IsTyped typing (Identifier.insert m d)
insert-IsTyped typing m d typed one k w got = elim (Bool-cases (d.key == k)) [
  | inl eq ↦
      let here : some d.value ≡ some w = ground (arith, get-insert m d k) in
      let value : d.value ≡ w = ground arith in
      let key : d.key ≡ k = (eq_iff d.key k).0 eq in
      sym (ap typing key) ∙ one ∙ ap (λ x. some (type_of x)) value
  | inr ne ↦ typed k w (ground (arith, get-insert m d k))
]

insert_all-IsTyped :
    (typing : Identifier → Option IdentifierType) (m : DomainIdentifierSet)
    (ds : List DomainIdentifier)
    → IsTyped typing m
    → All (λ (d : DomainIdentifier). typing d.key ≡ some (type_of d.value)) ds
    → IsTyped typing (Identifier.insert_all m ds)
unfolding Identifier.insert_all
insert_all-IsTyped typing m [] typed h = typed
insert_all-IsTyped typing m (d ∷ ds) typed h =
    insert_all-IsTyped typing (Identifier.insert m d) ds (insert-IsTyped typing m d typed h.0) h.1

module _ {V : Type 0} (into_identifier_value : V → IdentifierValue)
    (payload_identifiers : V → DomainIdentifierSet) where
  -- The values of the fields are those of the declaration, in its order, and an identifier's value has
  -- the type of its field.
  abbrev pub FieldsMatch : List Field → List (String × V) → Type 0
  FieldsMatch [] [] = Unit
  FieldsMatch (f ∷ fs) ((k, v) ∷ vs) =
      (k ≡ f.ident)
      × (f.id ≡ true → type_of (into_identifier_value v) ≡ f.type_info)
      × FieldsMatch fs vs
  FieldsMatch [] ((k, v) ∷ vs) = ⊥
  FieldsMatch (f ∷ fs) [] = ⊥

  -- A payload has the identifiers that its own schema declares.
  abbrev pub HasType : Fields → Content V → Type 0
  HasType (Fields.named fs) (Content.named vs) = FieldsMatch fs vs
  HasType (Fields.unnamed payload) (Content.unnamed v) =
      let schema = enum_unnamed_field_type payload in
      (info : EventInfo)
      → schema.events_info ≡ info ∷ []
      → Declares info (find_type schema.domain_identifiers) (payload_identifiers v)
  HasType Fields.unit Content.unit = Unit
  HasType _ _ = ⊥

  bound_keys :
      (fs : List Field) (vs : List (String × V)) (k : Identifier)
      → FieldsMatch fs vs
      → any
          (λ (d : DomainIdentifier). d.key == k)
          (bound into_identifier_value payload_identifiers fs vs)
        ≡ any (λ id. id == k) (map (λ (f : Field). f.ident) (identifiers_fields fs))
  bound_keys [] [] k h = refl
  bound_keys (f ∷ fs) ((j, v) ∷ vs) k (same, typed, h) = ground (arith, bound_keys fs vs k h)
  bound_keys [] ((j, v) ∷ vs) k h = absurd h
  bound_keys (f ∷ fs) [] k h = absurd h

  bound-Types :
      (typing : Identifier → Option IdentifierType) (fs : List Field) (vs : List (String × V))
      → FieldsMatch fs vs
      → Types typing (map info_of (identifiers_fields fs))
      → All
          (λ (d : DomainIdentifier). typing d.key ≡ some (type_of d.value))
          (bound into_identifier_value payload_identifiers fs vs)
  bound-Types typing [] [] h types = tt
  bound-Types typing (f ∷ fs) ((j, v) ∷ vs) (same, typed, h) types = elim (Bool-cases f.id) [
    | inr plain ↦
        let rest : Types typing (map info_of (identifiers_fields fs)) = rw plain at types in
        rw plain (bound-Types typing fs vs h rest)
    | inl id ↦
        let all : Types typing (info_of f ∷ map info_of (identifiers_fields fs)) = rw id at types in
        rw id (all.0 ∙ ap (λ t. some t) (sym (typed id)), bound-Types typing fs vs h all.1)
  ]
  bound-Types typing [] ((j, v) ∷ vs) h types = absurd h
  bound-Types typing (f ∷ fs) [] h types = absurd h

  -- The fields of a struct or of a variant with named fields.
  pub bound-Declares :
      (typing : Identifier → Option IdentifierType) (title : String) (fs : List Field)
      (vs : List (String × V))
      → FieldsMatch fs vs
      → Types typing (map info_of (identifiers_fields fs))
      → Declares
          (record {
            name = title;
            domain_identifiers = map (λ (f : Field). f.ident) (identifiers_fields fs);
          })
          typing
          (Identifier.domain_identifiers (bound into_identifier_value payload_identifiers fs vs))
  unfolding Identifier.domain_identifiers Identifier.get has_domain_identifier
  bound-Declares typing title fs vs h types = record {
    exactly = λ k. ground (
      arith,
      bound_keys fs vs k h,
      get-insert_all [] (bound into_identifier_value payload_identifiers fs vs) k,
    );
    typed =
        insert_all-IsTyped typing [] (bound into_identifier_value payload_identifiers fs vs)
          (λ k w none_there. absurd (ground arith)) (bound-Types typing fs vs h types);
  }
