-- ===== src/Derive/Events.antt =====
-- The events of an enum whose code disintegrate-macros/src/event.rs generates, against the schema that
-- it generates.
use mathlib.Core.Path.{subst}
use disintegrate.Prelude.{
  String, ◌≡◌, refl, ap, sym, ◌∙◌, true, false, Option, some, List, [], ◌∷◌, ◌==◌, map, contains,
  arith, Bool-cases, inl, inr,
}
use disintegrate.Prelude.Result.{ok}
use disintegrate.Identifier
use disintegrate.Identifier.{
  Identifier, IdentifierType, IdentifierValue, DomainIdentifier, DomainIdentifierSet, get-insert,
}
use disintegrate.Event.{EventInfo, EventSchema, has_domain_identifier, event_info, find_info}
use disintegrate.Derive.{
  Field, Fields, Variant, Content, Value, enum_unnamed_field_type, identifiers_fields, infos_of,
  variant_info, payload_info, impl_enum, find_variant, bound, content_identifiers,
  domain_identifiers, name,
}
use disintegrate.Derive.Naming.{Types, find_type, find_type-Types}
use disintegrate.Derive.Declared.{Agree, Infos, impl_enum_inv}
use disintegrate.Derive.Typing.{Declares, HasType, bound-Declares}

payload_info-name :
    (title : String) (infos : List EventInfo) (info : EventInfo)
    → payload_info title infos ≡ some info
    → info.name ≡ title
payload_info-name title [] info h = absurd (ground arith)
payload_info-name title (one ∷ []) info h = ground arith
payload_info-name title (one ∷ two ∷ rest) info h = absurd (ground arith)

variant_info-name :
    (title : String) (fields : Fields) (info : EventInfo)
    → variant_info (record { ident = title; fields = fields }) ≡ some info
    → info.name ≡ title
unfolding variant_info
variant_info-name title (Fields.named fs) info h = ground arith
variant_info-name title (Fields.unnamed payload) info h =
    payload_info-name title (enum_unnamed_field_type payload).events_info info h
variant_info-name title Fields.unit info h = ground arith

find_info-Infos :
    (vs : List Variant) (infos : List EventInfo) (title : String) (m : Variant)
    → Infos vs infos
    → find_variant vs title ≡ some m
    → (info : EventInfo) × (find_info infos title ≡ some info)
      × (variant_info m ≡ some info)
      × (contains (map (λ (v : Variant). v.ident) vs) title ≡ true)
find_info-Infos [] [] title m h found = absurd (ground arith)
find_info-Infos (v ∷ vs) (info ∷ infos) title m h found = elim (Bool-cases (v.ident == title)) [
  | inl eq ↦
      let one : v ≡ m = ground arith in
      let titled : (info.name == title) ≡ true =
        ground (arith, variant_info-name v.ident v.fields info h.0) in
      rw (titled, eq)
        (info, refl, subst (λ (x : Variant). variant_info x ≡ some info) one h.0, refl)
  | inr ne ↦
      let (other, known, shape, listed) = find_info-Infos vs infos title m h.1 (ground arith) in
      let apart : (info.name == title) ≡ false =
        ground (arith, variant_info-name v.ident v.fields info h.0) in
      rw (apart, ne) (other, known, shape, listed)
]
find_info-Infos [] (info ∷ infos) title m h found = absurd h
find_info-Infos (v ∷ vs) [] title m h found = absurd h

find_variant-Agree :
    (typing : Identifier → Option IdentifierType) (vs : List Variant) (title : String) (m : Variant)
    → Agree typing vs
    → find_variant vs title ≡ some m
    → Types typing (infos_of m.fields)
find_variant-Agree typing [] title m h found = absurd (ground arith)
find_variant-Agree typing (v ∷ vs) title m h found = elim (Bool-cases (v.ident == title)) [
  | inl eq ↦
      let one : v ≡ m = ground arith in
      subst (λ (x : Variant). Types typing (infos_of x.fields)) one h.0
  | inr ne ↦ find_variant-Agree typing vs title m h.1 (ground arith)
]

payload_info-single :
    (title : String) (infos : List EventInfo) (info : EventInfo)
    → payload_info title infos ≡ some info
    → (own : EventInfo) × (infos ≡ own ∷ [])
      × (info ≡ record { name = title; domain_identifiers = own.domain_identifiers })
payload_info-single title [] info h = absurd (ground arith)
payload_info-single title (one ∷ []) info h = (one, refl, ground arith)
payload_info-single title (one ∷ two ∷ rest) info h = absurd (ground arith)

module _ {V : Type 0} (into_identifier_value : V → IdentifierValue)
    (payload_identifiers : V → DomainIdentifierSet) where
  content-Declares :
      (typing : Identifier → Option IdentifierType) (title : String) (fields : Fields)
      (c : Content V) (info : EventInfo)
      → HasType into_identifier_value payload_identifiers fields c
      → variant_info (record { ident = title; fields = fields }) ≡ some info
      → Types typing (infos_of fields)
      → Declares info typing
          (content_identifiers into_identifier_value payload_identifiers fields c)
  unfolding variant_info Identifier.get has_domain_identifier
  content-Declares typing title (Fields.named fs) (Content.named vs) info h known types =
      let one : record {
        name = title;
        domain_identifiers = map (λ (f : Field). f.ident) (identifiers_fields fs);
      }
          ≡ info =
        ground arith in
      subst
        (λ i.
          Declares i typing
            (Identifier.domain_identifiers (bound into_identifier_value payload_identifiers fs vs)))
        one (bound-Declares into_identifier_value payload_identifiers typing title fs vs h types)
  content-Declares typing title (Fields.unnamed payload) (Content.unnamed v) info h known types =
      let schema = enum_unnamed_field_type payload in
      let (own, single, shape) = payload_info-single title schema.events_info info known in
      let declared = h own single in
      record {
        exactly = λ k. ap (λ (i : EventInfo). has_domain_identifier i k) shape ∙ declared.exactly k;
        typed = λ k w got. elim (find_type-Types typing schema.domain_identifiers k types) [
          | inl absent ↦ absurd (cc (absent, declared.typed k w got))
          | inr eq ↦ sym eq ∙ declared.typed k w got
        ];
      }
  content-Declares typing title Fields.unit Content.unit info h known types =
      let shape : info ≡ record { name = title; domain_identifiers = [] } = ground arith in
      record {
        exactly = λ k. ap (λ (i : EventInfo). has_domain_identifier i k) shape;
        typed = λ k w got. absurd (ground arith);
      }
  content-Declares typing title (Fields.named fs) (Content.unnamed v) info h known types = absurd h
  content-Declares typing title (Fields.named fs) Content.unit info h known types = absurd h
  content-Declares typing title (Fields.unnamed p) (Content.named vs) info h known types = absurd h
  content-Declares typing title (Fields.unnamed p) Content.unit info h known types = absurd h
  content-Declares typing title Fields.unit (Content.named vs) info h known types = absurd h
  content-Declares typing title Fields.unit (Content.unnamed v) info h known types = absurd h

  -- For an enum whose generated code builds, and a value of one of its variants: the schema lists the
  -- value's name and has its info; the value's domain identifiers are exactly those of the info, and each
  -- has the type that the schema declares for it.
  pub domain_identifiers-Declares :
      (vs : List Variant) (schema : EventSchema) (e : Value V) (m : Variant)
      → impl_enum vs ≡ ok schema
      → find_variant vs e.variant ≡ some m
      → HasType into_identifier_value payload_identifiers m.fields e.content
      → (contains schema.events (name e) ≡ true)
        × (info : EventInfo) × (event_info schema (name e) ≡ some info)
        × Declares info
            (find_type schema.domain_identifiers)
            (domain_identifiers into_identifier_value payload_identifiers vs e)
  unfolding domain_identifiers name event_info
  domain_identifiers-Declares vs schema e m built found typed =
      let (free, events, infos, agree, alike) = impl_enum_inv vs schema built in
      let (info, known, shape, listed) =
        find_info-Infos vs schema.events_info e.variant m infos found in
      let types =
        find_variant-Agree (find_type schema.domain_identifiers) vs e.variant m agree found in
      (
        rw events listed,
        info,
        known,
        rw found (
            content-Declares (find_type schema.domain_identifiers) m.ident m.fields e.content info
              typed shape types),
      )
