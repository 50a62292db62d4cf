-- ===== src/Derive/Declared.antt =====
-- When the code that disintegrate-macros/src/event.rs generates for an enum builds, and what the schema
-- then declares.
use mathlib.Core.Path.{subst}
use disintegrate.Prelude.{
  ◌≡◌, ◌↔◌, refl, ap, sym, ◌∙◌, false, Option, some, List, [], ◌∷◌, ◌++◌, append-nil, append_assoc,
  All, All-append, any, map, arith, Bool-cases, Option-cases, inl, inr,
}
use disintegrate.Prelude.Result.{ok}
use disintegrate.Identifier.{Identifier, IdentifierType}
use disintegrate.Event.{EventInfo, EventSchema, DomainIdentifierInfo}
use disintegrate.Slices.{const_slices_concat}
use disintegrate.Derive.{
  Variant, infos_of, fields_reserved, domain_identifiers_slice, variant_info, events_info,
  domain_identifiers_schema, impl_enum,
}
use disintegrate.Derive.Naming.{
  Types, find_type, const_slice_unique_checked-Types, const_slice_unique_of_Types,
}

concat-append : {A : Type 0} (xs ys : List A) → const_slices_concat xs ys ≡ xs ++ ys
unfolding const_slices_concat
concat-append [] ys = refl
concat-append (x ∷ xs) ys = ap (λ l. x ∷ l) (concat-append xs ys)

-- Every variant's identifiers have the types that the function gives.
abbrev pub Agree : (Identifier → Option IdentifierType) → List Variant → Type 0
Agree typing vs = All (λ (v : Variant). Types typing (infos_of v.fields)) vs

All-unappend :
    {A : Type 0} (P : A → Type 0) (xs ys : List A) → All P (xs ++ ys) → All P xs × All P ys
All-unappend P [] ys h = (tt, h)
All-unappend P (x ∷ xs) ys h = let (left, right) = All-unappend P xs ys h.1 in ((h.0, left), right)

slice-Agree :
    (typing : Identifier → Option IdentifierType) (acc : List DomainIdentifierInfo)
    (vs : List Variant)
    → Types typing (domain_identifiers_slice acc vs)
    → Types typing acc × Agree typing vs
unfolding domain_identifiers_slice
slice-Agree typing acc [] h = (h, tt)
slice-Agree typing acc (v ∷ vs) h =
    let (first, rest) = slice-Agree typing (const_slices_concat acc (infos_of v.fields)) vs h in
    let joined : Types typing (acc ++ infos_of v.fields) =
      subst (Types typing) (concat-append acc (infos_of v.fields)) first in
    let (left, own) =
      All-unappend (λ (a : DomainIdentifierInfo). typing a.ident ≡ some a.type_info) acc
        (infos_of v.fields) joined in
    (left, (own, rest))

Agree-slice :
    (typing : Identifier → Option IdentifierType) (acc : List DomainIdentifierInfo)
    (vs : List Variant)
    → Types typing acc
    → Agree typing vs
    → Types typing (domain_identifiers_slice acc vs)
unfolding domain_identifiers_slice
Agree-slice typing acc [] ha h = ha
Agree-slice typing acc (v ∷ vs) ha h =
    let joined =
      All-append (λ (a : DomainIdentifierInfo). typing a.ident ≡ some a.type_info) acc
        (infos_of v.fields) ha h.0 in
    Agree-slice typing (const_slices_concat acc (infos_of v.fields)) vs
      (subst (Types typing) (sym (concat-append acc (infos_of v.fields))) joined) h.1

-- The info of the variant is found.
abbrev pub HasInfo : Variant → Type 0
HasInfo v = (info : EventInfo) × (variant_info v ≡ some info)

-- The info of each variant, in the order of the enum.
abbrev pub Infos : List Variant → List EventInfo → Type 0
Infos [] [] = Unit
Infos (v ∷ vs) (info ∷ infos) = (variant_info v ≡ some info) × Infos vs infos
Infos [] (info ∷ infos) = ⊥
Infos (v ∷ vs) [] = ⊥

pub events_info-Infos :
    (acc infos : List EventInfo) (vs : List Variant)
    → events_info acc vs ≡ some infos
    → (rest : List EventInfo) × (infos ≡ acc ++ rest) × Infos vs rest
unfolding events_info
events_info-Infos acc infos [] h = ([], (ground arith) ∙ sym (append-nil acc), tt)
events_info-Infos acc infos (v ∷ vs) h = elim (Option-cases (variant_info v)) [
  | inl o ↦ absurd (ground arith)
  | inr (info, o) ↦
      let next : events_info (const_slices_concat acc (info ∷ [])) vs ≡ some infos = ground arith in
      let (rest, shape, found) =
        events_info-Infos (const_slices_concat acc (info ∷ [])) infos vs next in
      (
        info ∷ rest,
        shape
            ∙ ap (λ l. l ++ rest) (concat-append acc (info ∷ []))
            ∙ append_assoc acc (info ∷ []) rest,
        (o, found),
      )
]

events_info_of_structs :
    (acc : List EventInfo) (vs : List Variant)
    → All HasInfo vs
    → (infos : List EventInfo) × (events_info acc vs ≡ some infos)
unfolding events_info
events_info_of_structs acc [] h = (acc, refl)
events_info_of_structs acc (v ∷ vs) ((info, o), h) =
    let (infos, rest) = events_info_of_structs (const_slices_concat acc (info ∷ [])) vs h in
    (infos, rw (events_info, o) rest)

Infos-HasInfo : (vs : List Variant) (infos : List EventInfo) → Infos vs infos → All HasInfo vs
Infos-HasInfo [] [] h = tt
Infos-HasInfo (v ∷ vs) (info ∷ infos) h = ((info, h.0), Infos-HasInfo vs infos h.1)
Infos-HasInfo [] (info ∷ infos) h = tt
Infos-HasInfo (v ∷ vs) [] h = absurd h

-- What a schema that builds is made of.
pub impl_enum_inv :
    (vs : List Variant) (schema : EventSchema)
    → impl_enum vs ≡ ok schema
    → (any (λ (v : Variant). fields_reserved v.fields) vs ≡ false)
      × (schema.events ≡ map (λ (v : Variant). v.ident) vs)
      × Infos vs schema.events_info
      × Agree (find_type schema.domain_identifiers) vs
      × ((k : Identifier)
          → find_type schema.domain_identifiers k ≡ find_type (domain_identifiers_slice [] vs) k)
unfolding impl_enum
impl_enum_inv vs schema h = elim (Bool-cases (any (λ (v : Variant). fields_reserved v.fields) vs)) [
  | inl y ↦ absurd (ground arith)
  | inr n ↦ elim (Option-cases (events_info [] vs)) [
    | inl o ↦ absurd (ground arith)
    | inr (infos, o) ↦ elim (Option-cases (domain_identifiers_schema vs)) [
      | inl o' ↦ absurd (ground arith)
      | inr (identifiers, o') ↦
          let (rest, shape, found) = events_info-Infos [] infos vs o in
          let (types, alike) =
            const_slice_unique_checked-Types (domain_identifiers_slice [] vs) identifiers o' in
          let built : schema ≡ record {
            events = map (λ (v : Variant). v.ident) vs;
            events_info = infos;
            domain_identifiers = identifiers;
          } =
            ground arith in
          (
            n,
            ap (λ (s : EventSchema). s.events) built,
            subst (Infos vs) (sym shape ∙ sym (ap (λ (s : EventSchema). s.events_info) built))
                found,
            subst (λ l. Agree (find_type l) vs)
                (sym (ap (λ (s : EventSchema). s.domain_identifiers) built))
                (slice-Agree (find_type identifiers) [] vs types).1,
            λ k. ap (λ (s : EventSchema). find_type s.domain_identifiers k) built ∙ alike k,
          )
    ]
  ]
]

-- The same in terms of the checks of the code.
pub impl_enum_checks :
    (vs : List Variant)
    → ((schema : EventSchema) × (impl_enum vs ≡ ok schema)) ↔ (
        (any (λ (v : Variant). fields_reserved v.fields) vs ≡ false)
        × All HasInfo vs
        × ((typing : Identifier → Option IdentifierType) × Agree typing vs))
unfolding impl_enum
impl_enum_checks vs = (
  λ (schema, built).
      let (free, events, infos, types, alike) = impl_enum_inv vs schema built in
      (
        free,
        Infos-HasInfo vs schema.events_info infos,
        (find_type schema.domain_identifiers, types),
      ),
  λ (free, structs, (typing, types)).
      let (infos, o) = events_info_of_structs [] vs structs in
      let (identifiers, o') =
        const_slice_unique_of_Types typing (domain_identifiers_slice [] vs)
          (Agree-slice typing [] vs tt types) in
      (
        record {
          events = map (λ (v : Variant). v.ident) vs;
          events_info = infos;
          domain_identifiers = identifiers;
        },
        rw (free, o, o') refl,
      ),
)
