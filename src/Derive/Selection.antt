-- ===== src/Derive/Selection.antt =====
-- The streams of an enum whose code disintegrate-macros/src/event/stream.rs generates, against the enum.
use disintegrate.Prelude.{
  String, ◌≡◌, refl, ap, ap₂, sym, ◌∙◌, Bool, true, false, ◌&&◌, none, some, List, [], ◌∷◌, ◌==◌,
  eq_iff, All, any, map, filter, contains, is_empty, arith, if◌then◌else◌, Bool-cases, inl, inr,
}
use disintegrate.Prelude.Result.{ok, err}
use disintegrate.Identifier.{IdentifierValue, DomainIdentifierSet}
use disintegrate.Event.{EventId, EventSchema}
use disintegrate.Stream.Filter
use disintegrate.Stream.Query
use disintegrate.Derive.{
  Field, Fields, Content, QueryArgs, DeriveInput, Variant, Value, fields_reserved, infos_of,
  impl_enum, find_variant, domain_identifiers, derived_event, name,
}
use disintegrate.Derive.Naming.{Types}
use disintegrate.Derive.Declared.{HasInfo, impl_enum_inv, impl_enum_checks}
use disintegrate.Derive.Streams.{
  selected_variants, streams, event_inner, from, try_from, arms, unary_pat, write_back, schemas,
}
use disintegrate.Derive.Typing.{HasType, FieldsMatch}

All-filter {ℓ κ} :
    {A : Type ℓ} (P : A → Type κ) (p : A → Bool) (xs : List A) → All P xs → All P (filter p xs)
All-filter P p [] h = tt
All-filter P p (x ∷ xs) h = elim (Bool-cases (p x)) [
  | inl y ↦ rw y (h.0, All-filter P p xs h.1)
  | inr n ↦ rw n (All-filter P p xs h.1)
]

any-filter :
    {A : Type 0} (q p : A → Bool) (xs : List A) → any q xs ≡ false → any q (filter p xs) ≡ false
any-filter q p [] h = refl
any-filter q p (x ∷ xs) h = ground (arith, any-filter q p xs)

module _ (vs : List Variant) (args : QueryArgs) where
  -- If the code of an enum builds, so does that of each of its streams.
  pub stream_builds :
      (schema : EventSchema)
      → impl_enum vs ≡ ok schema
      → (child : EventSchema) × (impl_enum (selected_variants vs args) ≡ ok child)
  stream_builds schema built =
      let (free, structs, (typing, types)) = (impl_enum_checks vs).0 (schema, built) in
      let selects : Variant → Bool = λ v. contains args.variants v.ident in
      (impl_enum_checks (selected_variants vs args)).1 (
        any-filter (λ (v : Variant). fields_reserved v.fields) selects vs free,
        All-filter HasInfo selects vs structs,
        (typing, All-filter (λ (v : Variant). Types typing (infos_of v.fields)) selects vs types),
      )

find_variant-selected :
    (vs : List Variant) (args : QueryArgs) (title : String)
    → find_variant (selected_variants vs args) title
      ≡ (if contains args.variants title then find_variant vs title else none)
find_variant-selected [] args title = ground arith
find_variant-selected (v ∷ vs) args title = elim (Bool-cases (v.ident == title)) [
  | inl eq ↦
      let one : v.ident ≡ title = (eq_iff v.ident title).0 eq in
      let alike = ap (contains args.variants) one in
      ground (arith, find_variant-selected vs args title)
  | inr ne ↦ ground (arith, find_variant-selected vs args title)
]

names-selected :
    (vs : List Variant) (args : QueryArgs) (title : String)
    → contains (map (λ (v : Variant). v.ident) (selected_variants vs args)) title
      ≡ (contains args.variants title && contains (map (λ (v : Variant). v.ident) vs) title)
names-selected [] args title = ground arith
names-selected (v ∷ vs) args title = elim (Bool-cases (v.ident == title)) [
  | inl eq ↦
      let one : v.ident ≡ title = (eq_iff v.ident title).0 eq in
      let alike = ap (contains args.variants) one in ground (arith, names-selected vs args title)
  | inr ne ↦ ground (arith, names-selected vs args title)
]

find_variant-listed :
    (vs : List Variant) (title : String) (m : Variant)
    → find_variant vs title ≡ some m
    → contains (map (λ (v : Variant). v.ident) vs) title ≡ true
find_variant-listed [] title m h = absurd (ground arith)
find_variant-listed (v ∷ vs) title m h = ground (arith, find_variant-listed vs title m)

all_build :
    (vs : List Variant) (schema : EventSchema)
    → impl_enum vs ≡ ok schema
    → (attrs : List QueryArgs)
    → (rest : List EventSchema) × (schemas (
          map
            (λ (args : QueryArgs). record {
              ident = args.name;
              attrs = [];
              variants = selected_variants vs args;
            })
            attrs)
        ≡ ok rest)
all_build vs schema built [] = ([], refl)
all_build vs schema built (args ∷ attrs) =
    let (child, one) = stream_builds vs args schema built in
    let (rest, others) = all_build vs schema built attrs in (child ∷ rest, rw (one, others) refl)

-- Of an enum whose code builds, the code of all the streams builds.
pub event_inner_builds :
    (ast : DeriveInput) (schema : EventSchema)
    → impl_enum ast.variants ≡ ok schema
    → (rest : List EventSchema) × (event_inner ast ≡ ok (schema, rest))
unfolding event_inner streams
event_inner_builds ast schema built =
    let (rest, built') = all_build ast.variants schema built ast.attrs in
    (rest, rw (built, built') refl)

-- The event converts into a stream as it is, and back, and keeps its domain identifiers.
abbrev pub Converts :
    {V : Type 0}
    → (V → IdentifierValue)
    → (V → DomainIdentifierSet)
    → List Variant
    → QueryArgs
    → String
    → Value V
    → Type 0
Converts into_identifier_value payload_identifiers vs args error e =
    (try_from error (selected_variants vs args) e ≡ ok e)
    × (from (selected_variants vs args) e ≡ some e)
    × (domain_identifiers into_identifier_value payload_identifiers (selected_variants vs args) e
        ≡ domain_identifiers into_identifier_value payload_identifiers vs e)

find_variant-ident :
    (vs : List Variant) (title : String) (m : Variant)
    → find_variant vs title ≡ some m
    → m.ident ≡ title
find_variant-ident [] title m h = absurd (cc h)
find_variant-ident (v ∷ vs) title m h = elim (Bool-cases (v.ident == title)) [
  | inl y ↦
      let one : v ≡ m = ground (arith, h, y) in
      ap (λ (x : Variant). x.ident) (sym one) ∙ (eq_iff v.ident title).0 y
  | inr n ↦ find_variant-ident vs title m (ground (arith, h, n))
]

module _ {V : Type 0} (into_identifier_value : V → IdentifierValue)
    (payload_identifiers : V → DomainIdentifierSet) where
  write_back-FieldsMatch :
      (fs : List Field) (xs : List (String × V))
      → FieldsMatch into_identifier_value payload_identifiers fs xs
      → write_back fs xs ≡ xs
  write_back-FieldsMatch [] [] h = refl
  write_back-FieldsMatch (f ∷ fs) ((k, v) ∷ xs) (key, value, rest) =
      ap₂ (λ (key : String) (rest : List (String × V)). (key, v) ∷ rest) (sym key)
        (write_back-FieldsMatch fs xs rest)
  write_back-FieldsMatch [] (x ∷ xs) h = absurd h
  write_back-FieldsMatch (f ∷ fs) [] h = absurd h

  -- A pattern that binds the fields of a value and writes them back gives the value.
  unary_pat-HasType :
      (fields : Fields) (c : Content V)
      → HasType into_identifier_value payload_identifiers fields c
      → unary_pat fields c ≡ some c
  unary_pat-HasType (Fields.named fs) (Content.named xs) h =
      ap (λ l. some (Content.named l)) (write_back-FieldsMatch fs xs h)
  unary_pat-HasType (Fields.unnamed payload) (Content.unnamed v) h = refl
  unary_pat-HasType Fields.unit Content.unit h = refl
  unary_pat-HasType (Fields.named fs) (Content.unnamed v) h = absurd h
  unary_pat-HasType (Fields.named fs) Content.unit h = absurd h
  unary_pat-HasType (Fields.unnamed payload) (Content.named xs) h = absurd h
  unary_pat-HasType (Fields.unnamed payload) Content.unit h = absurd h
  unary_pat-HasType Fields.unit (Content.named xs) h = absurd h
  unary_pat-HasType Fields.unit (Content.unnamed v) h = absurd h

  arms-HasType :
      (variants : List Variant) (e : Value V) (m : Variant)
      → find_variant variants e.variant ≡ some m
      → HasType into_identifier_value payload_identifiers m.fields e.content
      → arms variants e ≡ some e
  arms-HasType variants e m found typed =
      rw
        (
          found,
          unary_pat-HasType m.fields e.content typed,
          find_variant-ident variants e.variant m found,
        )
        refl

module _ {V : Type 0} (into_identifier_value : V → IdentifierValue)
    (payload_identifiers : V → DomainIdentifierSet) (vs : List Variant) (args : QueryArgs)
    (schema child : EventSchema) (built : impl_enum vs ≡ ok schema)
    (child_built : impl_enum (selected_variants vs args) ≡ ok child) where
  module _ (error : String) (e : Value V) (m : Variant) (found : find_variant vs e.variant ≡ some m)
      (typed : HasType into_identifier_value payload_identifiers m.fields e.content) where
    listed : contains (map (λ (v : Variant). v.ident) vs) e.variant ≡ true
    listed = find_variant-listed vs e.variant m found

    stream_names : contains child.events e.variant ≡ contains args.variants e.variant
    stream_names =
        let (free', events', infos', agree', alike') =
          impl_enum_inv (selected_variants vs args) child child_built in
        ap (λ l. contains l e.variant) events'
        ∙ names-selected vs args e.variant
        ∙ ground (arith, listed)

    converts :
        (contains child.events (name e) ≡ true
          → Converts into_identifier_value payload_identifiers vs args error e)
        × (contains child.events (name e) ≡ false
            → (try_from error (selected_variants vs args) e ≡ err error)
              × (from (selected_variants vs args) e ≡ none))
    unfolding name try_from from domain_identifiers
    converts = (
      λ y.
          let kept : find_variant (selected_variants vs args) e.variant ≡ some m =
            ground (arith, find_variant-selected vs args e.variant, stream_names) in
          let whole =
            arms-HasType into_identifier_value payload_identifiers (selected_variants vs args) e m
              kept typed in
          (rw (try_from, whole) refl, rw (from, whole) refl, rw (kept, found) refl),
      λ n.
          let dropped : find_variant (selected_variants vs args) e.variant ≡ none =
            ground (arith, find_variant-selected vs args e.variant, stream_names) in
          (rw (try_from, dropped) refl, rw (from, dropped) refl),
    )

    -- For an enum whose code builds, one of its streams with at least one variant and a value of the enum: the schema of the stream
    -- lists the name of the value exactly when the conversion into the stream succeeds. The value that the
    -- arms write back is then the same, back and forth, with the same domain identifiers; any other value
    -- is refused.
    pub stream-Converts :
        is_empty (selected_variants vs args) ≡ false
        → (contains child.events (name e) ≡ true
            → Converts into_identifier_value payload_identifiers vs args error e)
          × (contains child.events (name e) ≡ false
              → (try_from error (selected_variants vs args) e ≡ err error)
                × (from (selected_variants vs args) e ≡ none))
    stream-Converts some_variant = converts

    -- An event of the log, a value of the enum, that a query of the stream selects, from any id on, is one
    -- that converts into the stream as it is: a replay never panics at the conversion.
    pub query-Converts :
        (ids : DomainIdentifierSet) (origin id : EventId)
        → Query.matches
            (derived_event into_identifier_value payload_identifiers vs schema)
            (Query.change_origin origin (Query.query child (some (Filter.new child ids))))
            (record { id = id; event = e })
          ≡ true
        → try_from error (selected_variants vs args) e ≡ ok e
    unfolding Query.matches Query.change_origin Query.query Filter.matches Filter.change_origin
        Filter.cast Filter.new
    query-Converts ids origin id selected =
        let on_list : contains child.events (name e) ≡ true = ground arith in (converts.0 on_list).0
