-- ===== src/Derive/Streams.antt =====
-- What `#[stream(name, [variants])]` generates: disintegrate-macros/src/event/stream.rs, and its use by
-- `event_inner` of disintegrate-macros/src/event.rs.
use disintegrate.Prelude.{String, List, [], ◌∷◌, Option, none, some, map, filter, contains}
use disintegrate.Prelude.Result.{Result, ok, err, ◌>>=◌}
use disintegrate.Event.{EventSchema}
use disintegrate.Derive.{
  DeriveInput, QueryArgs, Field, Fields, Variant, Content, Value, find_variant, impl_enum,
}

-- The variants that a stream selects, in the order of the enum.
abbrev pub selected_variants : List Variant → QueryArgs → List Variant
selected_variants variants args = filter (λ v. contains args.variants v.ident) variants

abbrev stream : DeriveInput → QueryArgs → DeriveInput
stream ast args = record {
  ident = args.name;
  attrs = [];
  variants = selected_variants ast.variants args;
}

unfoldable pub streams : DeriveInput → List DeriveInput
streams ast = map (stream ast) ast.attrs

abbrev pub schemas : List DeriveInput → Result (List EventSchema) String
schemas [] = ok []
schemas (s ∷ ss) = impl_enum s.variants >>= λ schema. schemas ss >>= λ rest. ok (schema ∷ rest)

-- `event_inner` of an enum: the schema of the enum and those of its streams.
unfoldable pub event_inner : DeriveInput → Result (EventSchema × List EventSchema) String
unfolding streams impl_enum
event_inner ast =
    impl_enum ast.variants >>= λ schema. schemas (streams ast) >>= λ rest. ok (schema, rest)

module _ {V : Type 0} where
  -- The pattern of `variant_to_unary_pat` binds a variable to each field, and as an expression writes the
  -- variables back into the fields of the same names. Names that are not in snake case do not compile.
  abbrev pub write_back : List Field → List (String × V) → List (String × V)
  write_back [] vs = []
  write_back (f ∷ fs) [] = []
  write_back (f ∷ fs) ((k, v) ∷ vs) = (f.ident, v) ∷ write_back fs vs

  -- A content of another kind is not a value of the variant; no pattern meets it.
  abbrev pub unary_pat : Fields → Content V → Option (Content V)
  unary_pat (Fields.named fs) (Content.named vs) = some (Content.named (write_back fs vs))
  unary_pat (Fields.unnamed payload) (Content.unnamed v) = some (Content.unnamed v)
  unary_pat Fields.unit Content.unit = some Content.unit
  unary_pat _ _ = none

  abbrev built : Variant → Option (Content V) → Option (Value V)
  built m none = none
  built m (some c) = some (record { variant = m.ident; content = c })

  abbrev arm : Option Variant → Content V → Option (Value V)
  arm none c = none
  arm (some m) c = built m (unary_pat m.fields c)

  -- The arms `A::V{..} => B::V{..}` of a `match`, for the selected variants; `none` where no arm matches.
  abbrev pub arms : List Variant → Value V → Option (Value V)
  arms variants e = arm (find_variant variants e.variant) e.content

  -- `From<Stream>` of the parent. The match is total on the values of the stream; `none` is a value that
  -- the stream does not have.
  unfoldable pub from : List Variant → Value V → Option (Value V)
  from variants child = arms variants child

  -- `TryFrom<Parent>` of the stream, whose last arm is the error. It compiles for at least one variant.
  unfoldable pub try_from : String → List Variant → Value V → Result (Value V) String
  try_from error variants parent = elim (arms variants parent) [
    | none ↦ err error
    | some child ↦ ok child
  ]
