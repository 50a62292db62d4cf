-- ===== src/Tests/Deriving.antt =====
-- The unit tests of disintegrate-macros/tests/event.rs, and the schemas of the courses example.
use disintegrate.Prelude.{
  String, ◌≡◌, ◌↔◌, refl, ◌<◌, true, false, Option, none, some, List, [], ◌∷◌, All, contains,
}
use disintegrate.Prelude.Result.{ok, err, panicked}
use disintegrate.Identifier
use disintegrate.Identifier.{
  Identifier, IdentifierType, IdentifierValue, DomainIdentifier, DomainIdentifierSet,
}
use disintegrate.Event.{EventInfo, EventSchema, PersistedEvent, event_info}
use disintegrate.Stream.Filter
use disintegrate.Stream.Query
use disintegrate.Courses.Streams.{courses_event, course_subscription_schema}
use disintegrate.Derive.{
  Field, Fields, PayloadType, Variant, QueryArgs, Content, Value, impl_enum, impl_struct,
  domain_identifiers, name, derived_event,
}
use disintegrate.Derive.Streams.{selected_variants, try_from, from}
use disintegrate.Derive.Naming.{find_type}
use disintegrate.Derive.Typing.{Declares}
use disintegrate.Derive.Declared.{Agree}
use disintegrate.Derive.Allowed.{Allowed, impl_enum_iff}
use disintegrate.Derive.Events.{domain_identifiers-Declares}
use disintegrate.Derive.Queries.{StateQueryArgs, StateQuery, state_query_inner, state_query_name}
use disintegrate.Derive.Filters.{HasAll, state_query-matches}
use disintegrate.Derive.Selection.{Converts, stream-Converts, query-Converts}

abbrev id : String → Field
id name = record { ident = name; id = true; type_info = IdentifierType.string }

abbrev plain : String → Field
plain name = record { ident = name; id = false; type_info = IdentifierType.i64 }

abbrev variant : String → List Field → Variant
variant title fields = record { ident = title; fields = Fields.named fields }

-- The `DomainEvent` of the courses example.
abbrev courses : List Variant
courses =
    variant "CourseCreated" (id "course_id" ∷ plain "name" ∷ plain "seats" ∷ [])
    ∷ variant "CourseClosed" (id "course_id" ∷ [])
    ∷ variant "CourseRenamed" (id "course_id" ∷ plain "name" ∷ [])
    ∷ variant "StudentRegistered" (id "student_id" ∷ plain "name" ∷ [])
    ∷ variant "StudentSubscribed" (id "student_id" ∷ id "course_id" ∷ [])
    ∷ variant "StudentUnsubscribed" (id "student_id" ∷ id "course_id" ∷ [])
    ∷ []

derives_courses : impl_enum courses ≡ ok courses_event.schema
unfolding impl_enum
derives_courses = refl

abbrev subscription_args : QueryArgs
subscription_args = record {
  name = "CourseSubscriptionEvent";
  variants = "CourseCreated" ∷ "CourseClosed" ∷ "StudentSubscribed" ∷ "StudentUnsubscribed" ∷ [];
}

derives_course_subscription :
    impl_enum (selected_variants courses subscription_args) ≡ ok course_subscription_schema
unfolding impl_enum
derives_course_subscription = refl

-- Two variants that give an identifier different types.
abbrev clashing : List Variant
clashing =
    variant "A" (id "k" ∷ [])
    ∷ record {
      ident = "B";
      fields =
          Fields.named (record { ident = "k"; id = true; type_info = IdentifierType.uuid } ∷ []);
    }
    ∷ []

clash_panics : impl_enum clashing ≡ panicked
unfolding impl_enum
clash_panics = refl

reserved_refused :
    impl_enum (variant "A" (id "payload" ∷ []) ∷ [])
    ≡ err "Reserved domain identifier name. Please use a different name"
unfolding impl_enum
reserved_refused = refl

-- `UserDeleted(Box<UserDeleted>)` and `UserChanged`
abbrev user_deleted : EventSchema
user_deleted = record {
  events = "UserDeleted" ∷ [];
  events_info = record { name = "UserDeleted"; domain_identifiers = "user_id" ∷ [] } ∷ [];
  domain_identifiers = record { ident = "user_id"; type_info = IdentifierType.string } ∷ [];
}

derives_user_deleted : impl_struct "UserDeleted" (id "user_id" ∷ []) ≡ ok user_deleted
unfolding impl_struct
derives_user_deleted = refl

abbrev users : List Variant
users =
    record { ident = "UserDeleted"; fields = Fields.unnamed (PayloadType.boxed user_deleted) }
    ∷ variant "OrderCancelled" (id "order_id" ∷ [])
    ∷ record { ident = "UserChanged"; fields = Fields.unit }
    ∷ []

derives_users :
    impl_enum users
    ≡ ok (record {
      events = "UserDeleted" ∷ "OrderCancelled" ∷ "UserChanged" ∷ [];
      events_info =
          record { name = "UserDeleted"; domain_identifiers = "user_id" ∷ [] }
          ∷ record { name = "OrderCancelled"; domain_identifiers = "order_id" ∷ [] }
          ∷ record { name = "UserChanged"; domain_identifiers = [] }
          ∷ [];
      domain_identifiers =
          record { ident = "order_id"; type_info = IdentifierType.string }
          ∷ record { ident = "user_id"; type_info = IdentifierType.string }
          ∷ [];
    })
unfolding impl_enum
derives_users = refl

-- Values of fields are identifier values here, and there are no payloads.
abbrev into : IdentifierValue → IdentifierValue
into v = v

abbrev no_payload : IdentifierValue → DomainIdentifierSet
no_payload v = []

abbrev subscription : Value IdentifierValue
subscription = record {
  variant = "StudentSubscribed";
  content =
      Content.named (
        ("student_id", IdentifierValue.string "s")
        ∷ ("course_id", IdentifierValue.string "c")
        ∷ []);
}

domain_identifiers-Declares_example :
    (contains courses_event.schema.events (name subscription) ≡ true)
    × (info : EventInfo) × (event_info courses_event.schema (name subscription) ≡ some info)
    × Declares info
        (find_type courses_event.schema.domain_identifiers)
        (domain_identifiers into no_payload courses subscription)
domain_identifiers-Declares_example =
    domain_identifiers-Declares into no_payload courses courses_event.schema subscription
      (variant "StudentSubscribed" (id "student_id" ∷ id "course_id" ∷ [])) derives_courses refl
      (refl, (λ h. refl), (refl, (λ h. refl), tt))

impl_enum_iff_example : ((schema : EventSchema) × (impl_enum courses ≡ ok schema)) ↔ (
    All (λ (v : Variant). Allowed v.fields) courses
    × ((typing : Identifier → Option IdentifierType) × Agree typing courses))
impl_enum_iff_example = impl_enum_iff courses

stream-Converts_example :
    (contains course_subscription_schema.events (name subscription) ≡ true
      → Converts into no_payload courses subscription_args "error" subscription)
    × (contains course_subscription_schema.events (name subscription) ≡ false
        → (try_from "error" (selected_variants courses subscription_args) subscription
            ≡ err "error")
          × (from (selected_variants courses subscription_args) subscription ≡ none))
stream-Converts_example =
    stream-Converts into no_payload courses subscription_args courses_event.schema
      course_subscription_schema derives_courses derives_course_subscription "error" subscription
      (variant "StudentSubscribed" (id "student_id" ∷ id "course_id" ∷ [])) refl
      (refl, (λ h. refl), (refl, (λ h. refl), tt)) refl

query-Converts_example :
    try_from "error" (selected_variants courses subscription_args) subscription ≡ ok subscription
query-Converts_example =
    query-Converts into no_payload courses subscription_args courses_event.schema
      course_subscription_schema derives_courses derives_course_subscription "error" subscription
      (variant "StudentSubscribed" (id "student_id" ∷ id "course_id" ∷ [])) refl
      (refl, (λ h. refl), (refl, (λ h. refl), tt)) (("course_id", IdentifierValue.string "c") ∷ [])
      3 4
      (unfold Query.matches Query.change_origin Query.query Filter.matches Filter.change_origin
          Filter.cast Filter.new Identifier.get name domain_identifiers
          Identifier.domain_identifiers Identifier.insert_all Identifier.insert in
        refl)

-- `UserOrder` of disintegrate-macros/tests/state_query.rs, on the courses.
abbrev state_args : StateQueryArgs
state_args = record { event = courses_event.schema; optional_args = "first" ∷ "last" ∷ [] }

abbrev state_fields : List Field
state_fields = id "course_id" ∷ plain "free" ∷ id "student_id" ∷ []

abbrev state_values : List (String × IdentifierValue)
state_values =
    ("course_id", IdentifierValue.string "c")
    ∷ ("free", IdentifierValue.string "")
    ∷ ("student_id", IdentifierValue.string "s")
    ∷ []

abbrev state_pairs : List DomainIdentifier
state_pairs =
    record { key = "course_id"; value = IdentifierValue.string "c" }
    ∷ record { key = "student_id"; value = IdentifierValue.string "s" }
    ∷ []

abbrev state_query : StateQuery
state_query = record {
  name = "last";
  query =
      Query.query courses_event.schema
        (some (Filter.new courses_event.schema (Identifier.domain_identifiers state_pairs)));
}

derives_state_query :
    state_query_inner into "State" (state_args ∷ []) state_fields state_values ≡ ok state_query
unfolding state_query_inner
derives_state_query = refl

abbrev persisted : PersistedEvent (Value IdentifierValue)
persisted = record { id = 4; event = subscription }

state_query-matches_example :
    (state_query.name ≡ state_query_name "State" state_args.optional_args)
    × ((Query.matches
            (derived_event into no_payload courses courses_event.schema)
            state_query.query
            persisted
          ≡ true)
        ↔ ((contains courses_event.schema.events (name persisted.event) ≡ true)
            × HasAll (domain_identifiers into no_payload courses persisted.event) state_pairs
            × (0 < persisted.id)))
state_query-matches_example =
    state_query-matches (derived_event into no_payload courses courses_event.schema) persisted into
      "State" state_args state_fields state_values state_query derives_state_query
      (refl, (refl, tt))
