-- ===== src/Courses/Streams.antt =====
-- What `#[derive(Event)]` and `#[stream(...)]` derive for the events of
-- examples/courses/src/domain.rs.
use disintegrate.Prelude.{ℕ, String, Option, none, some, List, [], ◌∷◌, map}
use disintegrate.Identifier.{Identifier, IdentifierType, IdentifierValue, DomainIdentifierSet}
use disintegrate.Event.{EventInfo, EventSchema, Event}
use disintegrate.Courses.{CourseId, StudentId, DomainEvent}

pub data CourseSubscriptionEvent : Type 0 where
  course_created : (course_id : CourseId) (name : String) (seats : ℕ) → CourseSubscriptionEvent
  course_closed : (course_id : CourseId) → CourseSubscriptionEvent
  student_subscribed student_unsubscribed :
      (student_id : StudentId) (course_id : CourseId) → CourseSubscriptionEvent

pub data StudentSubscriptionEvent : Type 0 where
  student_subscribed student_unsubscribed :
      (student_id : StudentId) (course_id : CourseId) → StudentSubscriptionEvent
  student_registered : (student_id : StudentId) (name : String) → StudentSubscriptionEvent

pub data UnsubscriptionEvent : Type 0 where
  student_subscribed student_unsubscribed :
      (student_id : StudentId) (course_id : CourseId) → UnsubscriptionEvent

pub data CourseEvent : Type 0 where
  course_created : (course_id : CourseId) (name : String) (seats : ℕ) → CourseEvent
  course_closed : (course_id : CourseId) → CourseEvent
  course_renamed : (course_id : CourseId) (name : String) → CourseEvent

pub data StudentEvent : Type 0 where
  student_registered : (student_id : StudentId) (name : String) → StudentEvent

-- `TryFrom<DomainEvent>` of the streams.
abbrev pub into_course_subscription : DomainEvent → Option CourseSubscriptionEvent
into_course_subscription (DomainEvent.course_created c name seats) =
    some (CourseSubscriptionEvent.course_created c name seats)
into_course_subscription (DomainEvent.course_closed c) =
    some (CourseSubscriptionEvent.course_closed c)
into_course_subscription (DomainEvent.student_subscribed s c) =
    some (CourseSubscriptionEvent.student_subscribed s c)
into_course_subscription (DomainEvent.student_unsubscribed s c) =
    some (CourseSubscriptionEvent.student_unsubscribed s c)
into_course_subscription _ = none

abbrev pub into_student_subscription : DomainEvent → Option StudentSubscriptionEvent
into_student_subscription (DomainEvent.student_subscribed s c) =
    some (StudentSubscriptionEvent.student_subscribed s c)
into_student_subscription (DomainEvent.student_unsubscribed s c) =
    some (StudentSubscriptionEvent.student_unsubscribed s c)
into_student_subscription (DomainEvent.student_registered s name) =
    some (StudentSubscriptionEvent.student_registered s name)
into_student_subscription _ = none

abbrev pub into_unsubscription : DomainEvent → Option UnsubscriptionEvent
into_unsubscription (DomainEvent.student_subscribed s c) =
    some (UnsubscriptionEvent.student_subscribed s c)
into_unsubscription (DomainEvent.student_unsubscribed s c) =
    some (UnsubscriptionEvent.student_unsubscribed s c)
into_unsubscription _ = none

abbrev pub into_course : DomainEvent → Option CourseEvent
into_course (DomainEvent.course_created c name seats) =
    some (CourseEvent.course_created c name seats)
into_course (DomainEvent.course_closed c) = some (CourseEvent.course_closed c)
into_course (DomainEvent.course_renamed c name) = some (CourseEvent.course_renamed c name)
into_course _ = none

abbrev pub into_student : DomainEvent → Option StudentEvent
into_student (DomainEvent.student_registered s name) = some (StudentEvent.student_registered s name)
into_student _ = none

abbrev course_info : String → EventInfo
course_info name = record { name = name; domain_identifiers = "course_id" ∷ [] }

abbrev student_info : String → EventInfo
student_info name = record { name = name; domain_identifiers = "student_id" ∷ [] }

abbrev both_info : String → EventInfo
both_info name = record { name = name; domain_identifiers = "student_id" ∷ "course_id" ∷ [] }

-- The identifiers of the schema are texts.
abbrev schema_of : List EventInfo → List Identifier → EventSchema
schema_of infos idents = record {
  events = map (λ info. info.name) infos;
  events_info = infos;
  domain_identifiers =
      map (λ ident. record { ident = ident; type_info = IdentifierType.string }) idents;
}

abbrev pub course_subscription_schema : EventSchema
course_subscription_schema =
    schema_of
      (course_info "CourseCreated"
        ∷ course_info "CourseClosed"
        ∷ both_info "StudentSubscribed"
        ∷ both_info "StudentUnsubscribed"
        ∷ [])
      ("course_id" ∷ "student_id" ∷ [])

abbrev pub student_subscription_schema : EventSchema
student_subscription_schema =
    schema_of
      (both_info "StudentSubscribed"
        ∷ both_info "StudentUnsubscribed"
        ∷ student_info "StudentRegistered"
        ∷ [])
      ("course_id" ∷ "student_id" ∷ [])

abbrev pub unsubscription_schema : EventSchema
unsubscription_schema =
    schema_of (both_info "StudentSubscribed" ∷ both_info "StudentUnsubscribed" ∷ [])
      ("course_id" ∷ "student_id" ∷ [])

abbrev pub course_schema : EventSchema
course_schema =
    schema_of
      (course_info "CourseCreated" ∷ course_info "CourseClosed" ∷ course_info "CourseRenamed" ∷ [])
      ("course_id" ∷ [])

abbrev pub student_schema : EventSchema
student_schema = schema_of (student_info "StudentRegistered" ∷ []) ("student_id" ∷ [])

abbrev name : DomainEvent → String
name (DomainEvent.course_created c title seats) = "CourseCreated"
name (DomainEvent.course_closed c) = "CourseClosed"
name (DomainEvent.course_renamed c title) = "CourseRenamed"
name (DomainEvent.student_registered s title) = "StudentRegistered"
name (DomainEvent.student_subscribed s c) = "StudentSubscribed"
name (DomainEvent.student_unsubscribed s c) = "StudentUnsubscribed"

abbrev pub course_set : CourseId → DomainIdentifierSet
course_set c = ("course_id", IdentifierValue.string c) ∷ []

abbrev pub student_set : StudentId → DomainIdentifierSet
student_set s = ("student_id", IdentifierValue.string s) ∷ []

abbrev pub both_set : StudentId → CourseId → DomainIdentifierSet
both_set s c =
    ("course_id", IdentifierValue.string c) ∷ ("student_id", IdentifierValue.string s) ∷ []

abbrev identifiers : DomainEvent → DomainIdentifierSet
identifiers (DomainEvent.course_created c title seats) = course_set c
identifiers (DomainEvent.course_closed c) = course_set c
identifiers (DomainEvent.course_renamed c title) = course_set c
identifiers (DomainEvent.student_registered s title) = student_set s
identifiers (DomainEvent.student_subscribed s c) = both_set s c
identifiers (DomainEvent.student_unsubscribed s c) = both_set s c

abbrev pub courses_event : Event DomainEvent
courses_event = record {
  schema =
      schema_of
        (course_info "CourseCreated"
          ∷ course_info "CourseClosed"
          ∷ course_info "CourseRenamed"
          ∷ student_info "StudentRegistered"
          ∷ both_info "StudentSubscribed"
          ∷ both_info "StudentUnsubscribed"
          ∷ [])
        ("course_id" ∷ "student_id" ∷ []);
  name = name;
  domain_identifiers = identifiers;
}
