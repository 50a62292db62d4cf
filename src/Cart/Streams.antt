-- ===== src/Cart/Streams.antt =====
-- What `#[derive(Event)]` and `#[stream(...)]` derive for the events of examples/cart/src/event.rs.
use disintegrate.Prelude.{ℕ, String, Option, none, some, List, [], ◌∷◌, map}
use disintegrate.Identifier.{Identifier, IdentifierType, IdentifierValue, DomainIdentifierSet}
use disintegrate.Event.{EventInfo, EventSchema, Event}
use disintegrate.Cart.{DomainEvent}

pub data CartEvent : Type 0 where
  item_added : (user_id item_id : String) (quantity : ℕ) → CartEvent
  item_removed : (user_id item_id : String) → CartEvent
  item_updated : (user_id item_id : String) (new_quantity : ℕ) → CartEvent
  coupon_applied : (coupon_id user_id : String) → CartEvent

pub data CouponEvent : Type 0 where
  coupon_emitted : (coupon_id : String) (quantity : ℕ) → CouponEvent
  coupon_applied : (coupon_id user_id : String) → CouponEvent

-- `TryFrom<DomainEvent>` of the streams.
abbrev pub into_cart : DomainEvent → Option CartEvent
into_cart (DomainEvent.item_added u i n) = some (CartEvent.item_added u i n)
into_cart (DomainEvent.item_removed u i) = some (CartEvent.item_removed u i)
into_cart (DomainEvent.item_updated u i n) = some (CartEvent.item_updated u i n)
into_cart (DomainEvent.coupon_applied c u) = some (CartEvent.coupon_applied c u)
into_cart _ = none

abbrev pub into_coupon : DomainEvent → Option CouponEvent
into_coupon (DomainEvent.coupon_emitted c n) = some (CouponEvent.coupon_emitted c n)
into_coupon (DomainEvent.coupon_applied c u) = some (CouponEvent.coupon_applied c u)
into_coupon _ = none

abbrev info : String → List Identifier → EventInfo
info name idents = record { name = name; domain_identifiers = idents }

abbrev schema_of : List EventInfo → List Identifier → EventSchema
schema_of infos idents = record {
  events = map (λ i. i.name) infos;
  events_info = infos;
  domain_identifiers =
      map (λ ident. record { ident = ident; type_info = IdentifierType.string }) idents;
}

abbrev pub cart_schema : EventSchema
cart_schema =
    schema_of
      (info "ItemAdded" ("item_id" ∷ "user_id" ∷ [])
        ∷ info "ItemRemoved" ("item_id" ∷ "user_id" ∷ [])
        ∷ info "ItemUpdated" ("item_id" ∷ "user_id" ∷ [])
        ∷ info "CouponApplied" ("coupon_id" ∷ "user_id" ∷ [])
        ∷ [])
      ("coupon_id" ∷ "item_id" ∷ "user_id" ∷ [])

abbrev pub coupon_schema : EventSchema
coupon_schema =
    schema_of
      (info "CouponEmitted" ("coupon_id" ∷ [])
        ∷ info "CouponApplied" ("coupon_id" ∷ "user_id" ∷ [])
        ∷ [])
      ("coupon_id" ∷ "user_id" ∷ [])

abbrev name : DomainEvent → String
name (DomainEvent.user_created u title) = "UserCreated"
name (DomainEvent.item_added u i n) = "ItemAdded"
name (DomainEvent.item_removed u i) = "ItemRemoved"
name (DomainEvent.item_updated u i n) = "ItemUpdated"
name (DomainEvent.coupon_emitted c n) = "CouponEmitted"
name (DomainEvent.coupon_applied c u) = "CouponApplied"

abbrev pub user_set : String → DomainIdentifierSet
user_set u = ("user_id", IdentifierValue.string u) ∷ []

abbrev pub coupon_set : String → DomainIdentifierSet
coupon_set c = ("coupon_id", IdentifierValue.string c) ∷ []

abbrev item_set : String → String → DomainIdentifierSet
item_set u i = ("item_id", IdentifierValue.string i) ∷ user_set u

abbrev identifiers : DomainEvent → DomainIdentifierSet
identifiers (DomainEvent.user_created u title) = user_set u
identifiers (DomainEvent.item_added u i n) = item_set u i
identifiers (DomainEvent.item_removed u i) = item_set u i
identifiers (DomainEvent.item_updated u i n) = item_set u i
identifiers (DomainEvent.coupon_emitted c n) = coupon_set c
identifiers (DomainEvent.coupon_applied c u) = ("coupon_id", IdentifierValue.string c) ∷ user_set u

abbrev pub cart_event : Event DomainEvent
cart_event = record {
  schema =
      schema_of
        (info "UserCreated" ("user_id" ∷ [])
          ∷ info "ItemAdded" ("item_id" ∷ "user_id" ∷ [])
          ∷ info "ItemRemoved" ("item_id" ∷ "user_id" ∷ [])
          ∷ info "ItemUpdated" ("item_id" ∷ "user_id" ∷ [])
          ∷ info "CouponEmitted" ("coupon_id" ∷ [])
          ∷ info "CouponApplied" ("coupon_id" ∷ "user_id" ∷ [])
          ∷ [])
        ("coupon_id" ∷ "item_id" ∷ "user_id" ∷ []);
  name = name;
  domain_identifiers = identifiers;
}
