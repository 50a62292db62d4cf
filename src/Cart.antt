-- ===== src/Cart.antt =====
-- The events of the cart example: examples/cart/src/event.rs.
pub mod Streams
pub mod Decisions
pub mod Laws
use disintegrate.Prelude.{ℕ, String}

pub data DomainEvent : Type 0 where
  user_created : (user_id name : String) → DomainEvent
  item_added : (user_id item_id : String) (quantity : ℕ) → DomainEvent
  item_removed : (user_id item_id : String) → DomainEvent
  item_updated : (user_id item_id : String) (new_quantity : ℕ) → DomainEvent
  coupon_emitted : (coupon_id : String) (quantity : ℕ) → DomainEvent
  coupon_applied : (coupon_id user_id : String) → DomainEvent
