-- ===== src/Cart/Decisions.antt =====
-- The states and decisions of examples/cart/src/cart.rs. A `u32` is a natural number whose sums and
-- differences are checked: an overflow panics.
use disintegrate.Prelude.{
  ℕ, zero, suc, ◌+◌, ◌^◌, String, Bool, true, false, not, ◌&&◌, Option, none, some, List, [], ◌∷◌,
  any, filter, ltb, eqb, ◌==◌, if◌then◌else◌,
}
use disintegrate.Prelude.Result.{ok, err}
use disintegrate.Stream.Filter
use disintegrate.Stream.Query
use disintegrate.State.{StateMutate}
use disintegrate.Decision.{Decision}
use disintegrate.Cart.{DomainEvent}
use disintegrate.Cart.Streams.{
  CartEvent, CouponEvent, into_cart, into_coupon, cart_schema, coupon_schema, user_set, coupon_set,
}

pub record Item : Type 0 where
  pub id : String
  pub quantity : ℕ

-- The derived `PartialEq`.
abbrev pub item_eq : Item → Item → Bool
item_eq a b = a.id == b.id && eqb a.quantity b.quantity

-- The `HashSet` of items is a list without duplicates.
pub record Cart : Type 0 where
  pub user_id : String
  pub items : List Item
  pub applied_coupon : Option String

abbrev pub new_cart : String → Cart
new_cart user_id = record { user_id = user_id; items = []; applied_coupon = none }

-- `HashSet::insert` keeps the item that is there.
abbrev pub insert_item : Item → List Item → List Item
insert_item i items = if any (item_eq i) items then items else i ∷ items

-- `HashSet::replace` takes out the equal item.
abbrev pub replace_item : Item → List Item → List Item
replace_item i items = i ∷ filter (λ j. not (item_eq i j)) items

unfoldable pub mutate_cart : Cart → CartEvent → Cart
mutate_cart s (CartEvent.item_added user_id item_id quantity) = record s {
  items = insert_item (record { id = item_id; quantity = quantity }) s.items;
}
mutate_cart s (CartEvent.item_removed user_id item_id) = record s {
  items = filter (λ item. not (item.id == item_id)) s.items;
}
mutate_cart s (CartEvent.item_updated user_id item_id new_quantity) = record s {
  items = replace_item (record { id = item_id; quantity = new_quantity }) s.items;
}
mutate_cart s (CartEvent.coupon_applied coupon_id user_id) = record s {
  applied_coupon = some coupon_id;
}

abbrev pub cart : StateMutate Cart CartEvent DomainEvent
cart = record {
  name = "Cart";
  query = λ s. Query.query cart_schema (some (Filter.new cart_schema (user_set s.user_id)));
  try_into = into_cart;
  mutate = λ s e. some (mutate_cart s e);
}

pub data CartError : Type 0 where
  coupon_already_applied coupon_not_available : CartError

-- `AddItem`
unfoldable pub add_item : String → String → ℕ → Decision Cart DomainEvent CartError
add_item user_id item_id quantity = record {
  state_query = new_cart user_id;
  validation_query = none;
  process = λ state. ok (DomainEvent.item_added user_id item_id quantity ∷ []);
}

pub record Coupon : Type 0 where
  pub coupon_id : String
  pub quantity : ℕ

abbrev pub new_coupon : String → Coupon
new_coupon id = record { coupon_id = id; quantity = 0 }

-- `self.quantity -= 1`
abbrev pub use_one : Coupon → ℕ → Option Coupon
use_one s zero = none
use_one s (suc quantity) = some (record s { quantity = quantity })

unfoldable pub mutate_coupon : Coupon → CouponEvent → Option Coupon
mutate_coupon s (CouponEvent.coupon_emitted id quantity) =
    if ltb (s.quantity + quantity) (2 ^ 32)
    then some (record s { quantity = s.quantity + quantity })
    else none
mutate_coupon s (CouponEvent.coupon_applied id user_id) = use_one s s.quantity

abbrev pub coupon : StateMutate Coupon CouponEvent DomainEvent
coupon = record {
  name = "Coupon";
  query = λ s. Query.query coupon_schema (some (Filter.new coupon_schema (coupon_set s.coupon_id)));
  try_into = into_coupon;
  mutate = mutate_coupon;
}

abbrev is_some : Option String → Bool
is_some none = false
is_some (some id) = true

-- `ApplyCoupon`
unfoldable pub apply_coupon : String → String → Decision (Cart × Coupon) DomainEvent CartError
apply_coupon user_id coupon_id = record {
  state_query = (new_cart user_id, new_coupon coupon_id);
  validation_query = none;
  process = λ states.
      if is_some states.0.applied_coupon
      then err coupon_already_applied
      else if eqb states.1.quantity 0
      then err coupon_not_available
      else ok (DomainEvent.coupon_applied coupon_id user_id ∷ []);
}
