-- ===== src/Cart/Laws.antt =====
-- About the carts and coupons of examples/cart/src/cart.rs.
use disintegrate.Prelude.{
  ℕ, zero, suc, ◌+◌, ◌≡◌, refl, true, false, not, String, some, List, [], ◌∷◌, any, filter, eqb,
  eq_refl, arith, Bool-cases, inl, inr,
}
use disintegrate.Prelude.Result.{ok, err}
use disintegrate.Cart.{DomainEvent}
use disintegrate.Cart.Streams.{CartEvent, CouponEvent}
use disintegrate.Cart.Decisions.{
  Item, Cart, Coupon, item_eq, mutate_cart, use_one, mutate_coupon, apply_coupon,
  coupon_already_applied,
}

used :
    (c : Coupon) (quantity : ℕ)
    → eqb quantity 0 ≡ false
    → (c' : Coupon) × (use_one c quantity ≡ some c') × (c'.quantity + 1 ≡ quantity)
used c zero h = absurd (ground arith)
used c (suc quantity) h = (record c { quantity = quantity }, refl, omega arith)

-- To take out the item with another quantity keeps this one.
kept :
    (item_id : String) (quantity new_quantity : ℕ) (items : List Item)
    → any (item_eq (record { id = item_id; quantity = quantity })) items ≡ true
    → eqb new_quantity quantity ≡ false
    → any
        (item_eq (record { id = item_id; quantity = quantity }))
        (filter (λ j. not (item_eq (record { id = item_id; quantity = new_quantity }) j)) items)
      ≡ true
kept item_id quantity new_quantity [] here other = here
kept item_id quantity new_quantity (j ∷ items) here other =
    elim (Bool-cases (item_eq (record { id = item_id; quantity = quantity }) j)) [
      | inl y ↦ ground arith
      | inr n ↦
          let rest = kept item_id quantity new_quantity items (ground arith) other in ground arith
    ]

-- A coupon that a cart accepts is taken from those that are left, with no panic, and a cart that has
-- one accepts no other, of whatever kind and however many are left.
pub apply_coupon_once :
    (user_id coupon_id other_id : String) (s : Cart) (c other : Coupon) (events : List DomainEvent)
    → (apply_coupon user_id coupon_id).process (s, c) ≡ ok events
    → (events ≡ DomainEvent.coupon_applied coupon_id user_id ∷ [])
      × ((c' : Coupon) × (mutate_coupon c (CouponEvent.coupon_applied coupon_id user_id) ≡ some c')
          × (c'.quantity + 1 ≡ c.quantity))
      × ((apply_coupon user_id other_id).process
            (mutate_cart s (CartEvent.coupon_applied coupon_id user_id), other)
          ≡ err coupon_already_applied)
unfolding apply_coupon mutate_coupon mutate_cart
apply_coupon_once user_id coupon_id other_id s c other events h =
    (ground arith, used c c.quantity (ground arith), refl)

-- An update of an item to another quantity leaves the item with the old quantity in the cart too,
-- since the items of the set are compared with their quantities.
pub item_updated_twice :
    (s : Cart) (user_id item_id : String) (quantity new_quantity : ℕ)
    → any (item_eq (record { id = item_id; quantity = quantity })) s.items ≡ true
    → eqb new_quantity quantity ≡ false
    → (any
          (item_eq (record { id = item_id; quantity = quantity }))
          (mutate_cart s (CartEvent.item_updated user_id item_id new_quantity)).items
        ≡ true)
      × (any
            (item_eq (record { id = item_id; quantity = new_quantity }))
            (mutate_cart s (CartEvent.item_updated user_id item_id new_quantity)).items
          ≡ true)
unfolding mutate_cart
item_updated_twice s user_id item_id quantity new_quantity here other =
    let same = eq_refl item_id in
    let stays = kept item_id quantity new_quantity s.items here other in
    (ground arith, ground arith)
