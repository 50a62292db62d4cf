-- ===== src/Tests/Carts.antt =====
-- Carts and coupons.
use disintegrate.Prelude.{◌≡◌, refl, true, none, [], ◌∷◌, any}
use disintegrate.Cart.Streams.{CartEvent}
use disintegrate.Cart.Decisions.{Cart, Coupon, item_eq, mutate_cart}
use disintegrate.Cart.Laws.{item_updated_twice}

abbrev two_left : Coupon
two_left = record { coupon_id = "ten off"; quantity = 2 }

abbrev with_pens : Cart
with_pens = record {
  user_id = "user";
  items = record { id = "pen"; quantity = 3 } ∷ [];
  applied_coupon = none;
}

item_updated_twice_example :
    (any
        (item_eq (record { id = "pen"; quantity = 3 }))
        (mutate_cart with_pens (CartEvent.item_updated "user" "pen" 5)).items
      ≡ true)
    × (any
          (item_eq (record { id = "pen"; quantity = 5 }))
          (mutate_cart with_pens (CartEvent.item_updated "user" "pen" 5)).items
        ≡ true)
item_updated_twice_example = item_updated_twice with_pens "user" "pen" 3 5 refl refl
