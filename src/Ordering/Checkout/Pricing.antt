-- ===== src/Ordering/Checkout/Pricing.antt =====
-- The amounts of a checkout: the guards of the pricing loop keep int64 exact.
use b46_ordering_app_backend.Base.{
  ℕ, suc, ◌+◌, ◌*◌, ◌/◌, ◌≤◌, ◌≡◌, refl, true, List, [], ◌∷◌, ok, bind_ok, or_fail, subst, arith,
  pos, ℤ, pos_part, div64, add64_exact, sub64_exact, mul64_exact, max_int64, All,
}
use b46_ordering_app_backend.Ordering.Domain.{
  OrderLine, CheckoutLine, ProductSnapshot, cart_changed, technical, new_line_id,
}
use b46_ordering_app_backend.Ordering.Checkout.{
  line_is_valid, product_by_id, product_or_zero, product_matches, price_line, price_lines,
  build_lines, IdGenerator, order_line,
}

-- A quantity from 1 to 100 and a price that is not negative.
abbrev pub IsValidLine : CheckoutLine → Type 0
IsValidLine l = line_is_valid l ≡ true

abbrev pub price_of : List ProductSnapshot → CheckoutLine → ℕ
price_of products r = pos_part (product_or_zero r.product_id products).unit_price_centavos

-- The exact cost of the requested lines.
pub cost : List ProductSnapshot → List CheckoutLine → ℕ
cost products [] = 0
cost products (r ∷ rs) = price_of products r * pos_part r.quantity + cost products rs

quantity_range :
    (l : CheckoutLine)
    → IsValidLine l
    → (l.quantity ≡ pos (pos_part l.quantity))
      × (1 ≤ pos_part l.quantity)
      × (pos_part l.quantity ≤ 100)
unfolding line_is_valid
quantity_range l h = ground arith

fits : (p q : ℕ) → 1 ≤ q → p ≤ max_int64 / q → p * q ≤ max_int64
fits p q h k = grind arith

price_line-ok :
    (r : CheckoutLine) (product : ProductSnapshot) (q s : ℕ) {t : ℤ}
    → r.quantity ≡ pos q
    → 1 ≤ q
    → price_line r product (pos s) ≡ ok t
    → let p = pos_part product.unit_price_centavos in
      (product.unit_price_centavos ≡ pos p)
      × (product_matches r product ≡ true)
      × (s + p * q ≤ max_int64)
      × (t ≡ pos (s + p * q))
unfolding price_line div64
price_line-ok r product q s {t} e one h =
    let p = pos_part product.unit_price_centavos in
    ground (arith, fits p q, mul64_exact p q, sub64_exact max_int64 (p * q), add64_exact s (p * q))

-- What the pricing loop found out about a requested line.
abbrev pub IsPriced : List ProductSnapshot → CheckoutLine → Type 0
IsPriced products r =
    let product = product_or_zero r.product_id products in
    (product.unit_price_centavos ≡ pos (price_of products r))
    × (product_matches r product ≡ true)
    × (price_of products r * pos_part r.quantity ≤ max_int64)

-- A successful round and what is left of the loop.
price_lines-cons :
    (products : List ProductSnapshot) (r : CheckoutLine) (rs : List CheckoutLine) (s : ℤ) {t : ℤ}
    → price_lines products (r ∷ rs) s ≡ ok t
    → (u : ℤ) × (price_line r (product_or_zero r.product_id products) s ≡ ok u)
      × (price_lines products rs u ≡ ok t)
unfolding price_lines product_or_zero
price_lines-cons products r rs s h =
    bind_ok (or_fail (product_by_id r.product_id products) cart_changed) h λ product found h'.
      bind_ok (price_line r product s) h' λ u priced rest. (u, ground arith, rest)

pub price_lines-ok :
    (products : List ProductSnapshot) (rs : List CheckoutLine) (s : ℕ) {t : ℤ}
    → All IsValidLine rs
    → s ≤ max_int64
    → price_lines products rs (pos s) ≡ ok t
    → (t ≡ pos (s + cost products rs))
      × (s + cost products rs ≤ max_int64)
      × All (IsPriced products) rs
unfolding price_lines cost
price_lines-ok products [] s v b h = (ground arith, omega arith, tt)
price_lines-ok products (r ∷ rs) s {t} v b h =
    let (u, priced, rest) = price_lines-cons products r rs (pos s) h in
    let (whole, one, few) = quantity_range r v.0 in
    let (exact, matches, bound, sum) =
      price_line-ok r (product_or_zero r.product_id products) (pos_part r.quantity) s whole one
        priced in
    let (total, fit, others) =
      price_lines-ok products rs (s + price_of products r * pos_part r.quantity) v.1 bound
        (subst (λ x. price_lines products rs x ≡ ok t) sum rest) in
    (ground arith, omega arith, ((exact, matches, omega arith), others))

-- The lines that `build_lines` makes, one for each request, in the order of the requests.
abbrev pub LinesMatch : List ProductSnapshot → List CheckoutLine → List OrderLine → Type 0
LinesMatch products [] [] = Unit
LinesMatch products (r ∷ rs) (l ∷ ls) =
    (l ≡ order_line l.id r (product_or_zero r.product_id products)) × LinesMatch products rs ls
LinesMatch _ _ _ = ⊥

pub build_lines-LinesMatch :
    (ids : IdGenerator) (k : ℕ) (products : List ProductSnapshot) (rs : List CheckoutLine)
    {ls : List OrderLine}
    → build_lines ids k products rs ≡ ok ls
    → LinesMatch products rs ls
unfolding build_lines
build_lines-LinesMatch ids k products [] {ls = []} h = tt
build_lines-LinesMatch ids k products [] {ls = l ∷ ls} h = cc
build_lines-LinesMatch ids k products (r ∷ rs) h =
    bind_ok (or_fail (ids (3 + k)) (technical (new_line_id k))) h λ id drawn h'.
      bind_ok (build_lines ids (suc k) products rs) h' λ more built e.
        subst (LinesMatch products (r ∷ rs))
          {x = order_line id r (product_or_zero r.product_id products) ∷ more} (ground arith)
          (refl, build_lines-LinesMatch ids (suc k) products rs built)

-- An order line whose amounts are exact: no factor is negative and the total did not wrap.
abbrev pub IsExactLine : OrderLine → Type 0
IsExactLine l =
    (l.unit_price_centavos ≡ pos (pos_part l.unit_price_centavos))
    × (l.quantity ≡ pos (pos_part l.quantity))
    × (1 ≤ pos_part l.quantity)
    × (pos_part l.quantity ≤ 100)
    × (l.line_total_centavos ≡ pos (pos_part l.unit_price_centavos * pos_part l.quantity))

-- The exact sum of the lines' prices times quantities.
pub amount : List OrderLine → ℕ
amount [] = 0
amount (l ∷ ls) = pos_part l.unit_price_centavos * pos_part l.quantity + amount ls

pub LinesMatch-exact :
    (products : List ProductSnapshot) (rs : List CheckoutLine) (ls : List OrderLine)
    → All IsValidLine rs
    → All (IsPriced products) rs
    → LinesMatch products rs ls
    → All IsExactLine ls × (amount ls ≡ cost products rs)
unfolding amount cost
LinesMatch-exact products [] [] v p m = (tt, refl)
LinesMatch-exact products [] (l ∷ ls) v p m = absurd m
LinesMatch-exact products (r ∷ rs) [] v p m = absurd m
LinesMatch-exact products (r ∷ rs) (l ∷ ls) v p m =
    let (exact, sum) = LinesMatch-exact products rs ls v.1 p.1 m.1 in
    let (whole, one, few) = quantity_range r v.0 in
    let total = mul64_exact (price_of products r) (pos_part r.quantity) in
    ((ground (arith, total), exact), ground (arith, total))
