-- ===== src/Ordering/Checkout/Draft.antt =====
-- The order that PlaceOrder hands to the store.
use b46_ordering_app_backend.Base.{
  suc, ◌≤◌, ◌≡◌, refl, sym, ◌∙◌, ap, subst, String, true, not, List, [], ◌∷◌, Result, ok, err,
  bind_ok, passed, ok-injective, fail_if, or_fail, arith, All, length, map, ℤ, pos, max_int64,
}
use b46_ordering_app_backend.Base.Keys.{Distinct, Absent}
use b46_ordering_app_backend.Ordering.Domain.{
  CheckoutLine, OrderError, invalid_input, technical, new_order_id, new_event_id, new_operation_id,
  PlaceOrderCommand, OrderDraft, Order, OrderLine, ProductSnapshot,
}
use b46_ordering_app_backend.Base.Sort.{sort_by, sort_by-All, sort_by-Distinct, length-sort_by}
use b46_ordering_app_backend.Ordering.Checkout.{
  Ports, make_draft, draft_of_trimmed, trimmed_command, command_is_valid, collect_lines,
  price_lines, build_lines, by_product_id, draft_order, wrap_resolve, checkout_payload,
  trimmed_line,
}
use b46_ordering_app_backend.Ordering.Checkout.Pricing.{
  IsValidLine, IsExactLine, LinesMatch, amount, price_lines-ok, build_lines-LinesMatch,
  LinesMatch-exact,
}
use b46_ordering_app_backend.Ordering.Checkout.Lines.{line_key, collect_lines-ok}

-- The values that PlaceOrder had computed when it reached the store.
record Parts (ports : Ports) (command : PlaceOrderCommand) (draft : OrderDraft) : Type 0 where
  requested : List CheckoutLine
  products : List ProductSnapshot
  subtotal : ℤ
  order_id : String
  lines : List OrderLine
  valid : command_is_valid command ≡ true
  collected : collect_lines command.lines [] ≡ ok requested
  priced : price_lines products (sort_by by_product_id requested) (pos 0) ≡ ok subtotal
  built : build_lines ports.ids 0 products (sort_by by_product_id requested) ≡ ok lines
  resolved : ports.resolve (map line_key (sort_by by_product_id requested)) ≡ ok products
  ordered : draft.order ≡ draft_order command order_id subtotal lines ports.now
  fingerprint :
      draft.checkout_fingerprint
      ≡ ports.digest (checkout_payload command (sort_by by_product_id requested))

unwrap :
    (r : Result OrderError (List ProductSnapshot)) {ps : List ProductSnapshot}
    → wrap_resolve r ≡ ok ps
    → r ≡ ok ps
unwrap (ok ps) h = h
unwrap (err e) h = cc

Parts-draft_of_trimmed :
    (ports : Ports) (command : PlaceOrderCommand) {draft : OrderDraft}
    → draft_of_trimmed ports command ≡ ok draft
    → Parts ports command draft
unfolding draft_of_trimmed
Parts-draft_of_trimmed ports command {draft} h0 =
    bind_ok (fail_if (not (command_is_valid command)) invalid_input) h0 λ u guarded h1.
      bind_ok (collect_lines command.lines []) h1 λ requested collected h2.
        bind_ok (wrap_resolve (ports.resolve (map line_key (sort_by by_product_id requested)))) h2
          λ products resolved h3.
            bind_ok (price_lines products (sort_by by_product_id requested) (pos 0)) h3
              λ subtotal priced h4.
                bind_ok (or_fail (ports.ids 0) (technical new_order_id)) h4 λ order_id e0 h5.
                  bind_ok (or_fail (ports.ids 1) (technical new_event_id)) h5 λ event_id e1 h6.
                    bind_ok (or_fail (ports.ids 2) (technical new_operation_id)) h6
                      λ operation_id e2 h7.
                        bind_ok (build_lines ports.ids 0 products (sort_by by_product_id requested))
                          h7
                          λ lines built h8. record {
                            requested = requested;
                            products = products;
                            subtotal = subtotal;
                            order_id = order_id;
                            lines = lines;
                            valid = ground (
                              arith,
                              passed (not (command_is_valid command)) invalid_input guarded,
                            );
                            collected = collected;
                            priced = priced;
                            built = built;
                            resolved =
                                unwrap
                                  (ports.resolve (map line_key (sort_by by_product_id requested)))
                                  resolved;
                            ordered = sym (ap (λ d. d.order) (ok-injective h8));
                            fingerprint = sym (ap (λ d. d.checkout_fingerprint) (ok-injective h8));
                          }

-- An order's lines are exact, its ids are distinct, and its subtotal and total are the exact sum.
pub record IsSound (order : Order) : Type 0 where
  pub exact : All IsExactLine order.lines
  pub within : amount order.lines ≤ max_int64
  pub subtotal : order.subtotal_centavos ≡ pos (amount order.lines)
  pub total : order.total_centavos ≡ order.subtotal_centavos
  pub fee : order.delivery_fee_centavos ≡ pos 0
  pub some_lines : 1 ≤ length order.lines
  pub few_lines : length order.lines ≤ 100
  pub once : Distinct (λ l. l.product_id) order.lines

LinesMatch-length :
    (products : List ProductSnapshot) (rs : List CheckoutLine) (ls : List OrderLine)
    → LinesMatch products rs ls
    → length ls ≡ length rs
LinesMatch-length products [] [] m = refl
LinesMatch-length products [] (l ∷ ls) m = absurd m
LinesMatch-length products (r ∷ rs) [] m = absurd m
LinesMatch-length products (r ∷ rs) (l ∷ ls) m = ap suc (LinesMatch-length products rs ls m.1)

LinesMatch-Absent :
    (products : List ProductSnapshot) (k : String) (rs : List CheckoutLine) (ls : List OrderLine)
    → LinesMatch products rs ls
    → Absent line_key k rs
    → Absent (λ l. l.product_id) k ls
LinesMatch-Absent products k [] [] m a = tt
LinesMatch-Absent products k [] (l ∷ ls) m a = absurd m
LinesMatch-Absent products k (r ∷ rs) [] m a = absurd m
LinesMatch-Absent products k (r ∷ rs) (l ∷ ls) m a =
    (λ e. a.0 (sym (ap (λ x. x.product_id) m.0) ∙ e), LinesMatch-Absent products k rs ls m.1 a.1)

LinesMatch-Distinct :
    (products : List ProductSnapshot) (rs : List CheckoutLine) (ls : List OrderLine)
    → LinesMatch products rs ls
    → Distinct line_key rs
    → Distinct (λ l. l.product_id) ls
LinesMatch-Distinct products [] [] m d = tt
LinesMatch-Distinct products [] (l ∷ ls) m d = absurd m
LinesMatch-Distinct products (r ∷ rs) [] m d = absurd m
LinesMatch-Distinct products (r ∷ rs) (l ∷ ls) m d = (
  LinesMatch-Absent products l.product_id rs ls m.1
      (subst (λ k. Absent line_key k rs) (sym (ap (λ x. x.product_id) m.0)) d.0),
  LinesMatch-Distinct products rs ls m.1 d.1,
)

line_count :
    (command : PlaceOrderCommand)
    → command_is_valid command ≡ true
    → (1 ≤ length command.lines) × (length command.lines ≤ 100)
unfolding command_is_valid
line_count command h = ground arith

length-trimmed : (ls : List CheckoutLine) → length (map trimmed_line ls) ≡ length ls
length-trimmed [] = refl
length-trimmed (l ∷ ls) = ap suc (length-trimmed ls)

Parts-IsSound :
    (ports : Ports) (command : PlaceOrderCommand) (draft : OrderDraft)
    → Parts ports command draft
    → IsSound draft.order
Parts-IsSound ports command draft p =
    let sorted = sort_by by_product_id p.requested in
    let (valid, distinct, kept) = collect_lines-ok command.lines [] tt tt p.collected in
    let valid' = sort_by-All by_product_id IsValidLine p.requested valid in
    let distinct' = sort_by-Distinct by_product_id line_key p.requested distinct in
    let (sum, bound, priced) = price_lines-ok p.products sorted 0 valid' (omega arith) p.priced in
    let match = build_lines-LinesMatch ports.ids 0 p.products sorted p.built in
    let (exact, total) = LinesMatch-exact p.products sorted p.lines valid' priced match in
    let counted =
      LinesMatch-length p.products sorted p.lines match
      ∙ length-sort_by by_product_id p.requested
      ∙ ap length kept
      ∙ length-trimmed command.lines in
    let (some_lines, few_lines) = line_count command p.valid in
    subst IsSound (sym p.ordered) (record {
      exact = exact;
      within = omega arith;
      subtotal = sum ∙ ap pos (omega arith);
      total = refl;
      fee = refl;
      some_lines = omega arith;
      few_lines = omega arith;
      once = LinesMatch-Distinct p.products sorted p.lines match distinct';
    })

-- A draft that PlaceOrder hands to the store has sound amounts: each line total is the price times
-- the quantity, the subtotal and the total are their exact sum, which int64 holds; it has between 1
-- and 100 lines, and no product twice.
pub make_draft-IsSound :
    (ports : Ports) (command : PlaceOrderCommand) (draft : OrderDraft)
    → make_draft ports command ≡ ok draft
    → IsSound draft.order
unfolding make_draft
make_draft-IsSound ports command draft h =
    Parts-IsSound ports (trimmed_command command) draft
      (Parts-draft_of_trimmed ports (trimmed_command command) h)
