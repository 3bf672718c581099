-- ===== src/Ordering/Checkout/Lines.antt =====
-- The requested lines of a checkout: what the first loop of PlaceOrder accepts, and its sort.
use b46_ordering_app_backend.Base.{
  ◌≡◌, sym, ◌∙◌, String, List, [], ◌∷◌, ◌++◌, ok, subst, arith, All, map, none,
}
use mathlib.Core.List.{append-nil, append_assoc}
use b46_ordering_app_backend.Base.Keys.{Distinct, Distinct-snoc, Absent-find_key}
use b46_ordering_app_backend.Ordering.Domain.{CheckoutLine}
use b46_ordering_app_backend.Ordering.Checkout.{trimmed_line, requested_line, collect_lines}
use b46_ordering_app_backend.Ordering.Checkout.Pricing.{IsValidLine}

abbrev pub line_key : CheckoutLine → String
line_key l = l.product_id

All-snoc :
    (xs : List CheckoutLine) (l : CheckoutLine)
    → All IsValidLine xs
    → IsValidLine l
    → All IsValidLine (xs ++ l ∷ [])
All-snoc [] l hs h = (h, tt)
All-snoc (x ∷ xs) l hs h = (hs.0, All-snoc xs l hs.1 h)

collect_lines-cons :
    (line : CheckoutLine) (lines requested : List CheckoutLine) {rs : List CheckoutLine}
    → collect_lines (line ∷ lines) requested ≡ ok rs
    → IsValidLine (trimmed_line line)
      × (requested_line (trimmed_line line).product_id requested ≡ none)
      × (collect_lines lines (requested ++ trimmed_line line ∷ []) ≡ ok rs)
unfolding collect_lines
collect_lines-cons line lines requested h = ground arith

-- When the first loop succeeds after valid lines with distinct product ids, the lines collected
-- are valid and have distinct product ids, and they are those before and each new line, trimmed,
-- in order.
pub collect_lines-ok :
    (lines requested : List CheckoutLine) {rs : List CheckoutLine}
    → All IsValidLine requested
    → Distinct line_key requested
    → collect_lines lines requested ≡ ok rs
    → All IsValidLine rs × Distinct line_key rs × (rs ≡ requested ++ map trimmed_line lines)
collect_lines-ok [] requested {rs} v d h =
    let e : requested ≡ rs = unfold collect_lines in ground arith in
    (subst (All IsValidLine) e v, subst (Distinct line_key) e d, sym e ∙ sym (append-nil requested))
collect_lines-ok (line ∷ lines) requested v d h =
    let l = trimmed_line line in
    let (valid, new, rest) = collect_lines-cons line lines requested h in
    let (vs, ds, e) =
      collect_lines-ok lines (requested ++ l ∷ []) (All-snoc requested l v valid)
        (Distinct-snoc line_key requested l d
          (Absent-find_key line_key l.product_id requested (unfold requested_line in new)))
        rest in
    (vs, ds, e ∙ append_assoc requested (l ∷ []) (map trimmed_line lines))
