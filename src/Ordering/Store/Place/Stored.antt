-- ===== src/Ordering/Store/Place/Stored.antt =====
-- What the tables hold of an order that was answered.
use b46_ordering_app_backend.Base.{
  ◌≡◌, refl, sym, ◌∙◌, ap, subst, String, Bool, not, Option, some, List, [], ◌∷◌, ◌++◌, ok, bind_ok,
  ok-injective, got, or_fail, eq_iff, eq_refl, ◌=s=◌, Bool-cases, inl, inr, find_first, keep, map,
  All, fail_if,
}
use mathlib.Core.List.{Perm}
use mathlib.Core.List.Perm
use b46_ordering_app_backend.Base.Sort.{sort_by-perm}
use b46_ordering_app_backend.Base.Keys.{Absent, find_key, find_key-Absent}
use b46_ordering_app_backend.Ordering.Domain.{
  Order, OrderLine, OrderDraft, submitted, not_found, load_order, load_lines,
}
use b46_ordering_app_backend.Ordering.Store.Tables.{
  Db, Env, OrderRow, LineRow, UserRow, FulfillmentRow, attempt,
}
use b46_ordering_app_backend.Ordering.Store.Load.{
  load_order_row, order_row, visible, fulfillment_row, assemble, line_of, line_lt,
}
use b46_ordering_app_backend.Ordering.Store.Place.{order_row_of, line_row_of, placed}

-- The same order: its ids, customer, status, amounts and delivery, and the same lines in any order.
pub record SameOrder (a b : Order) : Type 0 where
  pub id : a.id ≡ b.id
  pub checkout : a.checkout_id ≡ b.checkout_id
  pub customer : a.customer_id ≡ b.customer_id
  pub status : a.status ≡ b.status
  pub subtotal : a.subtotal_centavos ≡ b.subtotal_centavos
  pub delivery_fee : a.delivery_fee_centavos ≡ b.delivery_fee_centavos
  pub total : a.total_centavos ≡ b.total_centavos
  pub address : a.delivery_address ≡ b.delivery_address
  pub notes : a.delivery_notes ≡ b.delivery_notes
  pub lines : Perm a.lines b.lines

-- The lines of an order in the tables.
abbrev pub lines_of : String → Db → List OrderLine
lines_of id db = map line_of (keep (λ l. l.order_id =s= id) db.lines)

-- The row, with the lines, has the order.
pub record Stored (order : Order) (row : OrderRow) (db : Db) : Type 0 where
  pub id : row.id ≡ order.id
  pub checkout : row.checkout_id ≡ order.checkout_id
  pub customer : row.customer_id ≡ order.customer_id
  pub status : row.status ≡ order.status
  pub subtotal : row.subtotal_centavos ≡ order.subtotal_centavos
  pub delivery_fee : row.delivery_fee_centavos ≡ order.delivery_fee_centavos
  pub total : row.total_centavos ≡ order.total_centavos
  pub address : row.delivery_address ≡ order.delivery_address
  pub notes : row.delivery_notes ≡ order.delivery_notes
  pub lines : Perm (lines_of row.id db) order.lines

assembled_lines :
    (db : Db) (o : OrderRow) (u : UserRow) (f : Option FulfillmentRow)
    → Perm (assemble db o u f).lines (lines_of o.id db)
unfolding assemble
assembled_lines db o u f =
    Perm.map line_of (sort_by-perm line_lt (keep (λ l. l.order_id =s= o.id) db.lines))

assembled-Stored :
    (db : Db) (o : OrderRow) (u : UserRow) (f : Option FulfillmentRow)
    → Stored (assemble db o u f) o db
unfolding assemble
assembled-Stored db o u f = record {
  id = refl;
  checkout = refl;
  customer = refl;
  status = refl;
  subtotal = refl;
  delivery_fee = refl;
  total = refl;
  address = refl;
  notes = refl;
  lines = Perm.symm (assembled_lines db o u f);
}

-- What is loaded from the row of an order is that order.
pub assembled-SameOrder :
    (db : Db) (o : OrderRow) (u : UserRow) (f : Option FulfillmentRow) (order : Order)
    → Stored order o db
    → SameOrder (assemble db o u f) order
unfolding assemble
assembled-SameOrder db o u f order s = record {
  id = s.id;
  checkout = s.checkout;
  customer = s.customer;
  status = s.status;
  subtotal = s.subtotal;
  delivery_fee = s.delivery_fee;
  total = s.total;
  address = s.address;
  notes = s.notes;
  lines = Perm.trans (assembled_lines db o u f) s.lines;
}

pub load_order_row-Stored :
    (env : Env) (id customer : String) (cashier : Bool) (db : Db) {order : Order}
    → load_order_row env id customer cashier db ≡ ok order
    → (row : OrderRow) × (order_row id db ≡ some row) × Stored order row db
unfolding load_order_row
load_order_row-Stored env id customer cashier db h0 =
    bind_ok (attempt env load_order) h0 λ u1 e1 h1.
      bind_ok (or_fail (order_row id db) not_found) h1 λ o e2 h2.
        bind_ok (or_fail (find_first (λ u. u.id =s= o.customer_id) db.users) not_found) h2
          λ c e3 h3.
            bind_ok (fail_if (not (visible o (fulfillment_row o.id db) customer cashier)) not_found)
              h3
              λ u4 e4 h4. bind_ok (attempt env load_lines) h4 λ u5 e5 h5. (
                o,
                got (order_row id db) not_found e2,
                subst (λ x. Stored x o db) (ok-injective h5)
                    (assembled-Stored db o c (fulfillment_row o.id db)),
              )

-- Every line belongs to an order, as the foreign key of `order_lines` says.
abbrev pub LinesBelong : Db → Type 0
LinesBelong db =
    All (λ l. (o : OrderRow) × (find_key OrderRow.id l.order_id db.orders ≡ some o)) db.lines

module _ (draft : OrderDraft) (orders : List OrderRow)
    (new : Absent OrderRow.id draft.order.id orders) where
  abbrev of_draft : LineRow → Bool
  of_draft l = l.order_id =s= draft.order.id

  draft_lines :
      (ls : List OrderLine) → map line_of (keep of_draft (map (line_row_of draft) ls)) ≡ ls
  unfolding keep
  draft_lines [] = refl
  draft_lines (l ∷ ls) = rw (eq_refl draft.order.id) (ap (λ rest. l ∷ rest) (draft_lines ls))

  -- An order that is new has no lines yet.
  old_and_new :
      (rows : List LineRow) (ls : List OrderLine)
      → All (λ l. (o : OrderRow) × (find_key OrderRow.id l.order_id orders ≡ some o)) rows
      → map line_of (keep of_draft (rows ++ map (line_row_of draft) ls)) ≡ ls
  unfolding keep
  old_and_new [] ls h = draft_lines ls
  old_and_new (r ∷ rows) ls ((o, found), h) = elim (Bool-cases (of_draft r)) [
    | inr e ↦ rw e (old_and_new rows ls h)
    | inl e ↦
        let named = (eq_iff r.order_id draft.order.id).0 e in
        let here = ap (λ k. find_key OrderRow.id k orders) (sym named) ∙ found in
        absurd (cc (here, find_key-Absent OrderRow.id draft.order.id orders new))
  ]

pub placed-Stored :
    (draft : OrderDraft) (db : Db)
    → draft.order.status ≡ submitted
    → Absent OrderRow.id draft.order.id db.orders
    → LinesBelong db
    → Stored draft.order
        (order_row_of draft)
        (placed draft (db.lines ++ map (line_row_of draft) draft.order.lines) db)
placed-Stored draft db fresh new belong = record {
  id = refl;
  checkout = refl;
  customer = refl;
  status = sym fresh;
  subtotal = refl;
  delivery_fee = refl;
  total = refl;
  address = refl;
  notes = refl;
  lines =
      subst (λ ls. Perm ls draft.order.lines)
        (sym (old_and_new draft db.orders new db.lines draft.order.lines belong)) Perm.rfl;
}
