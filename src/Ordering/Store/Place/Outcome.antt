-- ===== src/Ordering/Store/Place/Outcome.antt =====
-- What Store.PlaceOrder can leave behind, and the uniqueness of checkouts.
use b46_ordering_app_backend.Base.{
  ℕ, ◌≡◌, ◌⊎◌, inl, inr, sym, ◌∙◌, ap, false, List, [], ◌∷◌, ◌++◌, ok, bind_ok, map, suc, passed,
  ok-injective, Bool-cases, Option-cases, Result-cases, subst, fail_if,
}
use mathlib.Core.List.{append-nil, append_assoc}
use b46_ordering_app_backend.Ordering.Domain.{
  OrderDraft, OrderLine, PlaceOrderResult, insert_line, technical, insert_operation, insert_outbox,
  insert_audit, begin_tx, insert_order,
}
use b46_ordering_app_backend.Ordering.Store.Tables.{Db, Env, OrderRow, LineRow, attempt}
use b46_ordering_app_backend.Ordering.Store.Transaction.{finish_cases}
use b46_ordering_app_backend.Ordering.Store.Load.{find_checkout_row}
use b46_ordering_app_backend.Ordering.Store.Place.{
  order_collides, line_collides, line_row_of, insert_lines, insert_rows, operation_collides,
  outbox_collides, placed, place_order, place_new, replay, replay_in_transaction,
}

-- The database after the order, its lines, its operation, its message and its audit record are in.
abbrev pub IsPlaced : OrderDraft → Db → Db → Type 0
IsPlaced draft db db' =
    (order_collides draft db ≡ false)
    × (operation_collides draft db ≡ false)
    × (outbox_collides draft db ≡ false)
    × (db' ≡ placed draft (db.lines ++ map (line_row_of draft) draft.order.lines) db)

insert_lines-ok :
    (env : Env) (draft : OrderDraft) (k : ℕ) (ls : List OrderLine) (rows : List LineRow)
    {rows' : List LineRow}
    → insert_lines env draft k ls rows ≡ ok rows'
    → rows' ≡ rows ++ map (line_row_of draft) ls
unfolding insert_lines
insert_lines-ok env draft k [] rows h = sym (ok-injective h) ∙ sym (append-nil rows)
insert_lines-ok env draft k (l ∷ ls) rows h0 = bind_ok (attempt env (insert_line k)) h0 λ u1 e1 h1.
    bind_ok (fail_if (line_collides (line_row_of draft l) rows) (technical (insert_line k))) h1
      λ u2 e2 h2.
        insert_lines-ok env draft (suc k) ls (rows ++ line_row_of draft l ∷ []) h2
        ∙ append_assoc rows (line_row_of draft l ∷ []) (map (line_row_of draft) ls)

pub insert_rows-IsPlaced :
    (env : Env) (draft : OrderDraft) (db : Db) {r : PlaceOrderResult} {db' : Db}
    → order_collides draft db ≡ false
    → insert_rows env draft db ≡ ok (r, db')
    → IsPlaced draft db db' × (r ≡ record { order = draft.order; replayed = false })
unfolding insert_rows
insert_rows-IsPlaced env draft db free h0 =
    bind_ok (insert_lines env draft 0 draft.order.lines db.lines) h0 λ lines e1 h1.
      bind_ok (attempt env insert_operation) h1 λ u2 e2 h2.
        bind_ok (fail_if (operation_collides draft db) (technical insert_operation)) h2 λ u3 e3 h3.
          bind_ok (attempt env insert_outbox) h3 λ u4 e4 h4.
            bind_ok (fail_if (outbox_collides draft db) (technical insert_outbox)) h4 λ u5 e5 h5.
              bind_ok (attempt env insert_audit) h5 λ u6 e6 h6. (
                (
                  free,
                  passed (operation_collides draft db) (technical insert_operation) e3,
                  passed (outbox_collides draft db) (technical insert_outbox) e5,
                  sym (ap (λ p. p.1) (ok-injective h6))
                      ∙ ap (λ ls. placed draft ls db)
                          (insert_lines-ok env draft 0 draft.order.lines db.lines e1),
                ),
                sym (ap (λ p. p.0) (ok-injective h6)),
              )

-- What the call can leave behind: the database that it found, as other transactions left it, or that
-- one with the whole order placed.
abbrev pub Leaves : OrderDraft → Db → Db → Db → Type 0
Leaves draft db other db' = (db' ≡ db) ⊎ (db' ≡ other) ⊎ IsPlaced draft other db'

place_new-Leaves :
    (env again : Env) (draft : OrderDraft) (db other : Db)
    → Leaves draft db other (place_new env again draft other).1
unfolding place_new
place_new-Leaves env again draft db other = elim (Bool-cases (env.fails insert_order)) [
  | inl e ↦ inr (inl (rw e))
  | inr e ↦ elim (Bool-cases (order_collides draft other)) [
    | inl c ↦ inr (inl (rw (e, c)))
    | inr c ↦ elim (finish_cases env other (insert_rows env draft other)) [
      | inl same ↦ inr (inl (rw (e, c) same))
      | inr (r, db', done, end) ↦
          let same : (place_new env again draft other).1 ≡ db' = rw (e, c, end) in
          inr (
            inr (
              subst (IsPlaced draft other) (sym same)
                (insert_rows-IsPlaced env draft other c done).0))
    ]
  ]
]

replay_unchanged :
    (env : Env) (draft : OrderDraft) (row : OrderRow) (db : Db) {r : PlaceOrderResult} {db' : Db}
    → replay_in_transaction env draft row db ≡ ok (r, db')
    → db' ≡ db
unfolding replay_in_transaction
replay_unchanged env draft row db h0 =
    bind_ok (replay env draft row db) h0 λ r e h1. sym (ap (λ p. p.1) (ok-injective h1))

-- Whatever the environment does, a call leaves the database as it found it or as other transactions
-- made it, or it has placed the whole order: no part of an order is ever left behind.
pub place_order-Leaves :
    (env again : Env) (between : Db → Db) (draft : OrderDraft) (db : Db)
    → Leaves draft db (between db) (place_order env again between draft db).1
unfolding place_order
place_order-Leaves env again between draft db = elim (Bool-cases (env.fails begin_tx)) [
  | inl e ↦ inl (rw e)
  | inr e ↦ elim (Result-cases (find_checkout_row env draft.order.checkout_id db)) [
    | inr (x, f) ↦ inl (rw (e, f, place_order))
    | inl (o, f) ↦ elim (Option-cases o) [
      | inl n ↦ rw (e, f, n, place_order) (place_new-Leaves env again draft db (between db))
      | inr (row, s) ↦ elim (finish_cases env db (replay_in_transaction env draft row db)) [
        | inl same ↦ inl (rw (e, f, s, place_order) same)
        | inr (r, db', done, end) ↦
            inl (rw (e, f, s, place_order) (end ∙ replay_unchanged env draft row db done))
      ]
    ]
  ]
]
