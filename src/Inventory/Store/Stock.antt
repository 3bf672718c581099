-- ===== src/Inventory/Store/Stock.antt =====
-- The stock that Store.Commit leaves.
use b46_ordering_app_backend.Base.{
  ℕ, ◌≡◌, inl, inr, refl, sym, ◌∙◌, ap, subst, String, Bool, true, false, none, some, List, [], ◌∷◌,
  ◌++◌, arith, Bool-cases, if◌then◌else◌, length, keep, find_first, update_where, All, ℤ, pos,
  negsuc, int_lt, ◌+ℤ◌, ◌-ℤ◌, sub64, eq_iff, ◌=s=◌, wrap64-in-range, max_int64, pos_part, neg_part,
  ◌≤◌, +ℤ_assoc, +ℤ-zero, zero-+ℤ, sub_moved,
}
use b46_ordering_app_backend.Base.Keys.{
  Distinct, Distinct-update, find_key, find_key-update, changed_none, find_key_sound, found_passes,
  found_by_key,
}
use b46_ordering_app_backend.Inventory.Domain.{CommitCommand}
use b46_ordering_app_backend.Inventory.Tables.{Db, Env, ItemRow, MovementRow}
use b46_ordering_app_backend.Inventory.Demand.{StockDemand}
use b46_ordering_app_backend.Inventory.Store.{
  commit, can_deduct, deducted, after_deduction, movement_for, fits_int4,
}
use b46_ordering_app_backend.Inventory.Store.Keeps.{commit-keeps}

-- The stock of an item is not negative.
abbrev pub IsStocked : ItemRow → Type 0
IsStocked r = int_lt r.stock (pos 0) ≡ false

deduction-IsStocked :
    (d : StockDemand) (rows : List ItemRow)
    → All IsStocked rows
    → All IsStocked (update_where (can_deduct d) (deducted d) rows)
unfolding update_where can_deduct
deduction-IsStocked d [] h = tt
deduction-IsStocked d (r ∷ rs) h = elim (Bool-cases (can_deduct d r)) [
  | inl e ↦ rw e (enough r.stock d.quantity (ground (arith, e)), deduction-IsStocked d rs h.1)
  | inr e ↦ rw e (h.0, deduction-IsStocked d rs h.1)
]
  where
    enough : (a b : ℤ) → int_lt a b ≡ false → int_lt (a -ℤ b) (pos 0) ≡ false
    enough a b h = ground arith

-- What the movements of an item add up to.
abbrev pub moved : String → List MovementRow → ℤ
moved id [] = pos 0
moved id (m ∷ ms) = if m.item_id =s= id then m.quantity +ℤ moved id ms else moved id ms

abbrev pub stock_of : String → List ItemRow → ℤ
stock_of id rows = elim (find_key (λ r. r.id) id rows) [ none ↦ pos 0 | some r ↦ r.stock ]

-- The stock that an item would have without its movements.
abbrev pub ledger : String → Db → ℤ
ledger id db = stock_of id db.items -ℤ moved id db.movements

moved-snoc :
    (id : String) (ms : List MovementRow) (m : MovementRow)
    → moved id (ms ++ m ∷ [])
      ≡ (if m.item_id =s= id then moved id ms +ℤ m.quantity else moved id ms)
moved-snoc id [] m = elim (Bool-cases (m.item_id =s= id)) [
  | inl e ↦ rw e (+ℤ-zero m.quantity ∙ sym (zero-+ℤ m.quantity))
  | inr e ↦ rw e refl
]
moved-snoc id (x ∷ xs) m = elim (Bool-cases (m.item_id =s= id)) [
  | inl e ↦
      let rest =
        subst
          (λ c. moved id (xs ++ m ∷ []) ≡ (if c then moved id xs +ℤ m.quantity else moved id xs)) e
          (moved-snoc id xs m) in
      rw e (elim (Bool-cases (x.item_id =s= id)) [
        | inl h ↦
            rw h
              (ap (λ z. x.quantity +ℤ z) rest ∙ sym (+ℤ_assoc x.quantity (moved id xs) m.quantity))
        | inr h ↦ rw h rest
      ])
  | inr e ↦
      let rest =
        subst
          (λ c. moved id (xs ++ m ∷ []) ≡ (if c then moved id xs +ℤ m.quantity else moved id xs)) e
          (moved-snoc id xs m) in
      rw e (ap (λ z. if x.item_id =s= id then x.quantity +ℤ z else z) rest)
]

int4_range :
    (q : ℤ)
    → fits_int4 q ≡ true
    → (pos_part (pos 0 -ℤ q) ≤ max_int64) × (neg_part (pos 0 -ℤ q) ≤ max_int64)
unfolding fits_int4
int4_range (pos n) h = ground arith
int4_range (negsuc n) h = ground arith

negated : (q : ℤ) → fits_int4 q ≡ true → sub64 (pos 0) q ≡ pos 0 -ℤ q
unfolding sub64
negated q h = let (high, low) = int4_range q h in wrap64-in-range (pos 0 -ℤ q) high low

one_kept :
    (p : ItemRow → Bool) (rows : List ItemRow)
    → length (keep p rows) ≡ 1
    → (r : ItemRow) × (find_first p rows ≡ some r)
unfolding keep find_first
one_kept p [] h = absurd (omega (arith, h))
one_kept p (r ∷ rs) h = elim (Bool-cases (p r)) [
  | inl e ↦ (r, rw e refl)
  | inr e ↦ let (s, found) = one_kept p rs (ground (arith, e, h)) in (s, rw e found)
]

can_deduct-id : (d : StockDemand) (r : ItemRow) → can_deduct d r ≡ true → r.id ≡ d.item_id
unfolding can_deduct
can_deduct-id d r h = ground (arith, eq_iff r.id d.item_id)

-- The item that a deduction is about has less stock, and the others have what they had.
stock_of-deduction :
    (d : StockDemand) (rows : List ItemRow) (id : String)
    → Distinct (λ r. r.id) rows
    → length (keep (can_deduct d) rows) ≡ 1
    → stock_of id (update_where (can_deduct d) (deducted d) rows)
      ≡ (if d.item_id =s= id then stock_of id rows -ℤ d.quantity else stock_of id rows)
stock_of-deduction d rows id distinct one =
    ap (λ o. elim o [ none ↦ pos 0 | some r ↦ r.stock ])
      (find_key-update (λ r. r.id) id (can_deduct d) (deducted d) (λ r. refl) rows)
    ∙ elim (Bool-cases (d.item_id =s= id)) [
      | inl same ↦
          let (r, found) = one_kept (can_deduct d) rows one in
          let passes = found_passes (can_deduct d) rows r found in
          let at =
            subst (λ k. find_key (λ x. x.id) k rows ≡ some r)
              (can_deduct-id d r passes ∙ (eq_iff d.item_id id).0 same)
              (found_by_key (λ x. x.id) (can_deduct d) rows r distinct found) in
          rw (same, at, passes)
            (ap (λ o. elim o [ none ↦ pos 0 | some x ↦ x.stock ] -ℤ d.quantity) (sym at))
      | inr other ↦ rw other (
          ap (λ o. elim o [ none ↦ pos 0 | some r ↦ r.stock ])
            (changed_none (can_deduct d) (deducted d) (find_key (λ x. x.id) id rows) (λ r e.
              let named = find_key_sound (λ x. x.id) id rows e in
              elim (Bool-cases (can_deduct d r)) [
                | inr passed_over ↦ passed_over
                | inl takes ↦
                    absurd
                      (ground (arith, other, can_deduct-id d r takes, named, eq_iff d.item_id id))
              ])))
    ]

deduction-ledger :
    (env : Env) (k : ℕ) (actor : String) (command : CommitCommand) (d : StockDemand) (db : Db)
    (id : String)
    → fits_int4 d.quantity ≡ true
    → length (keep (can_deduct d) db.items) ≡ 1
    → Distinct (λ r. r.id) db.items
    → ledger id (after_deduction env k actor command d db) ≡ ledger id db
deduction-ledger env k actor command d db id fits one distinct =
    rw
      (
        stock_of-deduction d db.items id distinct one,
        moved-snoc id db.movements (movement_for env k actor command d),
      )
      (elim (Bool-cases (d.item_id =s= id)) [
        | inl e ↦
            rw (e, negated d.quantity fits)
              (sub_moved (stock_of id db.items) d.quantity (moved id db.movements))
        | inr e ↦ rw e refl
      ])

-- Store.Commit never leaves an item with a negative stock, whatever it returns, when there was none
-- before and the other writers leave none.
pub commit-IsStocked :
    (envs : ℕ → Env) (between : ℕ → Db → Db) (actor : String) (command : CommitCommand)
    (fingerprint : String) (db : Db)
    → ((i : ℕ) (a : Db) → All IsStocked a.items → All IsStocked (between i a).items)
    → All IsStocked db.items
    → All IsStocked (commit envs between actor command fingerprint db).1.items
commit-IsStocked envs between actor command fingerprint db others h =
    commit-keeps (λ a. All IsStocked a.items) (λ row a p. p)
      (λ env k who c d a fits one p. deduction-IsStocked d a.items p) envs between others actor
      command fingerprint db h

-- The items have distinct ids, and the stock of one, less what its movements add up to, is `c`.
abbrev pub Balanced : String → ℤ → Db → Type 0
Balanced id c db = Distinct (λ r. r.id) db.items × (ledger id db ≡ c)

-- Store.Commit takes from the stock of an item exactly what it books as movements, whatever it
-- returns, when the item ids are distinct and the other writers keep the balance too.
pub commit-Balanced :
    (envs : ℕ → Env) (between : ℕ → Db → Db) (actor : String) (command : CommitCommand)
    (fingerprint : String) (db : Db) (id : String) (c : ℤ)
    → ((i : ℕ) (a : Db) → Balanced id c a → Balanced id c (between i a))
    → Balanced id c db
    → Balanced id c (commit envs between actor command fingerprint db).1
commit-Balanced envs between actor command fingerprint db id c others h =
    commit-keeps (Balanced id c) (λ row a p. p)
      (λ env k who cmd d a fits one p. (
        Distinct-update (λ r. r.id) (can_deduct d) (deducted d) (λ r. refl) a.items p.0,
        deduction-ledger env k who cmd d a id fits one p.0 ∙ p.1,
      ))
      envs between others actor command fingerprint db h
