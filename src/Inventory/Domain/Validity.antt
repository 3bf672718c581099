-- ===== src/Inventory/Domain/Validity.antt =====
-- What CommitCommand.Validate and CommitResult.Validate accept.
use b46_ordering_app_backend.Base.{
  ℕ, ◌≡◌, ◌≢◌, ◌≤◌, ◌<◌, ◌↔◌, refl, sym, String, false, List, [], ◌∷◌, ok, arith, eq_iff, ◌=s=◌,
  All, length, not, ◌||◌, ℤ, pos, fail_if, bind_ok, passed, ltb, ◌==◌, negsuc,
}
use b46_ordering_app_backend.Base.Keys.{Absent, Distinct}
use b46_ordering_app_backend.Inventory.Domain.{
  CommitCommand, Line, invalid_input, nil_uuid, is_nil, schema_version_1, member, quantity_is_valid,
  validate_lines, validate_command,
}

-- A line with identifiers and a quantity from 1 to 100.
abbrev pub IsLine : Line → Type 0
IsLine line =
    (line.order_line_id ≢ nil_uuid)
    × (line.product_id ≢ nil_uuid)
    × (n : ℕ) × (line.quantity ≡ pos n)
    × (1 ≤ n)
    × (n ≤ 100)

-- A command that a caller may send.
pub record IsCommand (command : CommitCommand) : Type 0 where
  pub schema : command.schema_version ≡ schema_version_1
  pub event : command.event_id ≢ nil_uuid
  pub operation : command.operation_id ≢ nil_uuid
  pub order : command.order_id ≢ nil_uuid
  pub dated : 0 < command.occurred_at
  pub some_lines : 1 ≤ length command.lines
  pub few_lines : length command.lines ≤ 100
  pub lines : All IsLine command.lines
  pub line_ids : Distinct (λ l. l.order_line_id) command.lines
  pub products : Distinct (λ l. l.product_id) command.lines

-- None of the keys is the id of a row.
abbrev Fresh : (Line → String) → List String → List Line → Type 0
Fresh key ks lines = All (λ l. member (key l) ks ≡ false) lines

member-cons :
    (id k : String) (ks : List String)
    → (member id (k ∷ ks) ≡ false) ↔ ((k ≢ id) × (member id ks ≡ false))
unfolding member
member-cons id k ks = ((λ h. ground (arith, h, eq_iff k id)), (λ h. ground (arith, h, eq_iff k id)))

Fresh-cons :
    (key : Line → String) (k : String) (ks : List String) (lines : List Line)
    → Fresh key (k ∷ ks) lines ↔ (Absent key k lines × Fresh key ks lines)
Fresh-cons key k ks [] = ((λ h. (tt, tt)), (λ h. tt))
Fresh-cons key k ks (l ∷ ls) = (
  (λ h.
      let (n, m) = (member-cons (key l) k ks).0 h.0 in
      let (a, f) = (Fresh-cons key k ks ls).0 h.1 in (((λ e. n (sym e)), a), (m, f))),
  (λ h. (
    (member-cons (key l) k ks).1 ((λ e. h.0.0 (sym e)), h.1.0),
    (Fresh-cons key k ks ls).1 (h.0.1, h.1.1),
  )),
)

quantity_iff :
    (q : ℤ) → (not (quantity_is_valid q) ≡ false) ↔ ((n : ℕ) × (q ≡ pos n) × (1 ≤ n) × (n ≤ 100))
quantity_iff (pos n) = (
  (λ h. (n, refl, ground arith, ground arith)),
  (λ (m, e, some_n, few). ground (arith, e, some_n, few)),
)
quantity_iff (negsuc n) = ((λ h. absurd (ground arith)), (λ (m, e, some_n, few). cc e))

IsLine-iff :
    (line : Line)
    → (((is_nil line.order_line_id || is_nil line.product_id) ≡ false)
        × (not (quantity_is_valid line.quantity) ≡ false))
      ↔ IsLine line
IsLine-iff line = (
  (λ h.
      let (n, e, some_n, few) = (quantity_iff line.quantity).0 h.1 in
      (
        ground (arith, h, eq_iff line.order_line_id nil_uuid),
        ground (arith, h, eq_iff line.product_id nil_uuid),
        n,
        e,
        some_n,
        few,
      )),
  (λ (line_id, product_id, n, e, some_n, few). (
    ground (
      arith,
      line_id,
      product_id,
      eq_iff line.order_line_id nil_uuid,
      eq_iff line.product_id nil_uuid,
    ),
    (quantity_iff line.quantity).1 (n, e, some_n, few),
  )),
)

abbrev Listed : List Line → List String → List String → Type 0
Listed lines line_ids product_ids =
    All IsLine lines
    × Distinct (λ l. l.order_line_id) lines
    × Distinct (λ l. l.product_id) lines
    × Fresh (λ l. l.order_line_id) line_ids lines
    × Fresh (λ l. l.product_id) product_ids lines

validate_lines-Listed :
    (lines : List Line) (line_ids product_ids : List String) {u : Unit {0}}
    → validate_lines lines line_ids product_ids ≡ ok u
    → Listed lines line_ids product_ids
unfolding validate_lines
validate_lines-Listed [] line_ids product_ids h = (tt, tt, tt, tt, tt)
validate_lines-Listed (l ∷ ls) line_ids product_ids h0 =
    bind_ok (fail_if (is_nil l.order_line_id || is_nil l.product_id) invalid_input) h0 λ u1 e1 h1.
      bind_ok (fail_if (not (quantity_is_valid l.quantity)) invalid_input) h1 λ u2 e2 h2.
        bind_ok (fail_if (member l.order_line_id line_ids) invalid_input) h2 λ u3 e3 h3.
          bind_ok (fail_if (member l.product_id product_ids) invalid_input) h3 λ u4 e4 h4.
            let (good, lines_once, products_once, lf, pf) =
              validate_lines-Listed ls (l.order_line_id ∷ line_ids) (l.product_id ∷ product_ids)
                h4 in
            let (la, lf') = (Fresh-cons (λ x. x.order_line_id) l.order_line_id line_ids ls).0 lf in
            let (pa, pf') = (Fresh-cons (λ x. x.product_id) l.product_id product_ids ls).0 pf in
            (
              ((IsLine-iff l).0 (passed _ invalid_input e1, passed _ invalid_input e2), good),
              (la, lines_once),
              (pa, products_once),
              (passed _ invalid_input e3, lf'),
              (passed _ invalid_input e4, pf'),
            )

Listed-validate_lines :
    (lines : List Line) (line_ids product_ids : List String)
    → Listed lines line_ids product_ids
    → validate_lines lines line_ids product_ids ≡ ok tt
unfolding validate_lines
Listed-validate_lines [] line_ids product_ids h = refl
Listed-validate_lines (l ∷ ls) line_ids product_ids (good, lo, po, lf, pf) =
    let (ids, quantity) = (IsLine-iff l).1 good.0 in
    rw (ids, quantity, lf.0, pf.0)
      (Listed-validate_lines ls (l.order_line_id ∷ line_ids) (l.product_id ∷ product_ids) (
        good.1,
        lo.1,
        po.1,
        (Fresh-cons (λ x. x.order_line_id) l.order_line_id line_ids ls).1 (lo.0, lf.1),
        (Fresh-cons (λ x. x.product_id) l.product_id product_ids ls).1 (po.0, pf.1),
      ))

Fresh-nil : (key : Line → String) (lines : List Line) → Fresh key [] lines
unfolding member
Fresh-nil key [] = tt
Fresh-nil key (l ∷ ls) = (refl, Fresh-nil key ls)

-- CommitCommand.Validate accepts a command exactly when its version is 1.0, its ids are not nil, it is
-- dated, and it has 1 to 100 lines, each with ids that are not nil and a quantity from 1 to 100, and
-- no line id or product id twice.
pub validate_command_iff :
    (command : CommitCommand) → (validate_command command ≡ ok tt) ↔ IsCommand command
unfolding validate_command
validate_command_iff command = (
  (λ h0.
      bind_ok (fail_if (not (command.schema_version =s= schema_version_1)) invalid_input) h0
        λ u1 e1 h1.
          bind_ok
            (fail_if
              (is_nil command.event_id || is_nil command.operation_id || is_nil command.order_id)
              invalid_input)
            h1
            λ u2 e2 h2. bind_ok (fail_if (command.occurred_at == 0) invalid_input) h2 λ u3 e3 h3.
              bind_ok
                (fail_if (ltb (length command.lines) 1 || ltb 100 (length command.lines))
                  invalid_input)
                h3
                λ u4 e4 h4.
                  let v1 = passed _ invalid_input e1 in
                  let v2 = passed _ invalid_input e2 in
                  let v3 = passed _ invalid_input e3 in
                  let v4 = passed _ invalid_input e4 in
                  let (good, lo, po, lf, pf) = validate_lines-Listed command.lines [] [] h4 in
                  record {
                    schema = ground (arith, v1, eq_iff command.schema_version schema_version_1);
                    event = ground (arith, v2, eq_iff command.event_id nil_uuid);
                    operation = ground (arith, v2, eq_iff command.operation_id nil_uuid);
                    order = ground (arith, v2, eq_iff command.order_id nil_uuid);
                    dated = ground (arith, v3);
                    some_lines = ground (arith, v4);
                    few_lines = ground (arith, v4);
                    lines = good;
                    line_ids = lo;
                    products = po;
                  }),
  (λ c.
      rw
        (
          (eq_iff command.schema_version schema_version_1).1 c.schema,
          not_nil command.event_id c.event,
          not_nil command.operation_id c.operation,
          not_nil command.order_id c.order,
          dated_test command.occurred_at c.dated,
          counted_test (length command.lines) c.some_lines c.few_lines,
        )
        (Listed-validate_lines command.lines [] [] (
          c.lines,
          c.line_ids,
          c.products,
          Fresh-nil (λ l. l.order_line_id) command.lines,
          Fresh-nil (λ l. l.product_id) command.lines,
        ))),
)
  where
    not_nil : (id : String) → id ≢ nil_uuid → is_nil id ≡ false
    not_nil id n = ground (arith, n, eq_iff id nil_uuid)

    dated_test : (t : ℕ) → 0 < t → (t == 0) ≡ false
    dated_test t h = ground arith

    counted_test : (n : ℕ) → 1 ≤ n → n ≤ 100 → (ltb n 1 || ltb 100 n) ≡ false
    counted_test n h k = ground arith
