-- ===== src/Inventory/Demand.antt =====
-- The availability decision of Store.commitOnce of adapters/postgres/store.go: what each line asks of
-- which stock item, and which lines cannot be served. A Go map is the list of its entries in the
-- order in which their keys were first set.
use b46_ordering_app_backend.Base.{
  ℕ, suc, ◌+◌, ◌-◌, ◌/◌, ◌^◌, String, Bool, false, not, ◌&&◌, Option, none, some, List, [], ◌∷◌,
  ◌++◌, Result, ok, ◌>>=◌, ◌>>◌, if◌then◌else◌, ◌=s=◌, ℤ, pos, negsuc, int_lt, add64, sub_ℕ, ◌*ℤ◌,
  keep, find_first,
}
use b46_ordering_app_backend.Inventory.Domain.{Line, UnavailableItem, nil_uuid, member}
use b46_ordering_app_backend.Inventory.Tables.{
  Db, Env, ItemRow, ComponentRow, Failure, attempt, load_components,
}

-- stockDemand, under its key.
pub record StockDemand : Type 0 where
  pub item_id : String
  pub quantity : ℤ
  pub dependent_lines : List String

pub record Component : Type 0 where
  pub item_id : String
  pub quantity : ℤ

-- The maps that the first loop fills.
pub record Demands : Type 0 where
  pub demands : List StockDemand
  pub unavailable : List UnavailableItem
  pub composite_lines : List String
  pub all_relevant : List String

unfoldable pub add_member : String → List String → List String
unfolding member
add_member id ids = if member id ids then ids else ids ++ id ∷ []

-- addDemand.
unfoldable pub add_demand : String → String → ℤ → List StockDemand → List StockDemand
unfolding add_member
add_demand item line q [] =
    record { item_id = item; quantity = add64 (pos 0) q; dependent_lines = line ∷ [] } ∷ []
add_demand item line q (d ∷ ds) =
    let rest = add_demand item line q ds in
    if d.item_id =s= item
    then record d {
      quantity = add64 d.quantity q;
      dependent_lines = add_member line d.dependent_lines;
    }
      ∷ ds
    else d ∷ rest

-- unavailableFor.
abbrev pub unavailable_for : Line → ℤ → UnavailableItem
unavailable_for line available = record {
  order_line_id = line.order_line_id;
  product_id = line.product_id;
  requested_quantity = line.quantity;
  available_quantity = if int_lt available (pos 0) then pos 0 else available;
}

-- `unavailable[lineID] = item`. A dependent line's id is the id of the line that the item is made
-- of, so the key is the item's own.
unfoldable pub put_unavailable : UnavailableItem → List UnavailableItem → List UnavailableItem
put_unavailable item [] = item ∷ []
put_unavailable item (x ∷ xs) =
    let rest = put_unavailable item xs in
    if x.order_line_id =s= item.order_line_id then item ∷ xs else x ∷ rest

-- loadItems: the rows with the ids asked for, whether locked or not.
unfoldable pub load_rows : List String → Db → List ItemRow
unfolding member
load_rows ids db = keep (λ r. member r.id ids) db.items

unfoldable pub item_of : String → List ItemRow → Option ItemRow
item_of id rows = find_first (λ r. r.id =s= id) rows

-- CEIL("Quantity" * n).
abbrev ceil_div : ℤ → ℕ → ℤ
ceil_div (pos a) p = pos ((a + (p - 1)) / p)
ceil_div (negsuc a) p = sub_ℕ 0 (suc a / p)

component_quantity : ComponentRow → ℤ → ℤ
component_quantity c n = ceil_div (c.digits *ℤ n) (10 ^ c.scale)

add_component : String → ℤ → List Component → List Component
add_component id q [] = record { item_id = id; quantity = add64 (pos 0) q } ∷ []
add_component id q (c ∷ cs) =
    let rest = add_component id q cs in
    if c.item_id =s= id then record c { quantity = add64 c.quantity q } ∷ cs else c ∷ rest

sum_components : ℤ → List ComponentRow → List Component → List Component
unfolding add_component component_quantity
sum_components n [] cs = cs
sum_components n (r ∷ rs) cs =
    sum_components n rs (add_component r.component_item_id (component_quantity r n) cs)

-- loadCompositeDemand.
unfoldable pub composite_demand : String → ℤ → Db → List Component
unfolding sum_components
composite_demand parent n db =
    sum_components n (keep (λ c. c.parent_item_id =s= parent) db.components) []

add_components : Line → List Component → Demands → Demands
unfolding add_demand add_member
add_components line [] s = s
add_components line (c ∷ cs) s = add_components line cs (record s {
  all_relevant = add_member c.item_id s.all_relevant;
  demands = add_demand c.item_id line.order_line_id c.quantity s.demands;
})

abbrev mark_unavailable : Line → ℤ → Demands → Demands
mark_unavailable line available s = record s {
  unavailable = put_unavailable (unavailable_for line available) s.unavailable;
}

composite_line : Env → Db → Line → Demands → Result Failure Demands
unfolding composite_demand add_components put_unavailable add_member
composite_line env db line s = do
  attempt env load_components
  let s' = record s { composite_lines = add_member line.order_line_id s.composite_lines }
  ok (elim (composite_demand line.product_id line.quantity db) [
    | [] ↦ mark_unavailable line (pos 0) s'
    | c ∷ cs ↦ add_components line (c ∷ cs) s'
  ])

-- One round of the first loop, for a product that exists.
item_line : Env → Db → ItemRow → Line → Demands → Result Failure Demands
unfolding composite_line add_demand put_unavailable
item_line env db item line s =
    if not item.active
    then ok (mark_unavailable line (pos 0) s)
    else if not item.tracks_stock
    then ok s
    else if not item.composite
    then ok (record s {
      demands = add_demand line.product_id line.order_line_id line.quantity s.demands;
    })
    else composite_line env db line s

demand_line : Env → Db → List ItemRow → Line → Demands → Result Failure Demands
unfolding item_line item_of put_unavailable
demand_line env db initial line s = elim (item_of line.product_id initial) [
  | none ↦ ok (mark_unavailable line (pos 0) s)
  | some item ↦ item_line env db item line s
]

-- The first loop.
unfoldable pub demand_lines : Env → Db → List ItemRow → List Line → Demands → Result Failure Demands
unfolding demand_line
demand_lines env db initial [] s = ok s
demand_lines env db initial (line ∷ lines) s = do
  s' ← demand_line env db initial line s
  demand_lines env db initial lines s'

abbrev item_is_active : Option ItemRow → Bool
item_is_active none = false
item_is_active (some item) = item.active

-- The loop over the lines after the rows are locked.
unfoldable pub recheck_lines :
    List ItemRow → List Line → List UnavailableItem → List UnavailableItem
unfolding item_of put_unavailable
recheck_lines locked [] unavailable = unavailable
recheck_lines locked (line ∷ lines) unavailable = recheck_lines locked lines (
    if item_is_active (item_of line.product_id locked)
    then unavailable
    else put_unavailable (unavailable_for line (pos 0)) unavailable)

abbrev pub is_physical : ItemRow → Bool
is_physical item = item.active && item.tracks_stock && not item.composite

-- `available` of a demand.
abbrev available_stock : Option ItemRow → ℤ
available_stock none = pos 0
available_stock (some item) =
    if is_physical item && int_lt (pos 0) item.stock then item.stock else pos 0

abbrev pub is_served : Option ItemRow → ℤ → Bool
is_served none q = false
is_served (some item) q = is_physical item && not (int_lt item.stock q)

-- `linesByID`: a later line of the same id replaces an earlier one, and a missing one is the zero
-- value.
last_line : String → List Line → Option Line
last_line id [] = none
last_line id (line ∷ lines) = elim (last_line id lines) [
  | some later ↦ some later
  | none ↦ if line.order_line_id =s= id then some line else none
]

line_by_id : String → List Line → Line
unfolding last_line
line_by_id id lines = elim (last_line id lines) [
  | none ↦ record { order_line_id = nil_uuid; product_id = nil_uuid; quantity = pos 0 }
  | some line ↦ line
]

mark_dependents :
    List Line → List String → ℤ → List String → List UnavailableItem → List UnavailableItem
unfolding line_by_id put_unavailable member
mark_dependents lines composite available [] unavailable = unavailable
mark_dependents lines composite available (id ∷ ids) unavailable =
    mark_dependents lines composite available ids (
      put_unavailable
        (unavailable_for (line_by_id id lines) (if member id composite then pos 0 else available))
        unavailable)

-- The loop over the demands.
unfoldable pub check_demands :
    List ItemRow
    → List Line
    → List String
    → List StockDemand
    → List UnavailableItem
    → List UnavailableItem
unfolding mark_dependents item_of
check_demands locked lines composite [] unavailable = unavailable
check_demands locked lines composite (d ∷ ds) unavailable =
    let item = item_of d.item_id locked in
    check_demands locked lines composite ds (
      if is_served item d.quantity
      then unavailable
      else mark_dependents lines composite (available_stock item) d.dependent_lines unavailable)
