-- ===== src/Inventory/Service.antt =====
-- services/inventory-adapter/internal/inventory/application/service.go. The store that a call reaches
-- is an argument.
pub mod Replay
use b46_ordering_app_backend.Base.{
  String, Bool, not, ◌||◌, Option, none, some, Result, ok, err, ◌>>=◌, ◌>>◌, fail_if, ◌=s=◌,
}
use b46_ordering_app_backend.Inventory.Domain.{
  CommitCommand, CommitResult, CatalogQuery, CatalogPage, Digest, InventoryError, store_unavailable,
  fingerprint, validate_result, validate_query, validate_page,
}

-- Service.Catalog; there is no catalog when the store does not implement the port.
unfoldable pub service_catalog :
    Option (CatalogQuery → Result InventoryError CatalogPage)
    → CatalogQuery
    → Result InventoryError CatalogPage
unfolding validate_query validate_page
service_catalog catalog query = do
  validate_query query
  elim catalog [
    | none ↦ err store_unavailable
    | some read ↦ do
      page ← read query
      elim (validate_page page) [ ok u ↦ ok page | err e ↦ err store_unavailable ]
  ]

abbrev pub or_unavailable : Result InventoryError (Unit {0}) → Result InventoryError (Unit {0})
or_unavailable (ok u) = ok u
or_unavailable (err e) = err store_unavailable

-- What Service.Commit checks of the store's result.
unfoldable pub checked_result : CommitCommand → CommitResult → Result InventoryError CommitResult
unfolding validate_result
checked_result command result = do
  or_unavailable (validate_result result)
  fail_if
      (not (result.operation_id =s= command.operation_id)
        || not (result.order_id =s= command.order_id))
      store_unavailable
  ok result

-- The rest of Service.Commit, after the fingerprint.
unfoldable pub commit_printed :
    {S : Type 0}
    → (CommitCommand → String → S → Result InventoryError CommitResult × S)
    → CommitCommand
    → S
    → Result InventoryError String
    → Result InventoryError CommitResult × S
unfolding checked_result
commit_printed store command s (err e) = (err e, s)
commit_printed store command s (ok print) =
    let (r, after) = store command print s in (r >>= checked_result command, after)

-- Service.Commit, over the state `S` of the store.
unfoldable pub service_commit :
    {S : Type 0}
    → Digest
    → (CommitCommand → String → S → Result InventoryError CommitResult × S)
    → CommitCommand
    → S
    → Result InventoryError CommitResult × S
unfolding fingerprint commit_printed
service_commit digest store command s = commit_printed store command s (fingerprint digest command)
