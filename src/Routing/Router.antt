-- ===== src/Routing/Router.antt =====
-- internal/routing/router.go: the lookup with its record. A recorder is a list of the records that
-- it was given, and none is a Router without one.
pub mod Routes
use scrap.Common.{ℕ, Bool, true, false, Option, none, some, List, [], ◌∷◌}
use scrap.Common.Result.{Result, ok, err, either}
use scrap.Routing.Hash.{RoutingError, invalid_transaction}
use scrap.Routing.Placement.{Placement, Route, lookup_route}

pub data LookupOutcome : Type 0 where
  routed : LookupOutcome
  rejected : LookupOutcome

pub data LookupReason : Type 0 where
  matched : LookupReason
  bad_transaction : LookupReason
  no_route : LookupReason

pub record LookupRecord : Type 0 where
  pub outcome : LookupOutcome
  pub reason : LookupReason
  pub shard_id : ℕ
  pub shard_id_valid : Bool

pub record Router : Type 0 where
  pub placement : Placement
  pub recorder : Option (List LookupRecord)

abbrev pub reason_for_lookup_error : RoutingError → LookupReason
reason_for_lookup_error RoutingError.invalid_transaction = bad_transaction
reason_for_lookup_error _ = no_route

abbrev pub record_lookup : Router → LookupRecord → Router
record_lookup r entry = record r {
  recorder = elim r.recorder [ none ↦ none | some records ↦ some (entry ∷ records) ];
}

abbrev pub rejected_lookup : RoutingError → LookupRecord
rejected_lookup e = record {
  outcome = rejected;
  reason = reason_for_lookup_error e;
  shard_id = 0;
  shard_id_valid = false;
}

abbrev pub routed_lookup : Route → LookupRecord
routed_lookup route = record {
  outcome = routed;
  reason = matched;
  shard_id = route.shard_id;
  shard_id_valid = true;
}

unfoldable pub router_lookup : Router → List ℕ → Router × Result RoutingError Route
router_lookup r transaction_id =
    either (lookup_route r.placement transaction_id)
      (λ e. (record_lookup r (rejected_lookup e), err e))
      (λ route. (record_lookup r (routed_lookup route), ok route))
