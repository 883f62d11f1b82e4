-- ===== src/Runtime/Gateway.antt =====
-- crates/runtime/src/gateway.rs: external keys become dense indices. A map is an association list in
-- the order of insertion, a byte a number, and a lock that a panic has poisoned a flag.
use rfq_matching_settlement.Prelude.{
  ℕ, ◌+◌, Bool, true, false, ◌&&◌, Option, none, some, List, [], ◌∷◌, ◌++◌, length, get_elem?, set,
  replicate, ltb, leb, ◌==◌, if◌then◌else◌, u8_max, u32_max, narrow,
}
use rfq_matching_settlement.Prelude.Result.{Result, ok, err}
use rfq_matching_settlement.Prelude.Action.{Action, ◌>>=◌, ◌>>◌, pure, gets, modify, err_if}
use rfq_matching_settlement.Core.Types.{Price, Size, Ts, Side, yes_side, AccountIdx}
use rfq_matching_settlement.Core.Config.{max_legs_bound}
use rfq_matching_settlement.Core.Contract.{ContractIdx}
use rfq_matching_settlement.Core.Command
use rfq_matching_settlement.Core.Command.{LegSpec, Command, register_contract}
pub mod Interning

abbrev pub Bytes : Type 0
Bytes = List ℕ

abbrev pub bytes_eq : Bytes → Bytes → Bool
bytes_eq [] [] = true
bytes_eq [] (y ∷ ys) = false
bytes_eq (x ∷ xs) [] = false
bytes_eq (x ∷ xs) (y ∷ ys) = x == y && bytes_eq xs ys

pub record ContractRef : Type 0 where
  pub description : Bytes
  pub event_date : Ts
  pub resolution_source : Bytes

abbrev pub ref_eq : ContractRef → ContractRef → Bool
ref_eq a b =
    bytes_eq a.description b.description
    && a.event_date == b.event_date
    && bytes_eq a.resolution_source b.resolution_source

pub data GatewayError : Type 0 where
  contract_table_full account_table_full more_legs registry_unavailable : GatewayError

pub record ContractRegistry : Type 0 where
  pub by_index : List ContractRef
  pub poisoned : Bool

-- `ContractRegistry::describe`.
abbrev pub describe : ContractRegistry → ContractIdx → Option ContractRef
describe r k = get_elem? r.by_index k

pub record Gateway : Type 0 where
  pub contracts : List (ContractRef × ContractIdx)
  pub registry : ContractRegistry
  pub max_contracts : ℕ
  pub accounts : List (Bytes × AccountIdx)
  pub max_accounts : ℕ

-- `Gateway::new`.
abbrev pub new_gateway : ℕ → ℕ → Gateway
new_gateway accounts contracts = record {
  contracts = [];
  registry = record { by_index = []; poisoned = false };
  max_contracts = contracts;
  accounts = [];
  max_accounts = accounts;
}

-- `BTreeMap::get`.
abbrev pub find {ℓ} : {K V : Type ℓ} → (K → K → Bool) → K → List (K × V) → Option V
find eq key [] = none
find eq key ((k, v) ∷ rest) = if eq k key then some v else find eq key rest

abbrev or_max : Option ℕ → ℕ
or_max none = u32_max
or_max (some n) = n

-- `u32::try_from(len).unwrap_or(u32::MAX)`.
abbrev pub index_after : ℕ → ℕ
index_after n = or_max (narrow u32_max n)

abbrev intern_account : Option AccountIdx → Bytes → Action Gateway GatewayError AccountIdx
intern_account (some index) key = pure index
intern_account none key = do
  next ← gets (λ g. index_after (length g.accounts))
  limit ← gets (λ g. g.max_accounts)
  err_if (leb limit next) account_table_full
  modify (λ g. record g { accounts = g.accounts ++ ((key, next) ∷ []) })
  pure next

-- `Gateway::account`.
unfoldable pub account_index : Bytes → Action Gateway GatewayError AccountIdx
account_index key = do known ← gets (λ g. find bytes_eq key g.accounts); intern_account known key

abbrev pub record_ref : ContractRef → Gateway → Gateway
record_ref reference g = record g {
  registry = record g.registry { by_index = g.registry.by_index ++ (reference ∷ []) };
}

abbrev pub intern_contract :
    Option ContractIdx → ContractRef → Action Gateway GatewayError (ContractIdx × Option Command)
intern_contract (some index) reference = pure (index, none)
intern_contract none reference = do
  next ← gets (λ g. index_after (length g.contracts))
  limit ← gets (λ g. g.max_contracts)
  err_if (leb limit next) contract_table_full
  modify (λ g. record g { contracts = g.contracts ++ ((reference, next) ∷ []) })
  locked ← gets (λ g. g.registry.poisoned)
  err_if locked registry_unavailable
  modify (record_ref reference)
  pure (next, some (register_contract next reference.event_date))

-- `Gateway::contract`.
unfoldable pub contract_index :
    ContractRef → Action Gateway GatewayError (ContractIdx × Option Command)
contract_index reference = do
  known ← gets (λ g. find ref_eq reference g.contracts)
  intern_contract known reference

pub record Term : Type 0 where
  pub reference : ContractRef
  pub side : Side
  pub size : Size
  pub limit : Price

abbrev pub with_command : Option Command → List Command → List Command
with_command none cs = cs
with_command (some c) cs = cs ++ (c ∷ [])

-- The loop over the legs, from an index on.
unfoldable pub resolve_terms :
    ℕ
    → List Term
    → List Command
    → List LegSpec
    → Action Gateway GatewayError (List Command × List LegSpec)
unfolding contract_index
resolve_terms index [] commands specs = pure (commands, specs)
resolve_terms index (term ∷ rest) commands specs = do
  found ← contract_index term.reference
  resolve_terms (index + 1) rest (with_command found.1 commands) (
      set specs index
        (record { contract = found.0; side = term.side; size = term.size; limit = term.limit }))

-- `LegSpec::default`.
abbrev empty_spec : LegSpec
empty_spec = record { contract = 0; side = yes_side; size = 0; limit = 0 }

abbrev or_byte_max : Option ℕ → ℕ
or_byte_max none = u8_max
or_byte_max (some n) = n

-- `Gateway::submit_request`.
unfoldable pub submit_terms :
    Bytes → Ts → List Term → Action Gateway GatewayError (List Command × Command)
unfolding account_index resolve_terms
submit_terms requester deadline terms = do
  err_if (ltb max_legs_bound (length terms)) more_legs
  account ← account_index requester
  resolved ← resolve_terms 0 terms [] (replicate max_legs_bound empty_spec)
  pure (
    resolved.0,
    Command.submit_request account deadline resolved.1 (or_byte_max (narrow u8_max (length terms))),
  )
