-- ===== src/Federation/Ledger.antt =====
-- apps/api/src/production-adapters/postgres/federation-repository.ts: the ledger of a tenant in the
-- table control.federation_assertion_ledger. Its rows are a list; each statement is one transaction.
use kommunsign.Prelude.{
  ℕ, String, Bool, not, ◌&&◌, List, ◌∷◌, any, filter, if◌then◌else◌, ◌==◌, string_eq,
}
use kommunsign.Prelude.Number.{IsoDateTime, is_before}
use kommunsign.Federation.Types.{AssertionLedger}

pub record LedgerRow : Type 0 where
  pub tenant_id : String
  pub assertion_id : String
  pub not_on_or_after : IsoDateTime

-- The primary key.
abbrev pub is_row : String → String → LedgerRow → Bool
is_row tenant_id assertion_id row = row.tenant_id == tenant_id && row.assertion_id == assertion_id

abbrev pub is_conflict : String → String → List LedgerRow → Bool
is_conflict tenant_id assertion_id rows = any (is_row tenant_id assertion_id) rows

-- `insert ... on conflict (tenant_id,assertion_id) do nothing`, and whether it has inserted a row.
abbrev pub ledger_for : String → AssertionLedger (List LedgerRow)
ledger_for tenant_id = record {
  fresh = λ rows assertion_id until. not (is_conflict tenant_id assertion_id rows);
  keep = λ rows assertion_id until.
      if is_conflict tenant_id assertion_id rows
      then rows
      else record { tenant_id = tenant_id; assertion_id = assertion_id; not_on_or_after = until }
        ∷ rows;
}

-- `delete ... where not_on_or_after < $1`, of all tenants.
abbrev pub prune_ledger : ℕ → List LedgerRow → List LedgerRow
prune_ledger now rows = filter (λ (row : LedgerRow). not (is_before row.not_on_or_after now)) rows
