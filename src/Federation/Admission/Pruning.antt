-- ===== src/Federation/Admission/Pruning.antt =====
-- The ledger of the database while it is pruned, and all tenants present assertions to it.
use kommunsign.Prelude.{
  ℕ, String, ◌≤◌, ◌<◌, ◌≡◌, ◌≢◌, refl, subst, true, false, List, [], ◌∷◌, arith, ◌⊎◌, inl, inr,
  ==-self, string_eq, Bool-cases, Result, ok, err, ◌>>◌,
}
use kommunsign.Prelude.Number.{IsoDateTime, unparsable, instant, is_before}
use kommunsign.Federation.Types.{FederationError, rejected, assertion_replayed}
use kommunsign.Federation.Ledger.{LedgerRow, is_conflict, ledger_for, prune_ledger}
use kommunsign.Federation.Admission.{
  check_binding, check_times, after_checks, verify_workforce_assertion,
}
use kommunsign.Federation.Admission.Laws.{AtTime, admission_iff}
use kommunsign.Federation.Admission.Replay.{Presentation, present}

-- What happens to the table: a tenant is presented an assertion, or what has expired is deleted.
pub data Event : Type 0 where
  presented : String → Presentation → Event
  pruned : ℕ → Event

abbrev pub time_of : Event → ℕ
time_of (presented tenant_id p) = p.now
time_of (pruned now) = now

abbrev pub after_event : Event → List LedgerRow → List LedgerRow
after_event (presented tenant_id p) rows = (present (ledger_for tenant_id) p rows).ledger
after_event (pruned now) rows = prune_ledger now rows

unfoldable pub after_events : List Event → List LedgerRow → List LedgerRow
after_events [] rows = rows
after_events (e ∷ es) rows = after_events es (after_event e rows)

-- The clock does not go back, from one time to another.
abbrev pub IsInTime : ℕ → List Event → ℕ → Type 0
IsInTime start [] end = start ≤ end
IsInTime start (e ∷ es) end = (start ≤ time_of e) × IsInTime (time_of e) es end

-- The row is one of the table.
abbrev HasRow : LedgerRow → List LedgerRow → Type 0
HasRow row [] = ⊥
HasRow row (r ∷ rows) = (r ≡ row) ⊎ HasRow row rows

HasRow-conflict :
    (row : LedgerRow) (rows : List LedgerRow)
    → HasRow row rows
    → is_conflict row.tenant_id row.assertion_id rows ≡ true
HasRow-conflict row [] h = absurd h
HasRow-conflict row (r ∷ rows) (inl same) =
    rw (same, ==-self row.tenant_id, ==-self row.assertion_id) refl
HasRow-conflict row (r ∷ rows) (inr later) =
    let ih = HasRow-conflict row rows later in ground (arith, ih)

HasRow-keep :
    (row : LedgerRow) (tenant_id id : String) (until : IsoDateTime) (rows : List LedgerRow)
    → HasRow row rows
    → HasRow row ((ledger_for tenant_id).keep rows id until)
HasRow-keep row tenant_id id until rows h = elim (Bool-cases (is_conflict tenant_id id rows)) [
  | inl there ↦ rw there h
  | inr absent ↦ rw absent (inr h)
]

HasRow-prune :
    (row : LedgerRow) (now : ℕ) (rows : List LedgerRow)
    → is_before row.not_on_or_after now ≡ false
    → HasRow row rows
    → HasRow row (prune_ledger now rows)
HasRow-prune row now [] current h = h
HasRow-prune row now (r ∷ rows) current (inl same) = rw (same, current) (inl refl)
HasRow-prune row now (r ∷ rows) current (inr later) =
    elim (Bool-cases (is_before r.not_on_or_after now)) [
      | inl old ↦ rw old (HasRow-prune row now rows current later)
      | inr kept ↦ rw kept (inr (HasRow-prune row now rows current later))
    ]

HasRow-checks :
    (row : LedgerRow) (tenant_id : String) (checked : Result FederationError (Unit {0}))
    (p : Presentation) (rows : List LedgerRow)
    → HasRow row rows
    → HasRow row (after_checks (ledger_for tenant_id) checked p.assertion p.config rows).ledger
HasRow-checks row tenant_id (err thrown) p rows h = h
HasRow-checks row tenant_id (ok done) p rows h =
    let id = p.assertion.assertion_id in
    let until = p.assertion.not_on_or_after in
    elim (Bool-cases (is_conflict tenant_id id rows)) [
      | inl there ↦ rw there h
      | inr absent ↦ rw absent (inr h)
    ]

HasRow-present :
    (row : LedgerRow) (tenant_id : String) (p : Presentation) (rows : List LedgerRow)
    → HasRow row rows
    → HasRow row (present (ledger_for tenant_id) p rows).ledger
unfolding verify_workforce_assertion
HasRow-present row tenant_id p rows h =
    HasRow-checks row tenant_id
      (check_binding p.assertion p.config p.binding >> check_times p.assertion p.config p.now) p
      rows h

-- The row is there, or its time is over.
abbrev IsSpent : LedgerRow → ℕ → List LedgerRow → Type 0
IsSpent row now rows = HasRow row rows ⊎ (is_before row.not_on_or_after now ≡ true)

is_before-later :
    (until : IsoDateTime) (now later : ℕ)
    → now ≤ later
    → is_before until now ≡ true
    → is_before until later ≡ true
is_before-later unparsable now later le h = h
is_before-later (instant t) now later le h = ground (arith, le, h)

after_event-IsSpent :
    (row : LedgerRow) (now : ℕ) (e : Event) (rows : List LedgerRow)
    → now ≤ time_of e
    → IsSpent row now rows
    → IsSpent row (time_of e) (after_event e rows)
after_event-IsSpent row now e rows le (inr over) =
    inr (is_before-later row.not_on_or_after now (time_of e) le over)
after_event-IsSpent row now (presented tenant_id p) rows le (inl there) =
    inl (HasRow-present row tenant_id p rows there)
after_event-IsSpent row now (pruned at) rows le (inl there) =
    elim (Bool-cases (is_before row.not_on_or_after at)) [
      | inl over ↦ inr over
      | inr current ↦ inl (HasRow-prune row at rows current there)
    ]

after_events-IsSpent :
    (row : LedgerRow) (start end : ℕ) (es : List Event) (rows : List LedgerRow)
    → IsInTime start es end
    → IsSpent row start rows
    → IsSpent row end (after_events es rows)
unfolding after_events
after_events-IsSpent row start end [] rows le (inl there) = inl there
after_events-IsSpent row start end [] rows le (inr over) =
    inr (is_before-later row.not_on_or_after start end le over)
after_events-IsSpent row start end (e ∷ es) rows h spent =
    after_events-IsSpent row (time_of e) end es (after_event e rows) h.1
      (after_event-IsSpent row start e rows h.0 spent)

-- The row that an accepted assertion leaves.
abbrev pub row_of : String → Presentation → LedgerRow
row_of tenant_id p = record {
  tenant_id = tenant_id;
  assertion_id = p.assertion.assertion_id;
  not_on_or_after = p.assertion.not_on_or_after;
}

HasRow-accepted :
    (tenant_id : String) (checked : Result FederationError (Unit {0})) (p : Presentation)
    (rows : List LedgerRow)
    → let v = after_checks (ledger_for tenant_id) checked p.assertion p.config rows in
      v.result ≡ ok tt → HasRow (row_of tenant_id p) v.ledger
HasRow-accepted tenant_id (err thrown) p rows h = absurd (cc)
HasRow-accepted tenant_id (ok done) p rows h =
    elim (Bool-cases (is_conflict tenant_id p.assertion.assertion_id rows)) [
      | inl there ↦
          let e : ◌≡◌ {A = Result FederationError (Unit {0})} (err (rejected assertion_replayed))
              (ok tt) =
            rw there at h in
          absurd (cc)
      | inr absent ↦ rw absent (inl refl)
    ]

accepted-IsSpent :
    (tenant_id : String) (p : Presentation) (rows : List LedgerRow)
    → (present (ledger_for tenant_id) p rows).result ≡ ok tt
    → IsSpent (row_of tenant_id p) p.now (present (ledger_for tenant_id) p rows).ledger
unfolding verify_workforce_assertion
accepted-IsSpent tenant_id p rows h = inl (
    HasRow-accepted tenant_id
      (check_binding p.assertion p.config p.binding >> check_times p.assertion p.config p.now) p
      rows h)

not_over :
    (until : IsoDateTime) (now : ℕ) → AtTime until (λ t. now < t) → is_before until now ≡ true → ⊥
not_over unparsable now valid over = valid
not_over (instant t) now valid over = absurd (ground (arith, valid, over))

spent-refused :
    (tenant_id : String) (q : Presentation) (rows : List LedgerRow)
    → IsSpent (row_of tenant_id q) q.now rows
    → (present (ledger_for tenant_id) q rows).result ≢ ok tt
spent-refused tenant_id q rows spent h =
    let (bound, current, new, enough) =
      (admission_iff (ledger_for tenant_id) q.assertion q.config q.binding q.now rows).0 h in
    elim spent [
      | inl there ↦
          let conflict = HasRow-conflict (row_of tenant_id q) rows there in
          absurd (ground (arith, conflict, new))
      | inr over ↦ not_over q.assertion.not_on_or_after q.now current.unexpired over
    ]

-- An assertion that a tenant has accepted is not accepted by it again, whatever the ledger of the
-- database had before, whatever is presented to it in between by any tenant, and whenever it is
-- pruned, as long as the clock does not go back. An assertion is its identifier and the end of its
-- validity.
pub spent_assertion_is_refused :
    (tenant_id : String) (p q : Presentation) (between : List Event) (rows : List LedgerRow)
    → (present (ledger_for tenant_id) p rows).result ≡ ok tt
    → IsInTime p.now between q.now
    → q.assertion.assertion_id ≡ p.assertion.assertion_id
    → q.assertion.not_on_or_after ≡ p.assertion.not_on_or_after
    → (present
        (ledger_for tenant_id)
        q
        (after_events between (present (ledger_for tenant_id) p rows).ledger)).result
      ≢ ok tt
spent_assertion_is_refused tenant_id p q between rows accepted in_time same_id same_end =
    let kept = (present (ledger_for tenant_id) p rows).ledger in
    let same : row_of tenant_id p ≡ row_of tenant_id q = rw (same_id, same_end) refl in
    spent-refused tenant_id q (after_events between kept) (
      subst (λ row. IsSpent row q.now (after_events between kept)) same
        (after_events-IsSpent (row_of tenant_id p) p.now q.now between kept in_time
          (accepted-IsSpent tenant_id p rows accepted)))
