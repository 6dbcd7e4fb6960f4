-- ===== src/Federation/Admission/Replay.antt =====
-- Presenting assertions one after another to a ledger.
use kommunsign.Prelude.{
  ℕ, String, ◌≡◌, refl, ap, Bool, true, false, not, List, [], ◌∷◌, arith, if◌then◌else◌, includes,
  Distinct, ◌==◌, ==_iff, ==-self, string_eq, Bool-cases, inl, inr, Result, ok, err, ◌>>◌, subst,
}
use kommunsign.Prelude.Number.{IsoDateTime}
use kommunsign.Federation.Types.{
  FederationConfig, WorkforceAssertion, FederationRequestBinding, AssertionLedger, FederationError,
}
use kommunsign.Federation.Ledger.{LedgerRow, is_conflict, ledger_for}
use kommunsign.Federation.Admission.{
  check_binding, check_times, Verified, after_checks, verify_workforce_assertion,
}

pub record Presentation : Type 0 where
  pub assertion : WorkforceAssertion
  pub config : FederationConfig
  pub binding : FederationRequestBinding
  pub now : ℕ

abbrev pub is_ok : Result FederationError (Unit {0}) → Bool
is_ok (ok done) = true
is_ok (err thrown) = false

module _ {S : Type 0} (ledger : AssertionLedger S) where
  abbrev pub present : Presentation → S → Verified S
  present p kept = verify_workforce_assertion ledger p.assertion p.config p.binding p.now kept

  -- The identifiers of the assertions that are accepted, in order.
  unfoldable pub accepted : List Presentation → S → List String
  accepted [] kept = []
  accepted (p ∷ ps) kept =
      let v = present p kept in
      let rest = accepted ps v.ledger in
      if is_ok v.result then p.assertion.assertion_id ∷ rest else rest

  -- The identifier is not new to the ledger, whatever the end of its validity.
  abbrev Taken : S → String → Type 0
  Taken kept id = (until : IsoDateTime) → ledger.fresh kept id until ≡ false

  -- A ledger that keeps what it is given, and loses nothing by it.
  pub record IsSingleUse : Type 0 where
    pub takes :
        (kept : S) (id : String) (until : IsoDateTime) → Taken (ledger.keep kept id until) id
    pub holds :
        (kept : S) (id other : String) (until : IsoDateTime)
        → Taken kept id
        → Taken (ledger.keep kept other until) id

  -- What one presentation does to the ledger: an assertion that is accepted was new and is kept.
  record Presented (p : Presentation) (kept : S) (v : Verified S) : Type 0 where
    pub grows : (id : String) → Taken kept id → Taken v.ledger id
    pub new :
        is_ok v.result ≡ true
        → ledger.fresh kept p.assertion.assertion_id p.assertion.not_on_or_after ≡ true
    pub spent_now : is_ok v.result ≡ true → Taken v.ledger p.assertion.assertion_id

  module _ (single : IsSingleUse) where
    Presented-of :
        (checked : Result FederationError (Unit {0})) (p : Presentation) (kept : S)
        → Presented p kept (after_checks ledger checked p.assertion p.config kept)
    Presented-of (err thrown) p kept = record {
      grows = λ id h. h;
      new = λ h. absurd (cc);
      spent_now = λ h. absurd (cc);
    }
    Presented-of (ok done) p kept =
        let id = p.assertion.assertion_id in
        let until = p.assertion.not_on_or_after in
        elim (Bool-cases (ledger.fresh kept id until)) [
          | inl new ↦ rw new (record {
            grows = λ other h. single.holds kept other id until h;
            new = λ h. new;
            spent_now = λ h. single.takes kept id until;
          })
          | inr old ↦ rw old (record {
            grows = λ other h. single.holds kept other id until h;
            new = λ h. absurd (cc);
            spent_now = λ h. absurd (cc);
          })
        ]

    present-Presented : (p : Presentation) (kept : S) → Presented p kept (present p kept)
    unfolding verify_workforce_assertion
    present-Presented p kept =
        Presented-of
          (check_binding p.assertion p.config p.binding >> check_times p.assertion p.config p.now) p
          kept

    apart :
        (kept : S) (x y : String) (until : IsoDateTime)
        → Taken kept x
        → ledger.fresh kept y until ≡ true
        → (y == x) ≡ false
    apart kept x y until hx hy = elim (Bool-cases (y == x)) [
      | inl same ↦
          let h : ledger.fresh kept x until ≡ true =
            subst (λ i. ledger.fresh kept i until ≡ true) ((==_iff y x).0 same) hy in
          let taken = hx until in absurd (cc)
      | inr other ↦ other
    ]

    -- What the ledger has is not accepted again.
    spent :
        (ps : List Presentation) (kept : S) (id : String)
        → Taken kept id
        → includes (accepted ps kept) id ≡ false
    unfolding accepted
    spent [] kept id h = refl
    spent (p ∷ ps) kept id h =
        let v = present p kept in
        let step = present-Presented p kept in
        let rest = spent ps v.ledger id (step.grows id h) in
        elim (Bool-cases (is_ok v.result)) [
          | inl fine ↦
              rw
                (
                  fine,
                  apart kept id p.assertion.assertion_id p.assertion.not_on_or_after h
                      (step.new fine),
                )
                rest
          | inr bad ↦ rw bad rest
        ]

    -- A ledger that keeps what it is given accepts no assertion twice.
    single_use : (ps : List Presentation) (kept : S) → Distinct (accepted ps kept)
    unfolding accepted
    single_use [] kept = tt
    single_use (p ∷ ps) kept =
        let v = present p kept in
        let rest = single_use ps v.ledger in
        elim (Bool-cases (is_ok v.result)) [
          | inl fine ↦ rw fine (
            spent ps v.ledger p.assertion.assertion_id ((present-Presented p kept).spent_now fine),
            rest,
          )
          | inr bad ↦ rw bad rest
        ]

-- Inserting a row finds it from then on, and loses no other.
inserted :
    (tenant_id id : String) (until : IsoDateTime) (rows : List LedgerRow)
    → is_conflict tenant_id id ((ledger_for tenant_id).keep rows id until) ≡ true
inserted tenant_id id until rows = elim (Bool-cases (is_conflict tenant_id id rows)) [
  | inl there ↦ rw (there, there) refl
  | inr absent ↦ rw (absent, ==-self tenant_id, ==-self id) refl
]

undisturbed :
    (tenant_id id other : String) (until : IsoDateTime) (rows : List LedgerRow)
    → is_conflict tenant_id id rows ≡ true
    → is_conflict tenant_id id ((ledger_for tenant_id).keep rows other until) ≡ true
undisturbed tenant_id id other until rows h = elim (Bool-cases (is_conflict tenant_id other rows)) [
  | inl there ↦ rw there h
  | inr absent ↦ rw (absent, h) (ground arith)
]

true_of_not : (b : Bool) → not b ≡ false → b ≡ true
true_of_not b h = ground arith

ledger_for-IsSingleUse : (tenant_id : String) → IsSingleUse (ledger_for tenant_id)
ledger_for-IsSingleUse tenant_id = record {
  takes = λ rows id until later. ap not (inserted tenant_id id until rows);
  holds = λ rows id other until h later.
      ap not (undisturbed tenant_id id other until rows (true_of_not _ (h later)));
}

-- However often and in whatever order assertions are presented to the ledger of a tenant in the
-- database, whatever that has already, none is accepted twice, as long as nothing is pruned.
pub accepted_once :
    (tenant_id : String) (ps : List Presentation) (rows : List LedgerRow)
    → Distinct (accepted (ledger_for tenant_id) ps rows)
accepted_once tenant_id ps rows =
    single_use (ledger_for tenant_id) (ledger_for-IsSingleUse tenant_id) ps rows
