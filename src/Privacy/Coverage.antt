-- ===== src/Privacy/Coverage.antt =====
-- What an answer to a data subject has accounted for.
use kommunsign.Prelude.{
  ℕ, ◌+◌, ◌*◌, ◌≡◌, ◌≢◌, refl, sym, ◌∙◌, ◌⊎◌, true, false, not, ◌&&◌, ◌||◌, List, [], ◌∷◌, arith,
  ok, throw_if, ◌==◌, includes, filter, filter-eq-nil_iff, is_empty, sum_by, All, Distinct, Fresh,
  Fresh-cons, >>-eq-ok, >>=-eq-ok, throw_if-eq-ok,
}
use kommunsign.Prelude.Number.{is_safe_from, to_ℕ, IsoDateTime, unparsable, instant, ms_per_day}
use kommunsign.Privacy.Response.{
  erasure, right_eq, data_subject_rights, PersonalDataStore, store_eq, personal_data_stores,
  StoreCoverage, DataSubjectRequest, DataSubjectResponse, add_days, has_ground, check_coverage,
  stores_of, build_data_subject_response, store_unknown, store_duplicate, record_count_invalid,
  store_not_searched, coverage_incomplete, right_unknown, erasure_blocked_by_legal_hold,
  response_deadline_days,
}

-- A store is searched, or exempt with a ground, and its records are counted.
pub record IsAccounted (entry : StoreCoverage) : Type 0 where
  pub counted : is_safe_from 0 entry.record_count ≡ true
  pub answered : (entry.searched ≡ true) ⊎ (has_ground entry.exemption_reason ≡ true)

-- All five stores are accounted for, each once.
pub record IsCovered (coverage : List StoreCoverage) : Type 0 where
  pub accounted : All IsAccounted coverage
  pub once : Distinct (stores_of coverage)
  pub every_store : (store : PersonalDataStore) → includes (stores_of coverage) store ≡ true

check_sound :
    (seen : List PersonalDataStore) (coverage : List StoreCoverage) {all : List PersonalDataStore}
    → check_coverage seen coverage ≡ ok all
    → All IsAccounted coverage
      × Fresh seen (stores_of coverage)
      × Distinct (stores_of coverage)
      × ((s : PersonalDataStore)
          → includes all s ≡ (includes seen s || includes (stores_of coverage) s))
unfolding check_coverage
check_sound seen [] h = (tt, tt, tt, λ s. ground arith)
check_sound seen (e ∷ es) h =
    let (known, h1) =
      >>-eq-ok (throw_if (not (includes personal_data_stores e.store)) store_unknown) _ h in
    let (new, h2) = >>-eq-ok (throw_if (includes seen e.store) store_duplicate) _ h1 in
    let (counted, h3) =
      >>-eq-ok (throw_if (not (is_safe_from 0 e.record_count)) record_count_invalid) _ h2 in
    let (answered, h4) =
      >>-eq-ok (throw_if (not e.searched && not (has_ground e.exemption_reason)) store_not_searched)
        _ h3 in
    let (rest, later, distinct, same) = check_sound (e.store ∷ seen) es h4 in
    let (fresh, absent) = Fresh-cons e.store seen (stores_of es) later in
    (
      (
        record {
          counted = ground (arith, counted);
          answered = ground (arith, throw_if-eq-ok _ _ answered);
        },
        rest,
      ),
      (throw_if-eq-ok _ _ new, fresh),
      (absent, distinct),
      λ s. ground (arith, same s),
    )

every_store_seen :
    (seen : List PersonalDataStore)
    → filter (λ store. not (includes seen store)) personal_data_stores ≡ []
    → (store : PersonalDataStore) → includes seen store ≡ true
every_store_seen seen h store =
    let all = (filter-eq-nil_iff (λ store. not (includes seen store)) personal_data_stores).0 h in
    ground (arith, all)

add_days_sound :
    (at : IsoDateTime) (days : ℕ) {due : IsoDateTime}
    → add_days at days ≡ ok due
    → (t : ℕ) × (at ≡ instant t) × (due ≡ instant (t + days * ms_per_day))
unfolding add_days
add_days_sound unparsable days h = absurd (ground arith)
add_days_sound (instant t) days h = (t, refl, ground arith)

nil_of_empty : (xs : List PersonalDataStore) → is_empty xs ≡ true → xs ≡ []
nil_of_empty [] h = refl
nil_of_empty (x ∷ xs) h = cc

-- An answer is built only if all five stores are accounted for, each once, and never for an erasure
-- under legal hold. It repeats the coverage, totals its records, and is due thirty days after the
-- request was received.
pub response_sound :
    (request : DataSubjectRequest) (coverage : List StoreCoverage) {response : DataSubjectResponse}
    → build_data_subject_response request coverage ≡ ok response
    → IsCovered coverage
      × ((request.right ≢ erasure) ⊎ (request.legal_hold_active ≡ false))
      × (response.coverage ≡ coverage)
      × (response.complete ≡ true)
      × (response.total_records ≡ sum_by (λ e. to_ℕ e.record_count) coverage)
      × ((t : ℕ) × (request.received_at ≡ instant t)
          × (response.due_at ≡ instant (t + response_deadline_days * ms_per_day)))
unfolding build_data_subject_response
response_sound request coverage h =
    let (known, h1) =
      >>-eq-ok (throw_if (not (includes data_subject_rights request.right)) right_unknown) _ h in
    let (free, h2) =
      >>-eq-ok
        (throw_if (request.right == erasure && request.legal_hold_active)
          erasure_blocked_by_legal_hold)
        _ h1 in
    let (seen, checked, h3) = >>=-eq-ok (check_coverage [] coverage) _ h2 in
    let missing = filter (λ store. not (includes seen store)) personal_data_stores in
    let (none_missing, h4) =
      >>-eq-ok (throw_if (not (is_empty missing)) coverage_incomplete) _ h3 in
    let (due, is_due, h5) = >>=-eq-ok (add_days request.received_at response_deadline_days) _ h4 in
    let (accounted, fresh, once, same) = check_sound [] coverage checked in
    let (t, at, later) = add_days_sound request.received_at response_deadline_days is_due in
    let every =
      every_store_seen seen
        (nil_of_empty missing (ground (arith, throw_if-eq-ok _ _ none_missing))) in
    (
      record { accounted = accounted; once = once; every_store = λ s. sym (same s) ∙ every s },
      ground (arith, throw_if-eq-ok _ _ free),
      ground (arith, h5),
      ground (arith, h5),
      ground (arith, h5),
      (t, at, ground (arith, h5, later)),
    )
