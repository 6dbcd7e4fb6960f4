-- ===== src/Retention/Executor/Plan.antt =====
-- What `planGallring` declares.
use kommunsign.Prelude.{
  ◌≡◌, refl, sym, ap, ◌∙◌, true, List, [], ◌∷◌, ◌++◌, not, arith, ok, includes, string_eq,
  dedup_from, unique, for_each-All, >>-eq-ok, ok_injective, throw_if, All,
}
use kommunsign.Prelude.Sort.{sort}
use kommunsign.Retention.Types.{target_unknown}
use kommunsign.Retention.Report.{GallringTarget, gallring_targets}
use kommunsign.Retention.Executor.{
  GallringJob, queued, planned, plan_gallring, assert_state, policy_error, mandatory_case_targets,
  name_le,
}

-- All nine targets, in the order of their names.
abbrev pub all_targets : List GallringTarget
all_targets =
    "cache" ∷ "derived_renders" ∷ "document_versions" ∷ "documents" ∷ "evidence_packages"
    ∷ "notifications" ∷ "object_storage" ∷ "search_index" ∷ "signature_case" ∷ []

dedup_of_seen :
    (seen xs : List GallringTarget) → All (λ x. includes seen x ≡ true) xs → dedup_from seen xs ≡ []
dedup_of_seen seen [] h = refl
dedup_of_seen seen (x ∷ xs) h = rw h.0 (dedup_of_seen seen xs h.1)

-- The targets that the set has met when it comes to the additional ones.
abbrev met : List GallringTarget
met =
    "notifications" ∷ "cache" ∷ "search_index" ∷ "derived_renders" ∷ "evidence_packages"
    ∷ "object_storage" ∷ "document_versions" ∷ "documents" ∷ "signature_case" ∷ []

known-met : (t : GallringTarget) → includes gallring_targets t ≡ true → includes met t ≡ true
known-met t h = ground arith

abbrev IsKnown : List GallringTarget → Type 0
IsKnown targets = All (λ t. includes gallring_targets t ≡ true) targets

All-met : (ts : List GallringTarget) → IsKnown ts → All (λ t. includes met t ≡ true) ts
All-met [] h = tt
All-met (t ∷ ts) h = (known-met t h.0, All-met ts h.1)

unique-mandatory :
    (additional : List GallringTarget)
    → IsKnown additional
    → unique (mandatory_case_targets ++ additional) ≡ mandatory_case_targets
unique-mandatory additional h =
    ap
      (λ rest.
        "signature_case" ∷ "documents" ∷ "document_versions" ∷ "object_storage"
        ∷ "evidence_packages" ∷ "derived_renders" ∷ "search_index" ∷ "cache" ∷ "notifications"
        ∷ rest)
      (dedup_of_seen met additional (All-met additional h))

planned-all :
    (additional : List GallringTarget)
    → IsKnown additional
    → sort name_le (unique (mandatory_case_targets ++ additional)) ≡ all_targets
planned-all additional h = ap (sort name_le) (unique-mandatory additional h) ∙ refl

-- The checks of the additional targets, as the source's loop makes them.
IsKnown-checked :
    (additional : List GallringTarget)
    → All
        (λ t. throw_if (not (includes gallring_targets t)) (policy_error target_unknown) ≡ ok tt)
        additional
    → IsKnown additional
IsKnown-checked [] h = tt
IsKnown-checked (t ∷ ts) h = (ground (arith, h.0), IsKnown-checked ts h.1)

-- A plan that is made is made for a queued job, and covers all nine targets, whatever is added.
pub plan_covers_all :
    (job : GallringJob) (additional : List GallringTarget) {job' : GallringJob}
    → plan_gallring job additional ≡ ok job'
    → (job.state ≡ queued) × (job' ≡ record job { state = planned; planned_targets = all_targets })
unfolding plan_gallring
plan_covers_all job additional h =
    let (fresh, h') = >>-eq-ok (assert_state job queued) _ h in
    let (checked, h'') = >>-eq-ok _ _ h' in
    let known = IsKnown-checked additional (for_each-All additional _ checked) in
    (
      ground (arith, fresh),
      sym (ok_injective h'')
          ∙ ap (λ ts. record job { state = planned; planned_targets = ts })
              (planned-all additional known),
    )
