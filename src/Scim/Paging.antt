-- ===== src/Scim/Paging.antt =====
-- packages/scim/src/index.ts: `paginateScim`.
pub mod Laws
use kommunsign.Prelude.{
  ℕ, ◌-◌, min, String, Bool, true, false, Option, none, some, List, [], ◌∷◌, length, take, drop,
  ltb, Result, ok, err, ◌>>=◌, if◌then◌else◌,
}
use kommunsign.Prelude.Number.{Number, whole, negative, other}
use kommunsign.Scim.Types.{ScimError, scim_error, invalid_pagination}

abbrev pub scim_maximum_page_size : ℕ
scim_maximum_page_size = 200

abbrev pub scim_default_page_size : ℕ
scim_default_page_size = 100

pub record ScimListResponse {ℓ} (A : Type ℓ) : Type ℓ where
  pub schemas : List String
  pub total_results : ℕ
  pub start_index : ℕ
  pub items_per_page : ℕ
  pub resources : List A

-- `startIndex ?? 1`, a positive integer.
abbrev pub start_of : Option Number → Result ScimError ℕ
start_of none = ok 1
start_of (some (whole n)) = if ltb n 1 then err (scim_error invalid_pagination) else ok n
start_of (some (negative n)) = err (scim_error invalid_pagination)
start_of (some other) = err (scim_error invalid_pagination)

-- `count ?? SCIM_DEFAULT_PAGE_SIZE`, no negative number and no fraction.
abbrev pub count_of : Option Number → Result ScimError ℕ
count_of none = ok scim_default_page_size
count_of (some (whole n)) = ok n
count_of (some (negative n)) = err (scim_error invalid_pagination)
count_of (some other) = err (scim_error invalid_pagination)

module _ {ℓ} {A : Type ℓ} where
  abbrev pub page_of : List A → ℕ → ℕ → List A
  page_of resources start size = take size (drop (start - 1) resources)

  unfoldable pub paginate_scim :
      List A → Option Number → Option Number → Result ScimError (ScimListResponse A)
  paginate_scim resources start_index count = do
    start ← start_of start_index
    size ← count_of count
    let page = page_of resources start (min size scim_maximum_page_size)
    ok (record {
      schemas = "urn:ietf:params:scim:api:messages:2.0:ListResponse" ∷ [];
      total_results = length resources;
      start_index = start;
      items_per_page = length page;
      resources = page;
    })
