-- ===== src/Scim/Paging/Laws.antt =====
-- A directory that reads page after page.
use kommunsign.Prelude.{
  ℕ, zero, suc, ◌+◌, ◌-◌, ◌≤◌, ◌<◌, min, ◌≡◌, refl, sym, ap, ◌∙◌, true, false, Option, none, some,
  List, [], ◌∷◌, ◌++◌, arith, inl, inr, Bool-cases, length, length-append, is_empty, take, drop,
  ltb, if◌then◌else◌, Result, ok, err,
}
use kommunsign.Prelude.Number.{whole}
use kommunsign.Scim.Types.{ScimError}
use kommunsign.Scim.Paging.{scim_maximum_page_size, ScimListResponse, page_of, paginate_scim}

module _ {A : Type 0} where
  -- A page that comes is the window of its size, and a size above the maximum is cut.
  pub page-window :
      (resources : List A) (start count : ℕ)
      → 1 ≤ start
      → paginate_scim resources (some (whole start)) (some (whole count))
        ≡ ok (record {
          schemas = "urn:ietf:params:scim:api:messages:2.0:ListResponse" ∷ [];
          total_results = length resources;
          start_index = start;
          items_per_page = length (page_of resources start (min count scim_maximum_page_size));
          resources = page_of resources start (min count scim_maximum_page_size);
        })
  unfolding paginate_scim
  page-window resources start count h =
      let positive : ltb start 1 ≡ false = ground arith in rw positive refl

  -- The client: it asks for the next page until one is empty; `none` means that the fuel ran out or
  -- a page was refused.
  read_on : (ℕ → Option (List A)) → ℕ → Result ScimError (ScimListResponse A) → Option (List A)
  read_on rest start (err thrown) = none
  read_on rest start (ok page) =
      if is_empty page.resources then some [] else elim (rest (start + page.items_per_page)) [
        | none ↦ none
        | some others ↦ some (page.resources ++ others)
      ]

  pub read_pages : ℕ → List A → ℕ → ℕ → Option (List A)
  unfolding read_on
  read_pages zero resources count start = none
  read_pages (suc fuel) resources count start =
      read_on (read_pages fuel resources count) start
        (paginate_scim resources (some (whole start)) (some (whole count)))

  drop-nil : (m : ℕ) → drop {A = A} m [] ≡ []
  drop-nil zero = refl
  drop-nil (suc m) = refl

  drop-add : (k m : ℕ) (xs : List A) → drop (k + m) xs ≡ drop m (drop k xs)
  drop-add zero m xs = let e : 0 + m ≡ m = omega arith in rw e refl
  drop-add (suc k) m [] = drop-nil (suc k + m) ∙ sym (drop-nil m)
  drop-add (suc k) m (x ∷ xs) =
      let e : suc k + m ≡ suc (k + m) = omega arith in rw e (drop-add k m xs)

  take-drop : (n : ℕ) (ys : List A) → take n ys ++ drop (length (take n ys)) ys ≡ ys
  take-drop zero ys = refl
  take-drop (suc n) [] = refl
  take-drop (suc n) (y ∷ ys) = ap (λ l. y ∷ l) (take-drop n ys)

  nothing_taken : (n : ℕ) (ys : List A) → 1 ≤ n → is_empty (take n ys) ≡ true → ys ≡ []
  nothing_taken zero ys h e = absurd (omega arith)
  nothing_taken (suc n) [] h e = refl
  nothing_taken (suc n) (y ∷ ys) h e = absurd (cc)

  taken_some : (n : ℕ) (ys : List A) → is_empty (take n ys) ≡ false → 1 ≤ length (take n ys)
  taken_some n ys e = ground arith

  read_pages_from :
      (fuel : ℕ) (resources : List A) (count start : ℕ)
      → 1 ≤ count
      → 1 ≤ start
      → length (drop (start - 1) resources) < fuel
      → read_pages fuel resources count start ≡ some (drop (start - 1) resources)
  unfolding read_pages
  read_pages_from zero resources count start c s h = absurd (omega arith)
  read_pages_from (suc fuel) resources count start c s h =
      let ys = drop (start - 1) resources in
      let n : ℕ = min count scim_maximum_page_size in
      let size : 1 ≤ n = omega arith in
      let k : ℕ = length (take n ys) in
      elim (Bool-cases (is_empty (take n ys))) [
        | inl last ↦
            rw (page-window resources start count s, last)
              (ap some (sym (nothing_taken n ys size last)))
        | inr more ↦
            let moved : drop (start + k - 1) resources ≡ drop k ys =
              let e : start + k - 1 ≡ (start - 1) + k = omega arith in
              rw e (drop-add (start - 1) k resources) in
            let shorter : length (drop k ys) + k ≡ length ys =
              omega (arith, ap length (take-drop n ys), length-append (take n ys) (drop k ys)) in
            let some_taken = taken_some n ys more in
            let fuel_left : length (drop (start + k - 1) resources) < fuel =
              rw moved (omega arith) in
            let ih = read_pages_from fuel resources count (start + k) c (omega arith) fuel_left in
            rw (page-window resources start count s, more, ih, moved, take-drop n ys) refl
      ]

  -- A directory that asks for pages of any size but 0, each from where the last one ended, gets
  -- every resource once and in order, and has come to an empty page after at most one request more
  -- than there are resources.
  pub pages_cover :
      (resources : List A) (count : ℕ)
      → 1 ≤ count
      → read_pages (length resources + 1) resources count 1 ≡ some resources
  pages_cover resources count c =
      read_pages_from (length resources + 1) resources count 1 c (omega arith) (omega arith)
