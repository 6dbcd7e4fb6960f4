-- ===== src/Uploads/Metadata.antt =====
-- What is let pass of the metadata, and when the stored bytes are those that were declared.
use kommunsign.Prelude.{
  ℕ, ◌≤◌, ◌≡◌, refl, sym, ap, subst, Bool, true, false, not, ◌&&◌, ◌||◌, List, arith, ◌↔◌, inl, inr,
  Bool-cases, any, includes, ◌==◌, ==_iff, ok, throw_if, >>-eq-ok, throw_if-eq-ok, ok_injective,
}
use kommunsign.Prelude.Number.{Number, whole, negative, other, is_safe_integer}
use kommunsign.Prelude.Text.{codes, is_hex, trim_codes}
use kommunsign.Prelude.TextOrder.{codes_eq}
use kommunsign.Uploads.{
  UploadMetadata, UploadPolicy, file_name_invalid, mime_type_forbidden, size_forbidden,
  macro_format_forbidden, mime_extension_mismatch, sha256_invalid, is_safe_file_name, ends_with,
  office_entries, has_type, extension_in, macro_office_extensions, office_source_max_bytes, exceeds,
  is_size_forbidden, same_number, normalise, stored_bytes_match_grant, check_office,
  validate_upload_metadata,
}

module _ (lower : List ℕ → List ℕ) where
  -- Metadata that a policy lets pass.
  pub record IsAccepted (input : UploadMetadata) (policy : UploadPolicy) (out : UploadMetadata)
      : Type 0 where
    pub normal : out.mime_type ≡ normalise lower input.mime_type
    pub safe : is_safe_file_name out.file_name ≡ true
    pub no_dots : (out.file_name == codes "." || out.file_name == codes "..") ≡ false
    pub allowed : includes policy.allowed_mime_types out.mime_type ≡ true
    pub bytes : ℕ
    pub sized : out.byte_size ≡ whole bytes
    pub some_byte : 1 ≤ bytes
    pub within : bytes ≤ policy.maximum_bytes
    pub no_macro :
        any (λ extension. ends_with extension (lower out.file_name)) macro_office_extensions ≡ false
    pub small_office :
        (has_type office_entries out.mime_type && exceeds out.byte_size office_source_max_bytes)
        ≡ false
    pub own_extension :
        (has_type office_entries out.mime_type
          && not (ends_with (extension_in office_entries out.mime_type) (lower out.file_name)))
        ≡ false
    pub digest : is_hex 64 out.sha256 ≡ true

  size_allowed :
      (size : Number) (most : ℕ)
      → is_size_forbidden size most ≡ false
      → (n : ℕ) × (size ≡ whole n) × (1 ≤ n) × (n ≤ most)
  size_allowed (whole n) most h = (n, refl, ground arith, ground arith)
  size_allowed (negative n) most h = absurd (cc)
  size_allowed other most h = absurd (cc)

  office_checked :
      (mime_type name : List ℕ) (size : Number)
      → check_office lower mime_type name size ≡ ok tt
      → ((has_type office_entries mime_type && exceeds size office_source_max_bytes) ≡ false)
        × ((has_type office_entries mime_type
              && not (ends_with (extension_in office_entries mime_type) name))
            ≡ false)
  unfolding check_office
  office_checked mime_type name size h = elim (Bool-cases (has_type office_entries mime_type)) [
    | inl office ↦
        let h0 = rw office at h in
        let (small, h1) =
          >>-eq-ok (throw_if (exceeds size office_source_max_bytes) size_forbidden) _ h0 in
        let (own, done) =
          >>-eq-ok
            (throw_if (not (ends_with (extension_in office_entries mime_type) name))
              mime_extension_mismatch)
            _ h1 in
        rw office (
          throw_if-eq-ok (exceeds size office_source_max_bytes) _ small,
          throw_if-eq-ok (not (ends_with (extension_in office_entries mime_type) name)) _ own,
        )
    | inr plain ↦ rw plain (refl, refl)
  ]

  neither : (a b : Bool) → (not a || b) ≡ false → (a ≡ true) × (b ≡ false)
  neither a b h = ground arith

  given : (a : Bool) → not a ≡ false → a ≡ true
  given a h = ground arith

  -- Metadata that is let pass has a safe file name, a type that the policy allows, a size between 1
  -- and the policy's maximum, no extension of a format with macros, and the form of a digest; an
  -- office document has its own extension and is no larger than 50 MiB.
  pub validation_sound :
      (input : UploadMetadata) (policy : UploadPolicy) (out : UploadMetadata)
      → validate_upload_metadata lower input policy ≡ ok out
      → IsAccepted input policy out
  unfolding validate_upload_metadata
  validation_sound input policy out h =
      let file_name = trim_codes input.file_name in
      let mime_type = normalise lower input.mime_type in
      let sha256 = normalise lower input.sha256 in
      let dots = file_name == codes "." || file_name == codes ".." in
      let macro =
        any (λ extension. ends_with extension (lower file_name)) macro_office_extensions in
      let (named, h1) =
        >>-eq-ok (throw_if (not (is_safe_file_name file_name) || dots) file_name_invalid) _ h in
      let (allowed, h2) =
        >>-eq-ok (throw_if (not (includes policy.allowed_mime_types mime_type)) mime_type_forbidden)
          _ h1 in
      let (sized, h3) =
        >>-eq-ok (throw_if (is_size_forbidden input.byte_size policy.maximum_bytes) size_forbidden)
          _ h2 in
      let (no_macro, h4) = >>-eq-ok (throw_if macro macro_format_forbidden) _ h3 in
      let (office, h5) =
        >>-eq-ok (check_office lower mime_type (lower file_name) input.byte_size) _ h4 in
      let (digest, built) = >>-eq-ok (throw_if (not (is_hex 64 sha256)) sha256_invalid) _ h5 in
      let (safe, no_dots) =
        neither (is_safe_file_name file_name) dots
          (throw_if-eq-ok (not (is_safe_file_name file_name) || dots) _ named) in
      let (bytes, size, some_byte, within) =
        size_allowed input.byte_size policy.maximum_bytes
          (throw_if-eq-ok (is_size_forbidden input.byte_size policy.maximum_bytes) _ sized) in
      let (small, own) = office_checked mime_type (lower file_name) input.byte_size office in
      subst (IsAccepted input policy) (ok_injective built) (record {
        normal = refl;
        safe = safe;
        no_dots = no_dots;
        allowed =
            given (includes policy.allowed_mime_types mime_type)
              (throw_if-eq-ok (not (includes policy.allowed_mime_types mime_type)) _ allowed);
        bytes = bytes;
        sized = size;
        some_byte = some_byte;
        within = within;
        no_macro = throw_if-eq-ok macro _ no_macro;
        small_office = small;
        own_extension = own;
        digest = given (is_hex 64 sha256) (throw_if-eq-ok (not (is_hex 64 sha256)) _ digest);
      })

  same_size :
      (a b : Number) → (is_safe_integer a && is_safe_integer b && same_number a b) ≡ true → a ≡ b
  same_size (whole n) (whole m) h = ap whole (ground arith)
  same_size (whole n) (negative m) h = absurd (ground arith)
  same_size (whole n) other h = absurd (ground arith)
  same_size (negative n) (whole m) h = absurd (ground arith)
  same_size (negative n) (negative m) h = ap negative (ground arith)
  same_size (negative n) other h = absurd (ground arith)
  same_size other b h = absurd (ground arith)

  size_itself : (a : Number) → is_safe_integer a ≡ true → same_number a a ≡ true
  size_itself (whole n) h = ground arith
  size_itself (negative n) h = ground arith
  size_itself other h = absurd (cc)

  five :
      (a b c d e : Bool)
      → (a && b && c && (d && e)) ≡ true
      → (a ≡ true) × (c ≡ true) × (d ≡ true) × (e ≡ true)
  five a b c d e h = ground arith

  -- The stored bytes pass for those that were declared exactly when both digests, trimmed and in
  -- small letters, are the same 64 hexadecimal digits, and both sizes the same safe integer.
  pub stored_bytes_match_grant_iff :
      (expected actual : List ℕ) (expected_size actual_size : Number)
      → (stored_bytes_match_grant lower expected actual expected_size actual_size ≡ true) ↔ (
          (normalise lower expected ≡ normalise lower actual)
          × (expected_size ≡ actual_size)
          × (is_hex 64 (normalise lower expected) ≡ true)
          × (is_safe_integer expected_size ≡ true))
  unfolding stored_bytes_match_grant
  stored_bytes_match_grant_iff expected actual expected_size actual_size =
      let e = normalise lower expected in
      let a = normalise lower actual in
      (
        λ h.
            let (hex, safe, sized, same) =
              five (is_hex 64 e) (is_hex 64 a)
                (is_safe_integer expected_size && is_safe_integer actual_size)
                (same_number expected_size actual_size) (e == a) h in
            (
              (==_iff e a).0 same,
              same_size expected_size actual_size (ground (arith, safe, sized)),
              hex,
              ground (arith, safe),
            ),
        λ h.
            let (same, sized, hex, safe) = h in
            rw (sym same, sym sized, hex, safe, size_itself expected_size safe, (==_iff e e).1 refl)
              refl,
      )
