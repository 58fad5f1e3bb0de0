-- ===== src/Model/Names.antt =====
-- Identifier and DNS-name validation of `internal/dkim2model/values.go`.
pub mod Canonical
pub mod Keys
pub mod Owner
pub mod Labels
pub mod Grammar
use opendkim_manage_go.Prelude.{
  ℕ, ◌+◌, ◌-◌, Bool, true, false, not, ◌&&◌, ◌||◌, List, [], ◌∷◌, ◌++◌, map, Text, codes, length,
  is_empty, head_or, last_or, all, Result, ok, err, fail_if, is_err, ◌>>=◌, ◌>>◌, ltb, leb, ◌==◌,
  ◌!=◌, nat_eq, text_eq, if◌then◌else◌,
}
use opendkim_manage_go.Model.Error.{Error, invalid}

abbrev pub max_identifier_bytes : ℕ
max_identifier_bytes = 128

-- `identifierEdge`
unfoldable pub identifier_edge : ℕ → Bool
identifier_edge value = leb b'a' value && leb value b'z' || leb b'0' value && leb value b'9'

-- `dnsEdge`
unfoldable pub dns_edge : ℕ → Bool
dns_edge value =
    leb b'a' value && leb value b'z'
    || (leb b'A' value && leb value b'Z' || leb b'0' value && leb value b'9')

-- A byte that the loop of `ValidateIdentifier` lets pass.
unfoldable pub identifier_byte : ℕ → Bool
unfolding identifier_edge
identifier_byte c = identifier_edge c || (c == b'.' || (c == b'_' || c == b'-'))

abbrev pub tail_list {ℓ} : {A : Type ℓ} → List A → List A
tail_list [] = []
tail_list (_ ∷ rest) = rest

-- `ValidateIdentifier`
unfoldable pub validate_identifier : Text → Result Error (Unit {0})
unfolding identifier_byte identifier_edge all
validate_identifier value = do
  fail_if
      (length value == 0
        || (ltb max_identifier_bytes (length value) || not (identifier_edge (head_or 0 value))))
      invalid
  fail_if (not (all identifier_byte (tail_list value))) invalid

-- `strings.Split(value, sep)` at a separator of one byte.
unfoldable pub split_on : ℕ → Text → List Text
split_on sep [] = [] ∷ []
split_on sep (c ∷ rest) =
    let parts = split_on sep rest in
    if c == sep then [] ∷ parts else (c ∷ head_or [] parts) ∷ tail_list parts

-- `strings.Count(value, sep)` at a separator of one byte.
unfoldable pub count_byte : ℕ → Text → ℕ
count_byte sep [] = 0
count_byte sep (c ∷ rest) = let n = count_byte sep rest in if c == sep then n + 1 else n

-- One byte of `strings.ToLower` on ASCII text.
unfoldable pub lower : ℕ → ℕ
lower c = if leb b'A' c && leb c b'Z' then c + 32 else c

-- The bytes at the indices from 1 up to, not including, the last.
unfoldable pub drop_last : Text → Text
drop_last [] = []
drop_last (c ∷ []) = []
drop_last (c ∷ d ∷ rest) = c ∷ drop_last (d ∷ rest)

-- The body of the loop over the labels in `canonicalDNSName`.
unfoldable pub valid_label : Text → Bool
unfolding dns_edge all drop_last
valid_label label =
    not (
      length label == 0
      || (ltb 63 (length label)
          || (not (dns_edge (head_or 0 label)) || not (dns_edge (last_or 0 label)))))
    && all (λ c. dns_edge c || c == b'-') (drop_last (tail_list label))

-- `canonicalDNSName`
unfoldable pub canonical_dns_name : Text → Result Error Text
unfolding split_on valid_label lower all
canonical_dns_name value = do
  fail_if (is_empty value || ltb 253 (length value)) invalid
  let labels = split_on b'.' value
  fail_if (length labels == 0 || ltb 127 (length labels)) invalid
  fail_if (not (all valid_label labels)) invalid
  ok (map lower value)

-- `err != nil || canonical != value`
unfoldable pub is_canonical : Result Error Text → Text → Bool
is_canonical (err _) value = false
is_canonical (ok canonical) value = canonical == value

-- `ValidateCanonicalDNSName`
unfoldable pub validate_canonical_dns_name : Text → Result Error (Unit {0})
unfolding canonical_dns_name is_canonical
validate_canonical_dns_name value =
    fail_if (not (is_canonical (canonical_dns_name value) value)) invalid

-- `selector + "._domainkey." + domain`
abbrev pub presentation : Text → Text → Text
presentation domain selector = selector ++ (codes "._domainkey." ++ domain)

-- `ValidateDomainSelector`
unfoldable pub validate_domain_selector : Text → Text → Result Error (Unit {0})
unfolding validate_canonical_dns_name count_byte
validate_domain_selector domain selector = do
  fail_if
      (is_err (validate_canonical_dns_name domain) || is_err (validate_canonical_dns_name selector))
      invalid
  fail_if (ltb 253 (length (presentation domain selector))) invalid
  let selector_labels = count_byte b'.' selector + 1
  let domain_labels = count_byte b'.' domain + 1
  fail_if (ltb 127 (selector_labels + domain_labels + 1)) invalid
