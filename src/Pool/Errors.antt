-- ===== src/Pool/Errors.antt =====
-- scripts/forcing_pool_queue.py: `classify_error` and `_retry_after`.
use backend_wrf.Base.{
  ℕ, ◌*◌, string_eq, ℕ_eq, String, Bool, true, false, ◌||◌, any, leb, nat_eq, List, [], ◌∷◌,
  if◌then◌else◌,
}
use backend_wrf.Text.{codes, contains_text, to_lower}

-- `str.lower` as far as it can bring an ASCII character about: U+0130 becomes `i` and a mark,
-- U+212A becomes `k`; every other character beyond ASCII stays beyond it, and the tokens are ASCII.
unfoldable pub lower : List ℕ → List ℕ
lower [] = []
lower (c ∷ s) =
    let rest = lower s in
    if nat_eq c 304
    then b'i' ∷ 775 ∷ rest
    else if nat_eq c 8490
    then b'k' ∷ rest
    else to_lower c ∷ rest

-- `any(token in value for token in tokens)`
unfoldable pub names_any : List String → List ℕ → Bool
names_any tokens value = any (λ t. contains_text value (codes t)) tokens

abbrev pub runtime_tokens : List String
runtime_tokens =
    "syntaxerror" ∷ "future feature" ∷ "module not found" ∷ "not executable" ∷ "command not found"
    ∷ "no such file" ∷ []

abbrev pub storage_tokens : List String
storage_tokens = "permission denied" ∷ "read-only" ∷ "no space left" ∷ "storage" ∷ "mount" ∷ []

abbrev pub data_tokens : List String
data_tokens = "grib" ∷ "checksum" ∷ "invalid" ∷ "corrupt" ∷ "7777" ∷ []

abbrev pub network_tokens : List String
network_tokens =
    "could not resolve" ∷ "temporary failure" ∷ "timed out" ∷ "timeout" ∷ "connection reset"
    ∷ "connection refused" ∷ "connection closed" ∷ []

-- `f"curl: ({code})"` for the codes of `TRANSIENT_CURL_ERRORS`
abbrev pub transient_curl_errors : List String
transient_curl_errors =
    "curl: (6)" ∷ "curl: (7)" ∷ "curl: (18)" ∷ "curl: (28)" ∷ "curl: (35)" ∷ "curl: (52)"
    ∷ "curl: (56)" ∷ []

-- `RETRYABLE_HTTP`
abbrev pub retryable_http : List ℕ
retryable_http = 408 ∷ 425 ∷ 429 ∷ 500 ∷ 502 ∷ 503 ∷ 504 ∷ []

unfoldable pub classify_error : ℕ → String → String × Bool
classify_error status error =
    let value = lower (codes error) in
    if names_any runtime_tokens value
    then ("runtime_compatibility", false)
    else if names_any storage_tokens value
    then ("storage", false)
    else if names_any data_tokens value
    then ("data_integrity", false)
    else if nat_eq status 0 || names_any network_tokens value
    then ("network", true)
    else if any (nat_eq status) retryable_http || names_any transient_curl_errors value
    then ("upstream_temporary", true)
    else if leb 400 status
    then ("upstream_permanent", false)
    else ("unknown", false)

-- the `Retry-After` header: the seconds it names or that are left until its date (0 if it is past),
-- or none that can be read
pub data RetryAfter : Type 0 where
  seconds : ℕ → RetryAfter
  no_seconds : RetryAfter

abbrev pub min : ℕ → ℕ → ℕ
min a b = if leb a b then a else b

abbrev pub max : ℕ → ℕ → ℕ
max a b = if leb a b then b else a

unfoldable pub retry_after : RetryAfter → ℕ → ℕ → ℕ
retry_after (seconds n) attempts maximum = min maximum (max 1 n)
retry_after no_seconds attempts maximum = min maximum (45 * (max 1 attempts * max 1 attempts))
