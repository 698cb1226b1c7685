-- ===== src/Errors/Hidden.antt =====
-- What the exception filter tells a client in production.
use onekey_balance_kit.Base.{
  true, false, ℕ, ◌≡◌, ◌⊎◌, refl, ap, ◌∙◌, Bool, Option, none, some, Text, text_beq, truthy,
  text_or, inl, inr, arith, Option-cases, find_if_sound, text_beq_iff,
}
use onekey_balance_kit.Errors.{
  masked, hidden, plain, other_value, ErrorCode, common_internal_error, common_bad_request,
  common_not_found, common_unauthorized, common_forbidden, common_validation_error,
  blockchain_invalid_address, blockchain_invalid_chain, blockchain_invalid_transaction,
  provider_auth_failed, provider_unavailable, provider_rate_limit, provider_not_supported,
  provider_request_failed, balance_fetch_failed, balance_parsing_error, balance_chain_not_supported,
  cache_set_failed, cache_get_failed, code_text, error_mappings, all_error_codes, public, find_code,
  get_error_details, object, Thrown, http_exception, error, application_exception,
}
use onekey_balance_kit.Errors.Filter.{
  ErrorResponse, Kind, kind_of, failure_of_kind, auth_failed, invalid_address, no_balance,
  unknown_chain, unknown_provider, unclassified, failure_of, unavailable, chain_unavailable,
  no_balance_now, exposed_message, respond, catch_exception,
}

-- The text of a code is read as the code.
pub find_code-code_text : (c : ErrorCode) → find_code (code_text c) ≡ some c
unfolding find_code
find_code-code_text common_internal_error = refl
find_code-code_text common_bad_request = refl
find_code-code_text common_not_found = refl
find_code-code_text common_unauthorized = refl
find_code-code_text common_forbidden = refl
find_code-code_text common_validation_error = refl
find_code-code_text blockchain_invalid_address = refl
find_code-code_text blockchain_invalid_chain = refl
find_code-code_text blockchain_invalid_transaction = refl
find_code-code_text provider_auth_failed = refl
find_code-code_text provider_unavailable = refl
find_code-code_text provider_rate_limit = refl
find_code-code_text provider_not_supported = refl
find_code-code_text provider_request_failed = refl
find_code-code_text balance_fetch_failed = refl
find_code-code_text balance_parsing_error = refl
find_code-code_text balance_chain_not_supported = refl
find_code-code_text cache_set_failed = refl
find_code-code_text cache_get_failed = refl

details-code_text : (c : ErrorCode) → get_error_details (code_text c) ≡ error_mappings c
unfolding get_error_details
details-code_text c = rw (get_error_details, find_code-code_text c) refl

-- The three texts that stand for what is not shown.
abbrev pub IsGeneric : Text → Type 0
IsGeneric m = (m ≡ unavailable) ⊎ (m ≡ chain_unavailable) ⊎ (m ≡ no_balance_now)

abbrev pub is_public : ErrorCode → Bool
is_public c = elim (error_mappings c).exposure_level [
  | public ↦ true
  | masked ↦ false
  | hidden ↦ false
]

-- A message is kept for a public code, and gives way to a generic text for any other.
abbrev pub IsExposed : ErrorCode → (own shown : Text) → Type 0
IsExposed c own shown =
    ((is_public c ≡ true) × (shown ≡ own)) ⊎ ((is_public c ≡ false) × IsGeneric shown)

IsExposed-code :
    (c : ErrorCode) (m : Text)
    → IsExposed c m (exposed_message (error_mappings c).exposure_level (code_text c) m)
IsExposed-code common_internal_error m = inr (refl, inl refl)
IsExposed-code common_bad_request m = inl (refl, refl)
IsExposed-code common_not_found m = inl (refl, refl)
IsExposed-code common_unauthorized m = inl (refl, refl)
IsExposed-code common_forbidden m = inl (refl, refl)
IsExposed-code common_validation_error m = inl (refl, refl)
IsExposed-code blockchain_invalid_address m = inl (refl, refl)
IsExposed-code blockchain_invalid_chain m = inl (refl, refl)
IsExposed-code blockchain_invalid_transaction m = inl (refl, refl)
IsExposed-code provider_auth_failed m = inr (refl, inr (inl refl))
IsExposed-code provider_unavailable m = inr (refl, inr (inl refl))
IsExposed-code provider_rate_limit m = inr (refl, inr (inl refl))
IsExposed-code provider_not_supported m = inr (refl, inr (inl refl))
IsExposed-code provider_request_failed m = inr (refl, inr (inl refl))
IsExposed-code balance_fetch_failed m = inr (refl, inr (inr refl))
IsExposed-code balance_parsing_error m = inr (refl, inl refl)
IsExposed-code balance_chain_not_supported m = inl (refl, refl)
IsExposed-code cache_set_failed m = inr (refl, inl refl)
IsExposed-code cache_get_failed m = inr (refl, inl refl)

find_code_sound : (text : Text) (c : ErrorCode) → find_code text ≡ some c → code_text c ≡ text
unfolding find_code
find_code_sound text c e =
    (text_beq_iff (code_text c) text).0
      (find_if_sound (λ d. text_beq (code_text d) text) all_error_codes c e)

-- What an exception of a code says of itself: an HTTP exception its own message, and any other the
-- message of the code.
abbrev pub own_message : Thrown → ErrorCode → Text
own_message (http_exception status (object message code details) text) c = text_or message text
own_message (http_exception status plain text) c = text
own_message (error m) c = (error_mappings c).message
own_message other_value c = (error_mappings c).message

-- A failure has the message of its code, where its code is public.
abbrev HasMessage : Thrown → Type 0
HasMessage thrown =
    (c : ErrorCode)
    → find_code (failure_of thrown).error_code ≡ some c
    → is_public c ≡ true
    → (failure_of thrown).message ≡ own_message thrown c

kind_message :
    (k : Kind) (m : Text) (c : ErrorCode)
    → find_code (failure_of_kind k m).error_code ≡ some c
    → is_public c ≡ true
    → (failure_of_kind k m).message ≡ (error_mappings c).message
unfolding find_code get_error_details
kind_message auth_failed m c e open_ =
    let is : provider_auth_failed ≡ c = ground (arith, e) in
    absurd (ground (arith, rw (← is) at open_))
kind_message invalid_address m c e open_ =
    let is : blockchain_invalid_address ≡ c = ground (arith, e) in
    ap (λ d. (error_mappings d).message) is
kind_message no_balance m c e open_ =
    let is : balance_fetch_failed ≡ c = ground (arith, e) in
    absurd (ground (arith, rw (← is) at open_))
kind_message unknown_chain m c e open_ =
    let is : blockchain_invalid_chain ≡ c = ground (arith, e) in
    ap (λ d. (error_mappings d).message) is
kind_message unknown_provider m c e open_ =
    let is : provider_not_supported ≡ c = ground (arith, e) in
    absurd (ground (arith, rw (← is) at open_))
kind_message unclassified m c e open_ =
    let is : common_internal_error ≡ c = ground (arith, e) in
    absurd (ground (arith, rw (← is) at open_))

failure_message : (thrown : Thrown) → HasMessage thrown
unfolding failure_of find_code
failure_message (http_exception status (object message code details) text) c e open_ = refl
failure_message (http_exception status plain text) c e open_ = refl
failure_message (error m) c e open_ = kind_message (kind_of m) m c e open_
failure_message other_value c e open_ =
    let is : common_internal_error ≡ c = ground (arith, e) in
    absurd (ground (arith, rw (← is) at open_))

-- In production: what the code of a response, a text, lets through of the exception's message.
abbrev pub IsHidden : Thrown → ErrorResponse → Type 0
IsHidden thrown r =
    ((find_code r.error_code ≡ none) × (r.message ≡ unavailable))
    ⊎ ((c : ErrorCode) × (find_code r.error_code ≡ some c)
        × IsExposed c (own_message thrown c) r.message)

-- In production the response to any exception has no details. Where its code is an error code that is
-- marked as public, its message is that of the exception, which for an error that is no HTTP
-- exception is the one of the code; for an error code of another level it is one of three generic
-- texts, and without an error code the service is said to be unavailable.
pub catch_exception_cases :
    (timestamp path : Text) (thrown : Thrown)
    → let r = catch_exception true timestamp path thrown in (r.details ≡ none) × IsHidden thrown r
unfolding catch_exception get_error_details
catch_exception_cases timestamp path thrown =
    let code = (failure_of thrown).error_code in
    let m = (failure_of thrown).message in
    (
      refl,
      elim (Option-cases (find_code code)) [
        | inl unknown ↦ inl (unknown, rw (get_error_details, unknown) refl)
        | inr (c, known) ↦ inr (
          c,
          known,
          rw (get_error_details, known, ← find_code_sound code c known)
              (elim (IsExposed-code c m) [
                | inl (open_, same) ↦ inl (open_, same ∙ failure_message thrown c known open_)
                | inr (closed, generic) ↦ inr (closed, generic)
              ]),
        )
      ],
    )

kind_hidden :
    (k : Kind) (timestamp path m n : Text)
    → respond true timestamp path (failure_of_kind k m)
      ≡ respond true timestamp path (failure_of_kind k n)
unfolding get_error_details find_code
kind_hidden auth_failed timestamp path m n = refl
kind_hidden invalid_address timestamp path m n = refl
kind_hidden no_balance timestamp path m n = refl
kind_hidden unknown_chain timestamp path m n = refl
kind_hidden unknown_provider timestamp path m n = refl
kind_hidden unclassified timestamp path m n = refl

-- In production two errors that are no HTTP exceptions get the same response, whatever their messages
-- say, if the filter takes them for the same kind.
pub catch_exception-error :
    (timestamp path m n : Text)
    → kind_of m ≡ kind_of n
    → catch_exception true timestamp path (error m) ≡ catch_exception true timestamp path (error n)
unfolding catch_exception failure_of
catch_exception-error timestamp path m n e =
    kind_hidden (kind_of m) timestamp path m n
    ∙ ap (λ k. respond true timestamp path (failure_of_kind k n)) e

-- An HTTP exception whose response is an object with an error text that is no error code, as those of the
-- framework are, keeps its status, but its message is withheld in production.
pub catch_exception-foreign :
    (timestamp path text code : Text) (status : ℕ) (message details : Option Text)
    → truthy code ≡ true
    → find_code code ≡ none
    → let r =
        catch_exception true timestamp path
          (http_exception status (object message (some code) details) text) in
      (r.status_code ≡ status) × (r.message ≡ unavailable)
unfolding catch_exception failure_of get_error_details
catch_exception-foreign timestamp path text code status message details full unknown =
    (refl, rw (full, get_error_details, unknown) refl)

code_kept : (c : ErrorCode) (d : Text) → text_or (some (code_text c)) d ≡ code_text c
code_kept c d = ground arith

same_text : (m : Text) → text_or (some m) m ≡ m
same_text m = ground arith

-- The response to an application exception has the status and the text of its error code, in production
-- and elsewhere. The message is the given one, or else that of the code, outside of production and for
-- a public code; in production it is a generic text for any other code.
pub catch_exception-application_exception :
    (production : Bool) (timestamp path : Text) (c : ErrorCode) (details custom : Option Text)
    → let r =
        catch_exception production timestamp path
          (application_exception production c details custom) in
      let own = text_or custom (error_mappings c).message in
      (r.status_code ≡ (error_mappings c).http_status)
      × (r.error_code ≡ code_text c)
      × (((production ≡ false) × (r.message ≡ own))
          ⊎ ((production ≡ true) × IsExposed c own r.message))
unfolding catch_exception failure_of application_exception
catch_exception-application_exception true timestamp path c details custom =
    let m = text_or custom (error_mappings c).message in
    (
      refl,
      code_kept c _,
      inr (refl, rw (code_kept c _, same_text m, details-code_text c) (IsExposed-code c m)),
    )
catch_exception-application_exception false timestamp path c details custom =
    (refl, code_kept c _, inl (refl, same_text (text_or custom (error_mappings c).message)))
