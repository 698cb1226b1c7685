-- ===== src/Errors.antt =====
-- common/constants/error-codes.ts and common/exceptions/application.exception.ts: the error codes, what
-- they stand for, and the exceptions that carry them. The texts that every JavaScript object has as
-- keys (`constructor` and the like) are not taken for error codes.
pub mod Filter
pub mod Hidden
pub mod Tests
use onekey_balance_kit.Base.{
  non_empty, ℕ, ◌≡◌, refl, Bool, true, false, Option, none, some, List, [], ◌∷◌, Text, codes,
  find_if, text_beq, truthy, nat_beq, text_or, if◌then◌else◌,
}

pub data ErrorCode : Type 0 where
  common_internal_error common_bad_request common_not_found : ErrorCode
  common_unauthorized common_forbidden common_validation_error : ErrorCode
  blockchain_invalid_address blockchain_invalid_chain blockchain_invalid_transaction : ErrorCode
  provider_auth_failed provider_unavailable provider_rate_limit : ErrorCode
  provider_not_supported provider_request_failed : ErrorCode
  balance_fetch_failed balance_parsing_error balance_chain_not_supported : ErrorCode
  cache_set_failed cache_get_failed : ErrorCode

abbrev pub code_text : ErrorCode → Text
code_text common_internal_error = codes "COMMON_INTERNAL_ERROR"
code_text common_bad_request = codes "COMMON_BAD_REQUEST"
code_text common_not_found = codes "COMMON_NOT_FOUND"
code_text common_unauthorized = codes "COMMON_UNAUTHORIZED"
code_text common_forbidden = codes "COMMON_FORBIDDEN"
code_text common_validation_error = codes "COMMON_VALIDATION_ERROR"
code_text blockchain_invalid_address = codes "BLOCKCHAIN_INVALID_ADDRESS"
code_text blockchain_invalid_chain = codes "BLOCKCHAIN_INVALID_CHAIN"
code_text blockchain_invalid_transaction = codes "BLOCKCHAIN_INVALID_TRANSACTION"
code_text provider_auth_failed = codes "PROVIDER_AUTH_FAILED"
code_text provider_unavailable = codes "PROVIDER_UNAVAILABLE"
code_text provider_rate_limit = codes "PROVIDER_RATE_LIMIT"
code_text provider_not_supported = codes "PROVIDER_NOT_SUPPORTED"
code_text provider_request_failed = codes "PROVIDER_REQUEST_FAILED"
code_text balance_fetch_failed = codes "BALANCE_FETCH_FAILED"
code_text balance_parsing_error = codes "BALANCE_PARSING_ERROR"
code_text balance_chain_not_supported = codes "BALANCE_CHAIN_NOT_SUPPORTED"
code_text cache_set_failed = codes "CACHE_SET_FAILED"
code_text cache_get_failed = codes "CACHE_GET_FAILED"

-- The keys of `ERROR_MAPPINGS`, in its order.
abbrev pub all_error_codes : List ErrorCode
all_error_codes =
    common_internal_error ∷ common_bad_request ∷ common_not_found ∷ common_unauthorized
    ∷ common_forbidden ∷ common_validation_error ∷ blockchain_invalid_address
    ∷ blockchain_invalid_chain ∷ blockchain_invalid_transaction ∷ provider_auth_failed
    ∷ provider_unavailable ∷ provider_rate_limit ∷ provider_not_supported ∷ provider_request_failed
    ∷ balance_fetch_failed ∷ balance_parsing_error ∷ balance_chain_not_supported ∷ cache_set_failed
    ∷ cache_get_failed ∷ []

pub data ExposureLevel : Type 0 where
  public masked hidden : ExposureLevel

pub record ErrorDetails : Type 0 where
  pub http_status : ℕ
  pub message : Text
  pub exposure_level : ExposureLevel

abbrev pub error_details : ℕ → Text → ExposureLevel → ErrorDetails
error_details status message level = record {
  http_status = status;
  message = message;
  exposure_level = level;
}

-- `ERROR_MAPPINGS`.
abbrev pub error_mappings : ErrorCode → ErrorDetails
error_mappings common_internal_error = error_details 500 (codes "伺服器發生錯誤") hidden
error_mappings common_bad_request = error_details 400 (codes "無效的請求") public
error_mappings common_not_found = error_details 404 (codes "找不到請求的資源") public
error_mappings common_unauthorized = error_details 401 (codes "未授權的訪問") public
error_mappings common_forbidden = error_details 403 (codes "禁止訪問該資源") public
error_mappings common_validation_error = error_details 400 (codes "請求參數驗證失敗") public
error_mappings blockchain_invalid_address = error_details 400 (codes "無效的區塊鏈地址") public
error_mappings blockchain_invalid_chain = error_details 400 (codes "無效的區塊鏈類型") public
error_mappings blockchain_invalid_transaction = error_details 400 (codes "無效的交易資訊") public
error_mappings provider_auth_failed = error_details 401 (codes "提供者API認證失敗") masked
error_mappings provider_unavailable = error_details 503 (codes "區塊鏈提供者服務不可用") masked
error_mappings provider_rate_limit = error_details 429 (codes "超過提供者API請求限制") masked
error_mappings provider_not_supported = error_details 501 (codes "不支援的區塊鏈提供者") masked
error_mappings provider_request_failed = error_details 502 (codes "提供者API請求失敗") masked
error_mappings balance_fetch_failed = error_details 503 (codes "無法獲取區塊鏈餘額") masked
error_mappings balance_parsing_error = error_details 500 (codes "餘額資料解析錯誤") hidden
error_mappings balance_chain_not_supported = error_details 400 (codes "該區塊鏈不支援餘額查詢") public
error_mappings cache_set_failed = error_details 500 (codes "設置快取失敗") hidden
error_mappings cache_get_failed = error_details 500 (codes "獲取快取失敗") hidden

-- `switch` on a status.
unfoldable pub get_error_code_from_status : ℕ → ErrorCode
get_error_code_from_status status =
    if nat_beq status 400
    then common_bad_request
    else if nat_beq status 401
    then common_unauthorized
    else if nat_beq status 403
    then common_forbidden
    else if nat_beq status 404
    then common_not_found
    else common_internal_error

unfoldable pub find_code : Text → Option ErrorCode
find_code text = find_if (λ c. text_beq (code_text c) text) all_error_codes

-- `getErrorDetails`, of a text that may be no error code.
unfoldable pub get_error_details : Text → ErrorDetails
unfolding find_code
get_error_details text = elim (find_code text) [
  | none ↦ error_mappings common_internal_error
  | some code ↦ error_mappings code
]

-- The response of an HTTP exception: an object, by the fields that are read of it, or a text. A message
-- that is a list of messages stands for itself.
pub data HttpResponse : Type 0 where
  object : (message error details : Option Text) → HttpResponse
  plain : HttpResponse

-- What may be thrown: an HTTP exception, another error, or a value that is no error.
pub data Thrown : Type 0 where
  http_exception : (status : ℕ) (response : HttpResponse) (message : Text) → Thrown
  error : (message : Text) → Thrown
  other_value : Thrown

-- The constructor of `ApplicationException`; `super` takes the text of a response for the message of
-- the error.
unfoldable pub application_exception : Bool → ErrorCode → Option Text → Option Text → Thrown
application_exception production code details custom_message =
    let text = text_or custom_message (error_mappings code).message in
    http_exception (error_mappings code).http_status
      (object (some text) (some (code_text code)) (if production then none else non_empty details))
      text
