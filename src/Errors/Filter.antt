-- ===== src/Errors/Filter.antt =====
-- common/filters/http-exception.filter.ts: the answer that an exception is given. The time and the path are
-- arguments; the log is left out.
use onekey_balance_kit.Base.{
  non_empty, ℕ, Bool, ◌&&◌, ◌||◌, Option, none, some, [], ◌∷◌, Text, codes, includes, starts_with,
  length, drop, text_or, if◌then◌else◌,
}
use onekey_balance_kit.Errors.{
  ErrorCode, common_internal_error, blockchain_invalid_address, blockchain_invalid_chain,
  provider_auth_failed, provider_not_supported, balance_fetch_failed, code_text, ExposureLevel,
  public, masked, hidden, get_error_code_from_status, get_error_details, object, plain, Thrown,
  http_exception, error, other_value,
}
use onekey_balance_kit.Webhook.Signature.{trim_start, trim_end}

-- `s.split(d)[1]`, the text between the first and the second occurrence of `d`, which is not empty.
abbrev pub until : Text → Text → Text
until d [] = []
until d (c ∷ s) = if starts_with (c ∷ s) d then [] else c ∷ until d s

abbrev pub second_part : Text → Text → Option Text
second_part d [] = none
second_part d (c ∷ s) =
    if starts_with (c ∷ s) d then some (until d (drop (length d) (c ∷ s))) else second_part d s

abbrev pub trimmed : Option Text → Option Text
trimmed none = none
trimmed (some s) = some (trim_end (trim_start s))

-- The status, the code, the message and the details of an exception.
pub record Failure : Type 0 where
  pub status : ℕ
  pub error_code : Text
  pub message : Text
  pub details : Option Text

-- The kinds of errors that the filter tells apart by their message.
pub data Kind : Type 0 where
  auth_failed invalid_address no_balance unknown_chain unknown_provider unclassified : Kind

unfoldable pub kind_of : Text → Kind
kind_of m =
    if includes m (codes "401 Unauthorized") || includes m (codes "Must be authenticated")
    then auth_failed
    else if includes m (codes "Invalid") && includes m (codes "address")
    then invalid_address
    else if includes m (codes "無法獲取餘額")
    then no_balance
    else if includes m (codes "Chain") && includes m (codes "not supported")
    then unknown_chain
    else if includes m (codes "沒有找到區塊鏈類型")
    then unknown_provider
    else unclassified

abbrev pub coded : ℕ → ErrorCode → Option Text → Failure
coded status code details = record {
  status = status;
  error_code = code_text code;
  message = (get_error_details (code_text code)).message;
  details = details;
}

abbrev pub failure_of_kind : Kind → Text → Failure
failure_of_kind auth_failed m = coded 401 provider_auth_failed (some (codes "請確認API金鑰是否正確設置"))
failure_of_kind invalid_address m = coded 400 blockchain_invalid_address none
failure_of_kind no_balance m =
    coded 503 balance_fetch_failed (non_empty (trimmed (second_part (codes "無法獲取餘額:") m)))
failure_of_kind unknown_chain m = coded 400 blockchain_invalid_chain none
failure_of_kind unknown_provider m = coded 501 provider_not_supported (some m)
failure_of_kind unclassified m = record {
  status = 500;
  error_code = code_text common_internal_error;
  message = m;
  details = none;
}

unfoldable pub failure_of : Thrown → Failure
unfolding kind_of
failure_of (http_exception status (object message code details) text) = record {
  status = status;
  error_code = text_or code (code_text (get_error_code_from_status status));
  message = text_or message text;
  details = non_empty details;
}
failure_of (http_exception status plain text) = record {
  status = status;
  error_code = code_text (get_error_code_from_status status);
  message = text;
  details = none;
}
failure_of (error m) = failure_of_kind (kind_of m) m
failure_of other_value = record {
  status = 500;
  error_code = code_text common_internal_error;
  message = codes "伺服器發生錯誤";
  details = none;
}

pub record ErrorResponse : Type 0 where
  pub status_code : ℕ
  pub error_code : Text
  pub message : Text
  pub timestamp : Text
  pub path : Text
  pub details : Option Text

abbrev pub unavailable : Text
unavailable = codes "服務暫時不可用，請稍後再試"

abbrev pub chain_unavailable : Text
chain_unavailable = codes "區塊鏈服務暫時不可用"

abbrev pub no_balance_now : Text
no_balance_now = codes "無法獲取餘額資訊，請稍後再試"

-- The message in production.
abbrev pub exposed_message : ExposureLevel → Text → Text → Text
exposed_message hidden code m = unavailable
exposed_message masked code m =
    if starts_with code (codes "PROVIDER_")
    then chain_unavailable
    else if starts_with code (codes "BALANCE_")
    then no_balance_now
    else m
exposed_message public code m = m

-- The response to a failure.
abbrev pub respond : Bool → Text → Text → Failure → ErrorResponse
respond production timestamp path f = record {
  status_code = f.status;
  error_code = f.error_code;
  message =
      if production
      then exposed_message (get_error_details f.error_code).exposure_level f.error_code f.message
      else f.message;
  timestamp = timestamp;
  path = path;
  details = if production then none else f.details;
}

unfoldable pub catch_exception : Bool → Text → Text → Thrown → ErrorResponse
unfolding failure_of get_error_details
catch_exception production timestamp path thrown =
    respond production timestamp path (failure_of thrown)
