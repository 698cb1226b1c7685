-- ===== src/Errors/Tests.antt =====
-- The theorems on the exception filter at examples.
use onekey_balance_kit.Base.{false, ◌≡◌, ◌⊎◌, refl, true, none, some, codes, text_or}
use onekey_balance_kit.Errors.Filter.{kind_of, catch_exception, unavailable}
use onekey_balance_kit.Errors.Hidden.{
  IsHidden, IsExposed, catch_exception_cases, catch_exception-error, catch_exception-foreign,
  catch_exception-application_exception,
}
use onekey_balance_kit.Errors.{
  find_code, cache_get_failed, code_text, error_mappings, object, http_exception, error,
  application_exception,
}

catch_exception_cases_example :
    let r = catch_exception true (codes "t") (codes "/p") (error (codes "Invalid address: 0x")) in
    (r.details ≡ none) × IsHidden (error (codes "Invalid address: 0x")) r
catch_exception_cases_example =
    catch_exception_cases (codes "t") (codes "/p") (error (codes "Invalid address: 0x"))

catch_exception-error_example :
    catch_exception true (codes "t") (codes "/p") (error (codes "key abc refused"))
    ≡ catch_exception true (codes "t") (codes "/p") (error (codes "disk full"))
unfolding kind_of
catch_exception-error_example =
    catch_exception-error (codes "t") (codes "/p") (codes "key abc refused") (codes "disk full")
      refl

catch_exception-foreign_example :
    let r = catch_exception true (codes "t") (codes "/p") (
      http_exception 404
        (object (some (codes "Chain x not supported")) (some (codes "Not Found")) none)
        (codes "Chain x not supported")) in
    (r.status_code ≡ 404) × (r.message ≡ unavailable)
unfolding find_code
catch_exception-foreign_example =
    catch_exception-foreign (codes "t") (codes "/p") (codes "Chain x not supported")
      (codes "Not Found") 404 (some (codes "Chain x not supported")) none refl refl

catch_exception-application_exception_example :
    let r =
      catch_exception true
        (codes "t")
        (codes "/p")
        (application_exception true cache_get_failed (some (codes "d")) none) in
    let own = text_or none (error_mappings cache_get_failed).message in
    (r.status_code ≡ 500)
    × (r.error_code ≡ code_text cache_get_failed)
    × (((true ≡ false) × (r.message ≡ own))
        ⊎ ((true ≡ true) × IsExposed cache_get_failed own r.message))
catch_exception-application_exception_example =
    catch_exception-application_exception true (codes "t") (codes "/p") cache_get_failed
      (some (codes "d")) none
