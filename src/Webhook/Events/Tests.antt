-- ===== src/Webhook/Events/Tests.antt =====
-- The theorems on webhook/webhook.service.ts, webhook/webhook.controller.ts and
-- webhook/utils/signature-validator.ts at examples; every digest is 64 zeros.
use onekey_balance_kit.Chains.Alchemy.{get_chain_name_from_network_id}
use onekey_balance_kit.Base.{
  set, get, ℕ, zero, suc, ◌≡◌, ◌≢◌, ◌⊎◌, ◌↔◌, refl, true, some, [], ◌∷◌, ◌++◌, Text, codes, All,
}
use onekey_balance_kit.Cache.{returned}
use onekey_balance_kit.Chains.{get_chain_id_from_network_id, network_id_to_chain_map, ethereum}
use onekey_balance_kit.Webhook.Tests.{account, store, config, idle}
use onekey_balance_kit.Webhook.Signature.{remote_signature, validate_alchemy_signature}
use onekey_balance_kit.Webhook.Signature.Digest.{IsDigit, IsDigest, validate_alchemy_signature_iff}
use onekey_balance_kit.Webhook.Events.Notified.{notified, touched, notified-handle_event}
use onekey_balance_kit.Webhook.Events.Accepted.{IsSigned, handle_webhook_cases}
use onekey_balance_kit.Webhook.Events.{
  resolve_network, Payload, address_activity, Delivery, process_webhook_event, success,
  handle_event, handle_webhook,
}

abbrev zeros : ℕ → Text
zeros zero = []
zeros (suc n) = b'0' ∷ zeros n

zeros-All : (n : ℕ) → All IsDigit (zeros n)
zeros-All zero = tt
zeros-All (suc n) = (refl, zeros-All n)

abbrev hmac : Text → Text → Text
hmac key raw = zeros 64

hmac-IsDigest : IsDigest (hmac (codes "key") (codes "body"))
hmac-IsDigest = record { digits = zeros-All 64; long = refl }

abbrev header : Text
header = codes "sha256=" ++ zeros 64

validate_alchemy_signature_iff_example :
    (validate_alchemy_signature hmac header (some (codes "body")) (codes "key") ≡ returned true)
    ↔ (remote_signature header ≡ hmac (codes "key") (codes "body"))
validate_alchemy_signature_iff_example =
    validate_alchemy_signature_iff hmac header (codes "body") (codes "key") refl refl hmac-IsDigest

abbrev transfer : Payload ℕ
transfer =
    address_activity (codes "ETH_MAINNET")
      (record { hash = codes "h"; from_address = codes "0xa"; to_address = [] } ∷ [])

abbrev nothing : Delivery ℕ
nothing = record { saved = []; emitted = [] }

touched_run : touched transfer ≡ (ethereum, 1, codes "0xa") ∷ []
unfolding resolve_network get_chain_name_from_network_id get network_id_to_chain_map set
    get_chain_id_from_network_id
touched_run = refl

notified-handle_event_example :
    notified (handle_event transfer []) ≡ notified {D = ℕ} [] ++ touched transfer
notified-handle_event_example = notified-handle_event transfer []

handle_webhook_cases_example :
    let (answer, (_, delivery')) =
      handle_webhook account store config hmac header
        (some (codes "body"))
        5
        6
        true
        transfer
        (idle, nothing) in
    (IsSigned account store config hmac header (some (codes "body")) 5 6 transfer idle
      × (delivery' ≡ (process_webhook_event true transfer nothing).1))
    ⊎ ((answer ≢ success) × (delivery' ≡ nothing))
handle_webhook_cases_example =
    handle_webhook_cases account store config hmac header (some (codes "body")) 5 6 true transfer
      idle nothing
