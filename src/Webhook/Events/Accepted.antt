-- ===== src/Webhook/Events/Accepted.antt =====
-- Which deliveries webhook/webhook.controller.ts accepts.
use onekey_balance_kit.Base.{
  ℕ, ◌≡◌, ◌≢◌, ◌⊎◌, refl, Bool, true, false, Option, none, some, Text, truthy, Bool-cases,
  Option-cases, inl, inr,
}
use onekey_balance_kit.Cache.{returned, Manager, Reply-cases}
use onekey_balance_kit.Chains.{ChainName}
use onekey_balance_kit.Webhook.Account.{Config, External, Service}
use onekey_balance_kit.Webhook.Management.SigningKeys.{get_signing_key_by_url}
use onekey_balance_kit.Webhook.Signature.{validate_alchemy_signature}
use onekey_balance_kit.Webhook.Events.{
  Payload, Delivery, process_webhook_event, network_of, chain_of, success, check_and_process,
  with_key, handle_webhook,
}

module _ {W S D : Type 0} (ext : External W) (cache : Manager S Text) (config : Config)
    (hmac : Text → Text → Text) where
  -- A delivery with a valid signature: under the signing key of the account for the URL and the chain
  -- of the event.
  pub record IsSigned (signature : Text) (body : Option Text) (now later : ℕ) (payload : Payload D)
      (service : Service W S) : Type 0 where
    pub chain : ChainName
    pub key : Text
    pub placed : chain_of payload ≡ some chain
    pub keyed :
        (get_signing_key_by_url ext cache config config.webhook_url chain false now later service).0
        ≡ some key
    pub valid : validate_alchemy_signature hmac signature body key ≡ returned true

  check_and_process_cases :
      (signature : Text) (body : Option Text) (key : Text) (stores : Bool) (payload : Payload D)
      (service : Service W S) (delivery : Delivery D)
      → let (answer, (_, delivery')) =
          check_and_process ext cache config hmac signature body key stores payload
            (service, delivery) in
        ((validate_alchemy_signature hmac signature body key ≡ returned true)
          × (delivery' ≡ (process_webhook_event stores payload delivery).1))
        ⊎ ((answer ≢ success) × (delivery' ≡ delivery))
  unfolding check_and_process
  check_and_process_cases signature body key stores payload service delivery =
      elim (Reply-cases (validate_alchemy_signature hmac signature body key)) [
        | inl failed ↦ rw (failed, check_and_process) (inr ((λ e. cc), refl))
        | inr (true, e) ↦ rw (e, check_and_process) (inl (refl, refl))
        | inr (false, e) ↦ rw (e, check_and_process) (inr ((λ e. cc), refl))
      ]

  with_key_cases :
      (signature : Text) (body key : Option Text) (stores : Bool) (payload : Payload D)
      (service : Service W S) (delivery : Delivery D)
      → let (answer, (_, delivery')) =
          with_key ext cache config hmac signature body key stores payload (service, delivery) in
        ((k : Text) × (key ≡ some k)
          × (validate_alchemy_signature hmac signature body k ≡ returned true)
          × (delivery' ≡ (process_webhook_event stores payload delivery).1))
        ⊎ ((answer ≢ success) × (delivery' ≡ delivery))
  unfolding with_key
  with_key_cases signature body none stores payload service delivery = inr ((λ e. cc), refl)
  with_key_cases signature body (some k) stores payload service delivery =
      elim (Bool-cases (truthy k)) [
        | inr empty ↦ rw empty (inr ((λ e. cc), refl))
        | inl set_up ↦
            rw set_up
              (elim (check_and_process_cases signature body k stores payload service delivery) [
                | inl (valid, done) ↦ inl (k, refl, valid, done)
                | inr refused ↦ inr refused
              ])
      ]

  -- A delivery changes what is stored and emitted only if its signature is valid under the signing key
  -- that the account has for the URL and the chain of the event, and then it is processed; any other
  -- is answered with an error.
  pub handle_webhook_cases :
      (signature : Text) (body : Option Text) (now later : ℕ) (stores : Bool) (payload : Payload D)
      (service : Service W S) (delivery : Delivery D)
      → let (answer, (_, delivery')) =
          handle_webhook ext cache config hmac signature body now later stores payload
            (service, delivery) in
        (IsSigned signature body now later payload service
          × (delivery' ≡ (process_webhook_event stores payload delivery).1))
        ⊎ ((answer ≢ success) × (delivery' ≡ delivery))
  unfolding handle_webhook
  handle_webhook_cases signature body now later stores payload service delivery =
      elim (Bool-cases (truthy signature)) [
        | inr unsigned ↦ rw unsigned (inr ((λ e. cc), refl))
        | inl signed ↦ elim (Bool-cases (truthy config.webhook_url)) [
          | inr unset ↦ rw (signed, unset) (inr ((λ e. cc), refl))
          | inl set_up ↦ elim (Option-cases (chain_of payload)) [
            | inl unknown ↦ rw (signed, set_up, unknown, handle_webhook) (inr ((λ e. cc), refl))
            | inr (chain, placed) ↦
                let (key, service') =
                  get_signing_key_by_url ext cache config config.webhook_url chain false now later
                    service in
                rw (signed, set_up, placed, handle_webhook)
                  (elim (with_key_cases signature body key stores payload service' delivery) [
                    | inl (k, keyed, valid, done) ↦ inl (
                      record {
                        chain = chain;
                        key = k;
                        placed = placed;
                        keyed = keyed;
                        valid = valid;
                      },
                      done,
                    )
                    | inr refused ↦ inr refused
                  ])
          ]
        ]
      ]

  -- An event whose type names no network, such as a GraphQL event, is never accepted: whatever its
  -- signature, it is answered with an error, and nothing changes.
  pub handle_webhook-no_network :
      (signature : Text) (body : Option Text) (now later : ℕ) (stores : Bool) (payload : Payload D)
      (s : Service W S × Delivery D)
      → network_of payload ≡ none
      → let r = handle_webhook ext cache config hmac signature body now later stores payload s in
        (r.0 ≢ success) × (r.1 ≡ s)
  unfolding handle_webhook
  handle_webhook-no_network signature body now later stores payload (service, delivery) h =
      elim (Bool-cases (truthy signature)) [
        | inr unsigned ↦ rw unsigned ((λ e. cc), refl)
        | inl signed ↦ elim (Bool-cases (truthy config.webhook_url)) [
          | inr unset ↦ rw (signed, unset) ((λ e. cc), refl)
          | inl set_up ↦ rw (signed, set_up, h, handle_webhook) ((λ e. cc), refl)
        ]
      ]
