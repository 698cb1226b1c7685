-- ===== src/Webhook/Events.antt =====
-- webhook/webhook.service.ts and webhook/webhook.controller.ts: a delivered event is checked, stored and
-- turned into notifications. An event has the fields of its type; a missing address, hash or token is
-- the empty string. `D` is the type of the data that custom events carry. The database is not under
-- src: whether it stores the event is an argument.
pub mod Notified
pub mod Accepted
pub mod Tests
use onekey_balance_kit.Base.{
  ℕ, Bool, true, false, ◌&&◌, not, Option, none, some, List, [], ◌∷◌, ◌++◌, Text, codes, truthy,
  if◌then◌else◌, keep_if, get,
}
use onekey_balance_kit.Cache.{Reply, returned, threw, Manager}
use onekey_balance_kit.Chains.{ChainName, get_chain_id_from_network_id, network_id_to_chain_map}
use onekey_balance_kit.Chains.Alchemy.{get_chain_name_from_network_id}
use onekey_balance_kit.Notification.{
  Notification, Emitted, ActivityMetadata, activity, nft_transfer, emit_address_activity,
  emit_nft_activity, emit_transaction_mined, emit_custom_event,
}
use onekey_balance_kit.Webhook.Account.{Config, External, Service}
use onekey_balance_kit.Webhook.Management.SigningKeys.{
  get_signing_key_by_url, clear_signing_key_cache,
}
use onekey_balance_kit.Webhook.Signature.{validate_alchemy_signature}

pub record ActivityItem : Type 0 where
  pub hash : Text
  pub from_address : Text
  pub to_address : Text

pub record NftItem : Type 0 where
  pub from_address : Text
  pub to_address : Text
  pub contract_address : Text
  pub erc721_token_id : Text
  pub erc1155_token_id : Text

pub record MinedEvent : Type 0 where
  pub network : Text
  pub hash : Text
  pub from : Text
  pub to : Text

pub data Payload (D : Type 0) : Type 0 where
  address_activity : Text → List ActivityItem → Payload D
  token_activity unknown_type : Payload D
  nft_activity : Text → List NftItem → Payload D
  mined_transaction dropped_transaction : MinedEvent → Payload D
  graphql : D → Payload D

-- What the handlers look up first: the chain of the network, and its ID. A network that is the name of
-- an inherited property of objects, such as `constructor`, is left out of account.
unfoldable pub resolve_network : Text → Option (ChainName × ℕ)
resolve_network network = elim (get_chain_name_from_network_id network) [
  | none ↦ none
  | some chain ↦ elim (get_chain_id_from_network_id network) [
    | none ↦ none
    | some chain_id ↦ some (chain, chain_id)
  ]
]

abbrev pub token_id : NftItem → Text
token_id a =
    if truthy a.erc721_token_id
    then a.erc721_token_id
    else if truthy a.erc1155_token_id
    then a.erc1155_token_id
    else codes "0"

module _ {D : Type 0} where
  abbrev pub emit_given : ChainName → ℕ → Text → ActivityMetadata → Emitted D → Emitted D
  emit_given chain chain_id address m out =
      if truthy address then emit_address_activity chain chain_id address (some m) out else out

  -- `[fromAddress, toAddress].filter(Boolean)`.
  unfoldable pub handle_items : ChainName → ℕ → List ActivityItem → Emitted D → Emitted D
  handle_items chain chain_id [] out = out
  handle_items chain chain_id (a ∷ rest) out =
      let m : ActivityMetadata = activity a.hash (codes "ADDRESS_ACTIVITY") in
      handle_items chain chain_id rest
        (emit_given chain chain_id a.to_address m (emit_given chain chain_id a.from_address m out))

  unfoldable pub handle_nft_items : ChainName → ℕ → List NftItem → Emitted D → Emitted D
  handle_nft_items chain chain_id [] out = out
  handle_nft_items chain chain_id (a ∷ rest) out =
      let m : ActivityMetadata = nft_transfer a.contract_address (token_id a) in
      handle_nft_items chain chain_id rest (
        emit_given chain chain_id a.to_address m (
          emit_given chain chain_id a.from_address m (
            emit_nft_activity chain a.contract_address (token_id a) a.from_address a.to_address
              out)))

  unfoldable pub handle_mined : ChainName → ℕ → MinedEvent → Emitted D → Emitted D
  handle_mined chain chain_id e out =
      let m : ActivityMetadata = ActivityMetadata.transaction_mined e.hash in
      emit_given chain chain_id e.to m
        (emit_given chain chain_id e.from m (emit_transaction_mined chain e.hash e.from e.to out))

  -- A handler that runs where the network is known.
  abbrev pub on_network : Text → (ChainName → ℕ → Emitted D → Emitted D) → Emitted D → Emitted D
  on_network network handler out = elim (resolve_network network) [
    | none ↦ out
    | some (chain, chain_id) ↦ handler chain chain_id out
  ]

  unfoldable pub handle_event : Payload D → Emitted D → Emitted D
  unfolding handle_items handle_nft_items handle_mined
  handle_event (address_activity network items) out =
      on_network network (λ c n o. handle_items c n items o) out
  handle_event token_activity out = out
  handle_event unknown_type out = out
  handle_event (nft_activity network items) out =
      on_network network (λ c n o. handle_nft_items c n items o) out
  handle_event (mined_transaction e) out = on_network e.network (λ c n o. handle_mined c n e o) out
  handle_event (dropped_transaction e) out = out
  handle_event (graphql d) out = emit_custom_event d out

-- The collection of events and what was emitted.
pub record Delivery (D : Type 0) : Type 0 where
  pub saved : List (Payload D)
  pub emitted : Emitted D

-- `processWebhookEvent`; `stores` is whether the database takes the event, and the error of one that
-- does not is thrown on.
unfoldable pub process_webhook_event :
    {D : Type 0} → Bool → Payload D → Delivery D → Reply Bool × Delivery D
unfolding handle_event
process_webhook_event stores payload s =
    if stores
    then (
      returned true,
      record { saved = s.saved ++ payload ∷ []; emitted = handle_event payload s.emitted },
    )
    else (threw, s)

-- The network of an event, as the controller reads it.
abbrev pub network_of : {D : Type 0} → Payload D → Option Text
network_of (address_activity network items) = some network
network_of (nft_activity network items) = some network
network_of (mined_transaction e) = some e.network
network_of (dropped_transaction e) = some e.network
network_of token_activity = none
network_of unknown_type = none
network_of (graphql d) = none

abbrev pub chain_of : {D : Type 0} → Payload D → Option ChainName
chain_of payload = elim (network_of payload) [
  | none ↦ none
  | some network ↦ get network network_id_to_chain_map
]

pub data HttpAnswer : Type 0 where
  success unauthorized bad_request server_error : HttpAnswer

abbrev pub answer_of : Reply Bool → HttpAnswer
answer_of threw = server_error
answer_of (returned b) = success

module _ {W S D : Type 0} (ext : External W) (cache : Manager S Text) (config : Config)
    (hmac : Text → Text → Text) where
  -- `handleWebhook` once the signing key is known.
  unfoldable pub check_and_process :
      Text
      → Option Text
      → Text
      → Bool
      → Payload D
      → Service W S × Delivery D
      → HttpAnswer × (Service W S × Delivery D)
  check_and_process signature body key stores payload (service, delivery) =
      elim (validate_alchemy_signature hmac signature body key) [
        | threw ↦ (server_error, (service, delivery))
        | returned true ↦
            let (r, delivery') = process_webhook_event stores payload delivery in
            (answer_of r, (service, delivery'))
        | returned false ↦ (unauthorized, (clear_signing_key_cache none none service, delivery))
      ]

  unfoldable pub with_key :
      Text
      → Option Text
      → Option Text
      → Bool
      → Payload D
      → Service W S × Delivery D
      → HttpAnswer × (Service W S × Delivery D)
  unfolding check_and_process
  with_key signature body none stores payload s = (unauthorized, s)
  with_key signature body (some k) stores payload s =
      if truthy k then check_and_process signature body k stores payload s else (unauthorized, s)

  unfoldable pub handle_webhook :
      Text
      → Option Text
      → ℕ
      → ℕ
      → Bool
      → Payload D
      → Service W S × Delivery D
      → HttpAnswer × (Service W S × Delivery D)
  unfolding with_key
  handle_webhook signature body now later stores payload (service, delivery) =
      if not (truthy signature)
      then (unauthorized, (service, delivery))
      else if not (truthy config.webhook_url)
      then (bad_request, (service, delivery))
      else elim (chain_of payload) [
        | none ↦ (unauthorized, (service, delivery))
        | some chain ↦
            let (key, service') =
              get_signing_key_by_url ext cache config config.webhook_url chain false now later
                service in
            with_key signature body key stores payload (service', delivery)
      ]
