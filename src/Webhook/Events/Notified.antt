-- ===== src/Webhook/Events/Notified.antt =====
-- Which addresses the handlers of webhook/webhook.service.ts notify.
use onekey_balance_kit.Base.{
  ℕ, ◌≡◌, refl, sym, ap, ◌∙◌, Option, none, some, List, [], ◌∷◌, ◌++◌, Text, truthy, keep_if, map,
  append_assoc, append-nil, Option-cases, inl, inr,
}
use onekey_balance_kit.Chains.{ChainName}
use onekey_balance_kit.Notification.{Notification, Emitted, ActivityMetadata}
use onekey_balance_kit.Webhook.Events.{
  ActivityItem, NftItem, MinedEvent, Payload, resolve_network, emit_given, handle_items,
  handle_nft_items, handle_mined, handle_event, on_network,
}

abbrev pub Mark : Type 0
Mark = ChainName × ℕ × Text

-- The address notifications among what was emitted.
abbrev pub notified : {D : Type 0} → Emitted D → List Mark
notified [] = []
notified (Notification.address_activity c n a m ∷ out) = (c, n, a) ∷ notified out
notified (_ ∷ out) = notified out

abbrev pub marks : ChainName → ℕ → List Text → List Mark
marks c n addresses = map (λ a. (c, n, a)) (keep_if truthy addresses)

abbrev pub item_addresses : List ActivityItem → List Text
item_addresses [] = []
item_addresses (a ∷ rest) = a.from_address ∷ a.to_address ∷ item_addresses rest

abbrev pub nft_addresses : List NftItem → List Text
nft_addresses [] = []
nft_addresses (a ∷ rest) = a.from_address ∷ a.to_address ∷ nft_addresses rest

-- The addresses that an event touches, on the chain of its network.
abbrev pub on_chain : Option (ChainName × ℕ) → List Text → List Mark
on_chain none addresses = []
on_chain (some (c, n)) addresses = marks c n addresses

abbrev pub touched : {D : Type 0} → Payload D → List Mark
touched (Payload.address_activity network items) =
    on_chain (resolve_network network) (item_addresses items)
touched (Payload.nft_activity network items) =
    on_chain (resolve_network network) (nft_addresses items)
touched (Payload.mined_transaction e) = on_chain (resolve_network e.network) (e.from ∷ e.to ∷ [])
touched _ = []

marks-append :
    (c : ChainName) (n : ℕ) (a : Text) (as' : List Text)
    → marks c n (a ∷ as') ≡ marks c n (a ∷ []) ++ marks c n as'
marks-append c n [] as' = refl
marks-append c n (x ∷ a) as' = refl

module _ {D : Type 0} where
  notified-append : (xs ys : Emitted D) → notified (xs ++ ys) ≡ notified xs ++ notified ys
  notified-append [] ys = refl
  notified-append (Notification.address_activity c n a m ∷ xs) ys =
      ap (λ l. (c, n, a) ∷ l) (notified-append xs ys)
  notified-append (Notification.nft_activity c k t f o ∷ xs) ys = notified-append xs ys
  notified-append (Notification.transaction_mined c h f o ∷ xs) ys = notified-append xs ys
  notified-append (Notification.custom_event d ∷ xs) ys = notified-append xs ys
  notified-append (Notification.portfolio_update c n a d p t ∷ xs) ys = notified-append xs ys
  notified-append (Notification.portfolio_redis_updated c n a d p t ∷ xs) ys = notified-append xs ys
  notified-append (Notification.address_cache_invalidated e ∷ xs) ys = notified-append xs ys

  notified-emit_given :
      (c : ChainName) (n : ℕ) (a : Text) (m : ActivityMetadata) (out : Emitted D)
      → notified (emit_given c n a m out) ≡ notified out ++ marks c n (a ∷ [])
  notified-emit_given c n [] m out = sym (append-nil (notified out))
  notified-emit_given c n (x ∷ a) m out =
      notified-append out (Notification.address_activity c n (x ∷ a) (some m) ∷ [])

  -- An address and another one, behind what was notified before.
  notified-both :
      (c : ChainName) (n : ℕ) (a b : Text) (m : ActivityMetadata) (out : Emitted D)
      (more : List Text)
      → notified (emit_given c n b m (emit_given c n a m out)) ++ marks c n more
        ≡ notified out ++ marks c n (a ∷ b ∷ more)
  notified-both c n a b m out more =
      rw
        (
          notified-emit_given c n b m (emit_given c n a m out),
          notified-emit_given c n a m out,
          marks-append c n a (b ∷ more),
          marks-append c n b more,
        )
        (append_assoc (notified out ++ marks c n (a ∷ [])) (marks c n (b ∷ [])) (marks c n more)
          ∙ append_assoc (notified out) (marks c n (a ∷ [])) (marks c n (b ∷ []) ++ marks c n more))

  notified-handle_items :
      (c : ChainName) (n : ℕ) (items : List ActivityItem) (out : Emitted D)
      → notified (handle_items c n items out) ≡ notified out ++ marks c n (item_addresses items)
  unfolding handle_items
  notified-handle_items c n [] out = sym (append-nil (notified out))
  notified-handle_items c n (a ∷ rest) out =
      notified-handle_items c n rest _
      ∙ notified-both c n a.from_address a.to_address _ out (item_addresses rest)

  notified-handle_nft_items :
      (c : ChainName) (n : ℕ) (items : List NftItem) (out : Emitted D)
      → notified (handle_nft_items c n items out) ≡ notified out ++ marks c n (nft_addresses items)
  unfolding handle_nft_items
  notified-handle_nft_items c n [] out = sym (append-nil (notified out))
  notified-handle_nft_items c n (a ∷ rest) out =
      notified-handle_nft_items c n rest _
      ∙ (notified-both c n a.from_address a.to_address _ _ (nft_addresses rest)
          ∙ rw (notified-append out (_ ∷ []), append-nil (notified out)) refl)

  notified-handle_mined :
      (c : ChainName) (n : ℕ) (e : MinedEvent) (out : Emitted D)
      → notified (handle_mined c n e out) ≡ notified out ++ marks c n (e.from ∷ e.to ∷ [])
  unfolding handle_mined
  notified-handle_mined c n e out =
      sym (append-nil _)
      ∙ (notified-both c n e.from e.to _ _ []
          ∙ rw (notified-append out (_ ∷ []), append-nil (notified out)) refl)

  notified-on_network :
      (network : Text) (handler : ChainName → ℕ → Emitted D → Emitted D) (addresses : List Text)
      (out : Emitted D)
      → ((c : ChainName) (n : ℕ) → notified (handler c n out) ≡ notified out ++ marks c n addresses)
      → notified (on_network network handler out)
        ≡ notified out ++ on_chain (resolve_network network) addresses
  notified-on_network network handler addresses out h =
      elim (Option-cases (resolve_network network)) [
        | inl unknown ↦ rw (unknown, on_network) (sym (append-nil (notified out)))
        | inr ((c, n), e) ↦ rw (e, on_network) (h c n)
      ]

  -- An event adds to the notifications of address activity exactly those of the addresses that it
  -- touches: the two addresses of every activity, or of the mined transaction, that are not empty, in
  -- order, on the chain of the event's network; where the network is unknown, none.
  pub notified-handle_event :
      (payload : Payload D) (out : Emitted D)
      → notified (handle_event payload out) ≡ notified out ++ touched payload
  unfolding handle_event
  notified-handle_event (Payload.address_activity network items) out =
      notified-on_network network (λ c n o. handle_items c n items o) (item_addresses items) out
        (λ c n. notified-handle_items c n items out)
  notified-handle_event (Payload.nft_activity network items) out =
      notified-on_network network (λ c n o. handle_nft_items c n items o) (nft_addresses items) out
        (λ c n. notified-handle_nft_items c n items out)
  notified-handle_event (Payload.mined_transaction e) out =
      notified-on_network e.network (λ c n o. handle_mined c n e o) (e.from ∷ e.to ∷ []) out
        (λ c n. notified-handle_mined c n e out)
  notified-handle_event (Payload.graphql d) out =
      notified-append out (Notification.custom_event d ∷ [])
  notified-handle_event Payload.token_activity out = sym (append-nil (notified out))
  notified-handle_event Payload.unknown_type out = sym (append-nil (notified out))
  notified-handle_event (Payload.dropped_transaction e) out = sym (append-nil (notified out))
