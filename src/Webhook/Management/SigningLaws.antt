-- ===== src/Webhook/Management/SigningLaws.antt =====
-- The cache of signing keys of webhook/webhook-management.service.ts.
use onekey_balance_kit.Base.{
  ℕ, ◌+◌, ◌<◌, ◌≡◌, refl, Bool, true, false, ◌||◌, not, Option, none, some, [], ◌∷◌, ◌++◌, Text,
  truthy, text_beq, text_beq_iff, text_beq_refl, if◌then◌else◌, or_else, find_if, find_if_sound,
  starts_with, includes, codes, Map, get, delete, get-set_self, get-delete, arith, Bool-cases,
  Option-cases, inl, inr, ◌⊎◌,
}
use onekey_balance_kit.Cache.{Manager}
use onekey_balance_kit.Chains.{ChainName, value}
use onekey_balance_kit.Webhook.Account.{
  External, Config, Service, AlchemyWebhook, SigningKeyCache, cache_ttl,
}
use onekey_balance_kit.Webhook.Management.{get_existing_webhooks}
use onekey_balance_kit.Webhook.Management.SigningKeys.{
  signing_cache_key, cached_key, signs, fetch_signing_key, get_signing_key_by_url, delete_keys,
  clear_signing_key_cache,
}

module _ {W S : Type 0} (ext : External W) (cache : Manager S Text) (config : Config) where
  fetch_signing_key-cached :
      (url : Text) (chain : ChainName) (later now' : ℕ) (s : Service W S) (key : Text)
      → let r = fetch_signing_key ext cache config url chain later s in
        r.0 ≡ some key
        → truthy key ≡ true
        → now' < later + cache_ttl
        → cached_key (signing_cache_key url chain) now' r.1.signing_key_cache ≡ some key
  unfolding fetch_signing_key cached_key
  fetch_signing_key-cached url chain later now' s key e set_up early = grind (arith, get-set_self)

  fetch_signing_key_cases :
      (url : Text) (chain : ChainName) (later : ℕ) (s : Service W S) (key : Text)
      → (fetch_signing_key ext cache config url chain later s).0 ≡ some key
      → (w : AlchemyWebhook) × (find_if
            (signs url chain)
            (or_else (get_existing_webhooks ext cache config s.world).0 [])
          ≡ some w)
        × (w.signing_key ≡ key)
  unfolding fetch_signing_key
  fetch_signing_key_cases url chain later s key e = ground arith

  -- A key that was fetched is given again for the same URL and chain, without a call of the API and
  -- without a change of the state, at any time before its thirty minutes are over.
  pub get_signing_key_by_url-cached :
      (url : Text) (chain : ChainName) (now later now' later' : ℕ) (s : Service W S) (key : Text)
      → let r = get_signing_key_by_url ext cache config url chain true now later s in
        r.0 ≡ some key
        → truthy key ≡ true
        → now' < later + cache_ttl
        → get_signing_key_by_url ext cache config url chain false now' later' r.1 ≡ (some key, r.1)
  unfolding get_signing_key_by_url fetch_signing_key
  get_signing_key_by_url-cached url chain now later now' later' s key e set_up early =
      ground (arith, fetch_signing_key-cached url chain later now' s key)

  -- The key is that of an active webhook of the account which has the URL and the network of the chain.
  abbrev pub IsListed : Text → ChainName → W → Text → Type 0
  IsListed url chain before key =
      (w : AlchemyWebhook) × (find_if (signs url chain)
          (or_else (get_existing_webhooks ext cache config before).0 [])
        ≡ some w)
      × (signs url chain w ≡ true)
      × (w.signing_key ≡ key)

  fetch_signing_key-IsListed :
      (url : Text) (chain : ChainName) (later : ℕ) (s : Service W S) (key : Text)
      → (fetch_signing_key ext cache config url chain later s).0 ≡ some key
      → IsListed url chain s.world key
  fetch_signing_key-IsListed url chain later s key e =
      let (w, found, same) = fetch_signing_key_cases url chain later s key e in
      (w, found, find_if_sound (signs url chain) _ w found, same)

  -- A signing key that is given is the unexpired one of the cache, the refresh was not forced and
  -- nothing changed, or it is the key of the first active webhook of the account which has the URL
  -- and the network of the chain.
  pub get_signing_key_by_url_cases :
      (url : Text) (chain : ChainName) (force : Bool) (now later : ℕ) (s : Service W S) (key : Text)
      → let r = get_signing_key_by_url ext cache config url chain force now later s in
        r.0 ≡ some key
        → ((force ≡ false)
            × (cached_key (signing_cache_key url chain) now s.signing_key_cache ≡ some key)
            × (r.1 ≡ s))
          ⊎ IsListed url chain s.world key
  unfolding get_signing_key_by_url
  get_signing_key_by_url_cases url chain true now later s key e =
      inr (fetch_signing_key-IsListed url chain later s key e)
  get_signing_key_by_url_cases url chain false now later s key e =
      elim (Option-cases (cached_key (signing_cache_key url chain) now s.signing_key_cache)) [
        | inl absent ↦ inr (fetch_signing_key-IsListed url chain later s key (ground arith))
        | inr (k, found) ↦ inl (refl, ground arith, ground arith)
      ]

get-delete_keys :
    (test : Text → Bool) (j : Text) (m : Map SigningKeyCache)
    → get j (delete_keys test m) ≡ (if test j then none else get j m)
unfolding delete_keys get
get-delete_keys test j [] = ground arith
get-delete_keys test j ((k, v) ∷ m) = ground (arith, get-delete_keys test j m, text_beq_iff k j)

starts_with-append : (p s : Text) → starts_with (p ++ s) p ≡ true
starts_with-append [] s = refl
starts_with-append (c ∷ p) s = ground (arith, starts_with-append p s)

starts_with_refl : (s : Text) → starts_with s s ≡ true
starts_with_refl [] = refl
starts_with_refl (c ∷ s) = ground (arith, starts_with_refl s)

includes-append : (p s : Text) → includes (p ++ s) s ≡ true
includes-append [] [] = refl
includes-append [] (c ∷ s) = ground (arith, starts_with_refl (c ∷ s))
includes-append (c ∷ p) s = ground (arith, includes-append p s)

-- An argument of `clearSigningKeyCache` speaks of a value: it is left out, or it is that value.
abbrev pub covers_url : Option Text → Text → Bool
covers_url none url = true
covers_url (some u) url = not (truthy u) || text_beq u url

abbrev pub covers_chain : Option ChainName → ChainName → Bool
covers_chain none chain = true
covers_chain (some c) chain = text_beq (value c) (value chain)

forgets_key :
    (test : Text → Bool) (j : Text) (now : ℕ) (m : Map SigningKeyCache)
    → test j ≡ true
    → cached_key j now (delete_keys test m) ≡ none
unfolding cached_key
forgets_key test j now m h = ground (arith, get-delete_keys test j m)

forgets_chain :
    (c chain : ChainName) (url : Text) (now : ℕ) (m : Map SigningKeyCache)
    → text_beq (value c) (value chain) ≡ true
    → cached_key
        (signing_cache_key url chain)
        now
        (delete_keys (λ k. includes k (b':' ∷ value c)) m)
      ≡ none
unfolding signing_cache_key
forgets_chain c chain url now m h =
    forgets_key _ (signing_cache_key url chain) now m
      (rw ((text_beq_iff (value c) (value chain)).0 h) (includes-append url (b':' ∷ value chain)))

prefixed : (url v : Text) → starts_with (url ++ (b':' ∷ v)) (url ++ codes ":") ≡ true
prefixed [] v = ground arith
prefixed (c ∷ url) v = ground (arith, prefixed url v)

forgets_url :
    (url : Text) (chain : ChainName) (now : ℕ) (m : Map SigningKeyCache)
    → cached_key
        (signing_cache_key url chain)
        now
        (delete_keys (λ k. text_beq k url || starts_with k (url ++ codes ":")) m)
      ≡ none
unfolding signing_cache_key
forgets_url url chain now m =
    forgets_key _ (signing_cache_key url chain) now m
      (rw (prefixed url (value chain)) (ground arith))

forgets_one : (j : Text) (now : ℕ) (m : Map SigningKeyCache) → cached_key j now (delete j m) ≡ none
unfolding cached_key
forgets_one j now m = ground (arith, get-delete j j m, text_beq_refl j)

forgets_both :
    (url : Text) (c chain : ChainName) (now : ℕ) (m : Map SigningKeyCache)
    → text_beq (value c) (value chain) ≡ true
    → cached_key (signing_cache_key url chain) now (delete (signing_cache_key url c) m) ≡ none
unfolding signing_cache_key
forgets_both url c chain now m h =
    rw ((text_beq_iff (value c) (value chain)).0 h)
      (forgets_one (url ++ (b':' ∷ value chain)) now m)

-- After a clearing, no key is cached for a URL and a chain that its arguments cover.
pub clear_signing_key_cache-forgets :
    {W S : Type 0} (u : Option Text) (c : Option ChainName) (s : Service W S) (url : Text)
    (chain : ChainName) (now : ℕ)
    → covers_url u url ≡ true
    → covers_chain c chain ≡ true
    → cached_key (signing_cache_key url chain) now (clear_signing_key_cache u c s).signing_key_cache
      ≡ none
unfolding clear_signing_key_cache cached_key get
clear_signing_key_cache-forgets none none s url chain now hu hc = refl
clear_signing_key_cache-forgets none (some c) s url chain now hu hc =
    forgets_chain c chain url now s.signing_key_cache hc
clear_signing_key_cache-forgets (some u) none s url chain now hu hc = elim (Bool-cases (truthy u)) [
  | inr empty ↦ rw empty refl
  | inl set_up ↦
      rw (set_up, (text_beq_iff u url).0 (ground arith))
        (forgets_url url chain now s.signing_key_cache)
]
clear_signing_key_cache-forgets (some u) (some c) s url chain now hu hc =
    elim (Bool-cases (truthy u)) [
      | inr empty ↦ rw empty (forgets_chain c chain url now s.signing_key_cache hc)
      | inl set_up ↦
          rw (set_up, (text_beq_iff u url).0 (ground arith))
            (forgets_both url c chain now s.signing_key_cache hc)
    ]
