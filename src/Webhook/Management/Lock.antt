-- ===== src/Webhook/Management/Lock.antt =====
-- The creation lock of `createNewWebhook`, webhook/webhook-management.service.ts.
use onekey_balance_kit.Base.{
  non_empty, ℕ, ◌≡◌, refl, Bool, false, Option, none, some, List, [], ◌∷◌, Text, truthy, arith, inl,
  inr, ◌⊎◌,
}
use onekey_balance_kit.Cache.{
  Reply-cases, returned, threw, Manager, Result, ok, err, cache_get, cache_delete,
}
use onekey_balance_kit.Chains.{ChainName}
use onekey_balance_kit.Webhook.Account.{
  External, Config, Service, lock_key, default_monitored_address,
}
use onekey_balance_kit.Webhook.Management.{
  try_release, release, create_locked, create_new_webhook, get_existing_webhook_id_for_chain,
}

-- Whether the cache holds the lock, as the next caller will find it.
abbrev pub found_held : Result (Option Text) → Bool
found_held (err e) = false
found_held (ok none) = false
found_held (ok (some holder)) = truthy holder

abbrev pub is_held : {S : Type 0} → Manager S Text → ChainName → S → Bool
is_held cache chain s = found_held (cache_get cache (lock_key chain) s)

-- What the lock asks of the cache: a key that was removed is not found.
pub record Removes {S : Type 0} (cache : Manager S Text) : Type 0 where
  pub fetch-remove :
      (key : Text) (s s' : S)
      → cache.remove key s ≡ returned s'
      → cache.fetch key s' ≡ returned none

module _ {W S : Type 0} (ext : External W) (cache : Manager S Text) (config : Config) where
  -- The lock is free, or it cannot be removed.
  abbrev pub IsReleased : ChainName → S → Type 0
  IsReleased chain s = (is_held cache chain s ≡ false) ⊎ (cache.remove (lock_key chain) s ≡ threw)

  try_release-IsReleased :
      (chain : ChainName) (s : S)
      → Removes cache
      → IsReleased chain (try_release ext cache config chain s)
  unfolding try_release cache_delete cache_get
  try_release-IsReleased chain s laws = elim (Reply-cases (cache.remove (lock_key chain) s)) [
    | inl failed ↦ rw (failed, try_release, cache_delete) (inr failed)
    | inr (s', removed) ↦
        rw (removed, try_release, cache_delete, cache_get)
          (rw (laws.fetch-remove (lock_key chain) s s' removed, cache_get) (inl refl))
  ]

  release-IsReleased :
      (chain : ChainName) (made : Option Text) (s : S)
      → Removes cache
      → IsReleased chain (release ext cache config chain made s).1
  unfolding release cache_delete cache_get
  release-IsReleased chain made s laws = elim (Reply-cases (cache.remove (lock_key chain) s)) [
    | inl failed ↦ rw (failed, release, cache_delete) (try_release-IsReleased chain s laws)
    | inr (s', removed) ↦
        rw (removed, release, cache_delete)
          (rw (laws.fetch-remove (lock_key chain) s s' removed, cache_get) (inl refl))
  ]

  -- If a removed key is not found in the cache, then a creation that finds the lock free leaves it
  -- free again, whichever way it ends, unless the cache refuses to remove it.
  pub create_new_webhook-IsReleased :
      (chain : ChainName) (now : ℕ) (s : Service W S)
      → Removes cache
      → is_held cache chain s.locks ≡ false
      → IsReleased chain (create_new_webhook ext cache config chain now s).1.locks
  unfolding create_new_webhook
  create_new_webhook-IsReleased chain now s laws free =
      grind (arith, try_release-IsReleased, release-IsReleased)

  -- The webhook was listed for the chain already, or none was and the SDK has made it.
  abbrev pub IsFromApi : ChainName → W → Text → W → Type 0
  IsFromApi chain before id after =
      let (existing, w) = get_existing_webhook_id_for_chain ext cache config chain before in
      ((existing ≡ some id) × (after ≡ w))
      ⊎ ((non_empty existing ≡ none)
          × (ext.create_webhook chain config.webhook_url (default_monitored_address ∷ []) w
              ≡ (returned (some id), after)))

  create_locked-IsFromApi :
      (chain : ChainName) (clients : List ChainName) (before : W) (id : Text)
      → (create_locked ext cache config chain clients before).0 ≡ some id
      → IsFromApi chain before id (create_locked ext cache config chain clients before).1
  unfolding create_locked
  create_locked-IsFromApi chain clients before id e = ground arith

  release-eq-some :
      (chain : ChainName) (made : Option Text) (s : S) (id : Text)
      → (release ext cache config chain made s).0 ≡ some id
      → made ≡ some id
  unfolding release
  release-eq-some chain made s id e = ground arith

  -- A creation that gives a webhook found the lock free, and its second look at the list, under the
  -- lock, either found that webhook for the chain or found none, and then the SDK has just made it:
  -- no second webhook is made for a chain that the list has.
  pub create_new_webhook-IsFromApi :
      (chain : ChainName) (now : ℕ) (s : Service W S) (id : Text)
      → (create_new_webhook ext cache config chain now s).0 ≡ some id
      → (is_held cache chain s.locks ≡ false)
        × IsFromApi chain s.world id (create_new_webhook ext cache config chain now s).1.world
  unfolding create_new_webhook
  create_new_webhook-IsFromApi chain now s id e =
      grind (arith, create_locked-IsFromApi, release-eq-some)
