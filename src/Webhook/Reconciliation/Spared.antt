-- ===== src/Webhook/Reconciliation/Spared.antt =====
-- What the clean-up of webhook/webhook-address-reconciliation.service.ts leaves in the Alchemy account.
use onekey_balance_kit.Base.{ℕ, ◌≡◌, Bool, true, false, List, Text, ◌⊎◌}
use onekey_balance_kit.Cache.{returned}
use onekey_balance_kit.Chains.{ChainName}
use onekey_balance_kit.Webhook.Account.{External, member}
use onekey_balance_kit.Webhook.Reconciliation.{Snapshots, Reconciliation, is_default}

-- How the calls act on an account, where `watches w v a` says whether the webhook `v` has the address
-- `a`: only an update that removes an address takes it from a webhook.
pub record IsAccount {W : Type 0} (ext : External W) (watches : W → Text → Text → Bool)
    : Type 0 where
  pub list_keeps : (w : W) (v a : Text) → watches (ext.list_webhooks w).1 v a ≡ watches w v a
  pub get_keeps :
      (id : Text) (w : W) (v a : Text) → watches (ext.get_addresses id w).1 v a ≡ watches w v a
  pub create_keeps :
      (chain : ChainName) (url : Text) (addresses : List Text) (w : W) (v a : Text)
      → watches w v a ≡ true
      → watches (ext.create_webhook chain url addresses w).1 v a ≡ true
  pub update_keeps :
      (id : Text) (add remove : List Text) (w : W) (v a : Text)
      → member a remove ≡ false
      → watches w v a ≡ true
      → watches (ext.update_webhook id add remove w).1 v a ≡ true

-- Taking the mark off documents leaves their expiry as it is.
abbrev pub KeepsExpiry : {D : Type 0} → Snapshots D → Type 0
KeepsExpiry {D} db =
    (chain : ChainName) (addresses : List Text) (d d' : D)
    → db.unset_monitored chain addresses d ≡ returned d'
    → (other : ChainName) (a : Text) (now : ℕ)
    → db.find_unexpired other a now d' ≡ db.find_unexpired other a now d

-- An address is to stay: it is the default one, or each query finds an unexpired snapshot of it.
abbrev pub IsSpared : {D : Type 0} → Snapshots D → (Text → ℕ) → D → Text → Type 0
IsSpared db time d a =
    (is_default a ≡ true)
    ⊎ ((chain : ChainName) (id : Text) → db.find_unexpired chain a (time id) d ≡ returned true)
