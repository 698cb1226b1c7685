-- ===== src/Db/Filters.antt =====
-- The filters of core/db and of the portfolio listeners, and what MongoDB documents of them.
use onekey_balance_kit.Base.{
  ℕ, Bool, true, false, ◌&&◌, not, none, some, List, [], ◌∷◌, Text, text_beq, ltb, leb, nat_beq,
}
use onekey_balance_kit.Chains.{ChainName, value}
use onekey_balance_kit.Portfolio.{PortfolioSnapshot}
use onekey_balance_kit.Providers.{ProviderType, provider_value}
use onekey_balance_kit.Webhook.Account.{member}

-- A condition on a field; `no_expiry_or_after` is the `$or` of the two conditions on `expiresAt`.
pub data Condition : Type 0 where
  chain_is : ChainName → Condition
  chain_id_is : ℕ → Condition
  address_is : Text → Condition
  address_in : List Text → Condition
  provider_is : ProviderType → Condition
  no_expiry_or_after expires_after expires_by : ℕ → Condition
  monitored not_monitored : Condition

module _ {P : Type 0} where
  -- Whether a document satisfies a condition, and a filter.
  abbrev pub holds : Condition → PortfolioSnapshot P → Bool
  holds (chain_is c) x = text_beq (value c) (value x.chain)
  holds (chain_id_is n) x = nat_beq n x.chain_id
  holds (address_is a) x = text_beq a x.address
  holds (address_in texts) x = member x.address texts
  holds (provider_is p) x = elim x.provider [
    | none ↦ false
    | some q ↦ text_beq (provider_value p) (provider_value q)
  ]
  holds (no_expiry_or_after t) x = elim x.expires_at [ none ↦ true | some e ↦ ltb t e ]
  holds (expires_after t) x = elim x.expires_at [ none ↦ false | some e ↦ ltb t e ]
  holds (expires_by t) x = elim x.expires_at [ none ↦ false | some e ↦ leb e t ]
  holds monitored x = x.webhook_monitored
  holds not_monitored x = not x.webhook_monitored

  abbrev pub matches : List Condition → PortfolioSnapshot P → Bool
  matches [] x = true
  matches (c ∷ cs) x = holds c x && matches cs x
