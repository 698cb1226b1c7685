-- ===== src/SolanaStrategy/Raw.antt =====
-- What the Solana strategy answers.
use onekey_balance_kit.Adapters.{SolanaRaw}
use onekey_balance_kit.Base.{◌≡◌, ◌↔◌, refl, ℕ, List, Text, show, map, arith, inl, inr, sym, ◌∙◌}
use onekey_balance_kit.Cache.{returned, Reply-cases}
use onekey_balance_kit.SolanaStrategy.{
  ParsedInfo, OwnedNft, SolanaRpc, token_account, owned_nft, solana_raw_balances,
}

-- The balance, the token accounts and the NFTs that the calls return.
pub record HasAnswers (rpc : SolanaRpc) (address : Text) (r : SolanaRaw) : Type 0 where
  pub lamports : ℕ
  pub accounts : List ParsedInfo
  pub owned : List OwnedNft
  pub has_balance : rpc.get_balance address ≡ returned lamports
  pub has_accounts : rpc.token_accounts address ≡ returned accounts
  pub has_nfts : rpc.get_nfts address ≡ returned owned
  pub balance : r.sol_balance ≡ show lamports
  pub tokens : r.token_accounts ≡ map (token_account rpc) accounts
  pub nfts : r.nfts ≡ map owned_nft owned

answered :
    (rpc : SolanaRpc) (address : Text) (lamports : ℕ) (accounts : List ParsedInfo)
    (owned : List OwnedNft)
    → rpc.get_balance address ≡ returned lamports
    → rpc.token_accounts address ≡ returned accounts
    → rpc.get_nfts address ≡ returned owned
    → solana_raw_balances rpc address
      ≡ returned (record {
        sol_balance = show lamports;
        token_accounts = map (token_account rpc) accounts;
        nfts = map owned_nft owned;
      })
unfolding solana_raw_balances
answered rpc address lamports accounts owned a b c = rw (solana_raw_balances, a, b, c) refl

-- The strategy answers exactly if its three main calls do, with what they give; what it cannot learn of
-- the symbol and the name of a token never makes it fail.
pub solana_raw_balances_iff :
    (rpc : SolanaRpc) (address : Text) (r : SolanaRaw)
    → (solana_raw_balances rpc address ≡ returned r) ↔ HasAnswers rpc address r
unfolding solana_raw_balances
solana_raw_balances_iff rpc address r = (
  λ e. elim (Reply-cases (rpc.get_balance address)) [
    | inl fails ↦ absurd (let f = rw (solana_raw_balances, fails) at e in ground (arith, f))
    | inr (lamports, a) ↦ elim (Reply-cases (rpc.token_accounts address)) [
      | inl fails ↦ absurd (let f = rw (solana_raw_balances, a, fails) at e in ground (arith, f))
      | inr (accounts, b) ↦ elim (Reply-cases (rpc.get_nfts address)) [
        | inl fails ↦
            absurd (let f = rw (solana_raw_balances, a, b, fails) at e in ground (arith, f))
        | inr (owned, c) ↦
            let made = sym (answered rpc address lamports accounts owned a b c) ∙ e in
            record {
              lamports = lamports;
              accounts = accounts;
              owned = owned;
              has_balance = a;
              has_accounts = b;
              has_nfts = c;
              balance = ground (arith, made);
              tokens = ground (arith, made);
              nfts = ground (arith, made);
            }
      ]
    ]
  ],
  λ h.
      answered rpc address h.lamports h.accounts h.owned h.has_balance h.has_accounts h.has_nfts
      ∙ ground (arith, h.balance, h.tokens, h.nfts),
)
