-- ===== src/ChainsController/Listed.antt =====
-- Which chains are listed, and which test net a request is for.
use onekey_balance_kit.Base.{
  ℕ, ◌≡◌, refl, ap, ◌∙◌, Bool, true, false, ◌&&◌, ◌||◌, Option, none, some, List, [], ◌∷◌, Text,
  codes, to_lower, text_beq, text_beq_iff, any, keep_if, map, find_if, find_if_sound, arith,
  Bool-cases, Option-cases, inl, inr,
}
use onekey_balance_kit.ChainServices.{ChainServiceFactory, get_available_chains}
use onekey_balance_kit.Chains.{
  ChainName, ethereum, solana, polygon, bsc, ethereum_goerli, ethereum_sepolia, solana_devnet,
  bsc_testnet, polygon_mumbai, BaseChainInfo, value, all_chains, chain_info_map,
}
use onekey_balance_kit.ChainsController.{
  ListedChain, listed, is_true, is_listed, list_chains, is_testnet_of, requested_chain_id,
}

any-listed :
    (p : ListedChain → Bool) (q : BaseChainInfo → Bool) (xs : List BaseChainInfo)
    → any p (map listed (keep_if q xs)) ≡ any (λ x. p (listed x) && q x) xs
any-listed p q [] = refl
any-listed p q (x ∷ xs) = ground (arith, any-listed p q xs)

or_false : (b : Bool) → (b || false) ≡ b
or_false true = refl
or_false false = refl

-- The chain of a name is the only one in the table.
only :
    (c : ChainName) (q : BaseChainInfo → Bool)
    → any (λ x. text_beq (value x.name) (value c) && q x) (map chain_info_map all_chains)
      ≡ q (chain_info_map c)
only ethereum q = or_false (q (chain_info_map ethereum))
only solana q = or_false (q (chain_info_map solana))
only polygon q = or_false (q (chain_info_map polygon))
only bsc q = or_false (q (chain_info_map bsc))
only ethereum_goerli q = or_false (q (chain_info_map ethereum_goerli))
only ethereum_sepolia q = or_false (q (chain_info_map ethereum_sepolia))
only solana_devnet q = or_false (q (chain_info_map solana_devnet))
only bsc_testnet q = or_false (q (chain_info_map bsc_testnet))
only polygon_mumbai q = or_false (q (chain_info_map polygon_mumbai))

named : (c : ChainName) → value (chain_info_map c).name ≡ value c
named ethereum = refl
named solana = refl
named polygon = refl
named bsc = refl
named ethereum_goerli = refl
named ethereum_sepolia = refl
named solana_devnet = refl
named bsc_testnet = refl
named polygon_mumbai = refl

-- A chain is listed exactly if its service is among the available ones and it is a main net, or test nets
-- are asked for.
pub list_chains_iff :
    {C V : Type 0} (include_testnet : Option Text) (s : ChainServiceFactory C V) (c : ChainName)
    → any (λ l. text_beq (value l.chain_type) (value c)) (list_chains include_testnet s) ≡ (
        (is_true include_testnet || (chain_info_map c).is_mainnet)
        && any (λ name. text_beq name (to_lower (value c))) (get_available_chains s))
unfolding list_chains
list_chains_iff include_testnet s c =
    any-listed (λ l. text_beq (value l.chain_type) (value c))
      (is_listed (is_true include_testnet) (get_available_chains s)) (map chain_info_map all_chains)
    ∙ only c (is_listed (is_true include_testnet) (get_available_chains s))
    ∙ rw (named c) refl

-- What `find` finds in the table is the entry of a chain.
find_info :
    (p : BaseChainInfo → Bool) (cs : List ChainName) (info : BaseChainInfo)
    → find_if p (map chain_info_map cs) ≡ some info
    → (c : ChainName) × (chain_info_map c ≡ info)
find_info p [] info e = absurd (ground (arith, e))
find_info p (c ∷ cs) info e = elim (Bool-cases (p (chain_info_map c))) [
  | inl here ↦
      let same : some (chain_info_map c) ≡ some info = rw here at e in (c, ground (arith, same))
  | inr later ↦ find_info p cs info (rw later at e)
]

-- The test net of a chain, by the text of the chain.
pub record IsTestnetOf (input : Text) (n : ℕ) : Type 0 where
  pub chain : ChainName
  pub main : ChainName
  pub of_id : (chain_info_map chain).id ≡ n
  pub is_test : (chain_info_map chain).is_mainnet ≡ false
  pub of_main : (chain_info_map chain).mainnet_ref ≡ some main
  pub of_input : value main ≡ input

testnet_facts :
    (input : Text) (info : BaseChainInfo)
    → is_testnet_of input info ≡ true
    → (info.is_mainnet ≡ false)
      × ((main : ChainName) × (info.mainnet_ref ≡ some main) × (value main ≡ input))
testnet_facts input info e = elim (Option-cases info.mainnet_ref) [
  | inl missing ↦ absurd (let f = rw missing at e in ground (arith, f))
  | inr (main, there) ↦
      let f = rw there at e in
      (ground (arith, f), (main, there, (text_beq_iff (value main) input).0 (ground (arith, f))))
]

-- A request for the test net, without a chain ID, calls for the ID of a test net whose main net has the
-- input for its name, if it calls for any; an input that is the name of no main net, such as a
-- symbol, calls for none.
pub requested_chain_id-IsTestnetOf :
    (input : Text) (n : ℕ)
    → requested_chain_id input (some (codes "testnet")) none ≡ some n
    → IsTestnetOf input n
unfolding requested_chain_id
requested_chain_id-IsTestnetOf input n e =
    elim (Option-cases (find_if (is_testnet_of input) (map chain_info_map all_chains))) [
      | inl missing ↦ absurd (let f = rw missing at e in ground (arith, f))
      | inr (info, there) ↦
          let same : some info.id ≡ some n = rw there at e in
          let (chain, is) = find_info (is_testnet_of input) all_chains info there in
          let (test, rest) =
            testnet_facts input info
              (find_if_sound (is_testnet_of input) (map chain_info_map all_chains) info there) in
          let (main, of_main, of_input) = rest in
          record {
            chain = chain;
            main = main;
            of_id = ap (λ i. i.id) is ∙ ground (arith, same);
            is_test = ap (λ i. i.is_mainnet) is ∙ test;
            of_main = ap (λ i. i.mainnet_ref) is ∙ of_main;
            of_input = of_input;
          }
    ]
