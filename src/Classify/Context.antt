-- ===== src/Classify/Context.antt =====
-- classify/context.py: what a decoder may read and write. The cache of configurations holds the
-- session's objects, so a lookup in it is a lookup in the session.
use text.Mathlib.Text.{◌==◌ as str_eq}
use lemon_ledger.Prelude.{
  ℕ, ◌==◌, opt_eq, if◌then◌else◌, Bool, true, false, ◌&&◌, not, Option, none, some, String, List,
  [], ◌∷◌, ◌++◌, map, find, filter, update, any,
}
use lemon_ledger.Models.{
  Session, Chain, same_chain, TokenRegistry, get_token, L2DecoderConfig, status_discovered,
  DecoderClass, lqst_decoder, thin_decoder, unregistered_decoder, BurnConfidence, discovered_burn,
}
use lemon_ledger.Decimal.{Decimal}
use lemon_ledger.Classify.Types.{TxBundle, text_of, no_address}

-- `price` is PricingService.get_historical_price, which a run is given.
pub record WalletContext : Type 0 where
  pub wallet_id : ℕ
  pub chain : Chain
  pub wallet_address : ℕ
  pub user_addrs : List ℕ
  pub price : Chain → ℕ → ℕ → Option Decimal

abbrev pub among : ℕ → List ℕ → Bool
among k ks = any (λ j. j == k) ks

unfoldable pub registry_by_address : Session → WalletContext → ℕ → Option TokenRegistry
registry_by_address s ctx addr =
    find (λ t. same_chain t.chain ctx.chain && opt_eq t.contract_address (some addr)) s.tokens

unfoldable pub registry_by_symbol : Session → WalletContext → String → Option TokenRegistry
registry_by_symbol s ctx symbol =
    find (λ t. same_chain t.chain ctx.chain && str_eq t.symbol symbol) s.tokens

unfoldable pub config_for : Session → ℕ → Option L2DecoderConfig
config_for s token_id = find (λ c. c.token_id == token_id) s.configs

-- The truth value of an address that may be None or "".
abbrev pub is_set : Option ℕ → Bool
is_set none = false
is_set (some address) = not (address == no_address)

abbrev pub set_address : Option ℕ → List ℕ
set_address addr = elim addr [
  | none ↦ []
  | some address ↦ if address == no_address then [] else address ∷ []
]

-- The addresses that the rows of the bundle name.
unfoldable pub bundle_addrs : TxBundle → List ℕ
bundle_addrs b =
    map (λ t. t.contract_address) b.transfers
    ++ elim b.envelope [ none ↦ [] | some e ↦ text_of e.to ∷ text_of e.created_contract ∷ [] ]

unfoldable pub token_address : Session → ℕ → Option ℕ
token_address s token_id = elim (get_token s token_id) [ none ↦ none | some t ↦ t.contract_address ]

unfoldable pub known_addrs : Session → L2DecoderConfig → List ℕ
known_addrs s cfg =
    set_address (token_address s cfg.token_id)
    ++ (set_address cfg.nft_contract
        ++ (set_address cfg.staking_contract ++ set_address cfg.mint_contract))

abbrev pub same_class : DecoderClass → DecoderClass → Bool
same_class lqst_decoder lqst_decoder = true
same_class (thin_decoder a) (thin_decoder b) = a == b
same_class (unregistered_decoder a) (unregistered_decoder b) = a == b
same_class _ _ = false

abbrev pub is_registered : DecoderClass → Bool
is_registered (unregistered_decoder n) = false
is_registered _ = true

abbrev pub overlap : List ℕ → List ℕ → Bool
overlap xs ys = any (λ x. among x ys) xs

-- A decoder: an instance of a class for a token.
pub record DecoderInstance : Type 0 where
  pub class_name : DecoderClass
  pub token_id : ℕ

-- The loop over the configurations of the chain; `seen` holds the classes so far.
unfoldable pub decoders_from :
    Session → TxBundle → List DecoderClass → List L2DecoderConfig → List DecoderInstance
decoders_from s b seen [] = []
decoders_from s b seen (cfg ∷ cfgs) =
    let skipped = decoders_from s b seen cfgs in
    let taken = decoders_from s b (cfg.decoder_class ∷ seen) cfgs in
    if overlap (known_addrs s cfg) (bundle_addrs b)
      && (not (any (λ c. same_class c cfg.decoder_class) seen) && is_registered cfg.decoder_class)
    then record { class_name = cfg.decoder_class; token_id = cfg.token_id } ∷ taken
    else skipped

unfoldable pub decoders_for_bundle : Session → WalletContext → TxBundle → List DecoderInstance
decoders_for_bundle s ctx b =
    decoders_from s b [] (filter (λ c. same_chain c.chain ctx.chain) s.configs)

unfoldable pub set_config : ℕ → (L2DecoderConfig → L2DecoderConfig) → Session → Session
set_config token_id f s = record s { configs = update (λ c. c.token_id == token_id) f s.configs }

abbrev pub with_staking : ℕ → L2DecoderConfig → L2DecoderConfig
with_staking addr c =
    if is_set c.staking_contract
    then c
    else record c { staking_contract = some addr; staking_contract_status = status_discovered }

unfoldable pub propose_staking_contract : ℕ → ℕ → Session → Session
propose_staking_contract token_id addr s = set_config token_id (with_staking addr) s

abbrev pub with_nft : ℕ → L2DecoderConfig → L2DecoderConfig
with_nft addr c =
    if is_set c.nft_contract
    then c
    else record c { nft_contract = some addr; nft_contract_status = status_discovered }

unfoldable pub propose_nft_contract : ℕ → ℕ → Session → Session
propose_nft_contract token_id addr s = set_config token_id (with_nft addr) s

abbrev pub is_sink : BurnConfidence → Bool
is_sink discovered_burn = false
is_sink _ = true

unfoldable pub is_confirmed_burn_address : Session → ℕ → Bool
is_confirmed_burn_address s address =
    any (λ b. is_sink b.confidence && b.address == address) s.burns

unfoldable pub is_tracked_wallet : WalletContext → ℕ → Bool
is_tracked_wallet ctx addr = among addr ctx.user_addrs
