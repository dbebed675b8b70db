-- ===== src/Bridge/Custody/Learned.antt =====
-- On `learn_custody_addresses` of domain/bridge/custody.py.
use lemon_ledger.Prelude.{ℕ, ◌≤◌, ◌≡◌, Option, List, ◌++◌, map, filter, length, ◌&&◌, ◌==◌, All}
use lemon_ledger.Models.{
  Chain, same_chain, CustodyAddress, CustodySource, learned, CustodyRecognition, inferred,
}
use lemon_ledger.Bridge.Custody.{Confirmation, distinct_users}

-- The users among the confirmations of an address on a chain, each once.
abbrev pub supporters : List Confirmation → Chain → ℕ → List ℕ
supporters all chain address =
    distinct_users (filter (λ c. same_chain chain c.chain && address == c.address) all)

-- At least `threshold` users confirmed the address.
abbrev pub IsSupported : ℕ → List Confirmation → Chain → ℕ → Type 0
IsSupported threshold all chain address = threshold ≤ length (supporters all chain address)

-- What a row says of its address, apart from the two counters.
pub record Verdict : Type 0 where
  pub chain : Chain
  pub address : ℕ
  pub recognition : CustodyRecognition
  pub source : CustodySource
  pub promoted_at : Option ℕ

abbrev pub verdict : CustodyAddress → Verdict
verdict r = record {
  chain = r.chain;
  address = r.address;
  recognition = r.recognition;
  source = r.source;
  promoted_at = r.promoted_at;
}

-- The rows of `new` are those of `old`, with the same verdicts in the same order, and then rows
-- that were learned for addresses that at least `threshold` users confirmed.
pub record Promotes (threshold : ℕ) (all : List Confirmation) (old new : List CustodyAddress)
    : Type 0 where
  pub added : List CustodyAddress
  pub verdicts : map verdict new ≡ map verdict old ++ map verdict added
  pub earned :
      All
        (λ r.
          (r.recognition ≡ inferred)
          × (r.source ≡ learned)
          × IsSupported threshold all r.chain r.address)
        added
