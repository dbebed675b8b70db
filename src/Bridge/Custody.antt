-- ===== src/Bridge/Custody.antt =====
-- domain/bridge/custody.py: the recognition of custody addresses, and how they are learned.
pub mod Strongest
pub mod Learned
use lemon_ledger.Prelude.{
  ℕ, leb, ◌==◌, if◌then◌else◌, Bool, true, false, ◌&&◌, Option, none, some, List, [], ◌∷◌, ◌++◌,
  find, filter, update, any, length,
}
use lemon_ledger.Models.{
  Session, Chain, same_chain, get_event, BridgeCorrelation, BridgeStatus, confirmed, CustodyAddress,
  CustodyRecognition, recognized, inferred, unknown, CustodySource, curated, learned,
}

-- The row of the address on the chain, which `uq_custody_chain_address` makes unique.
abbrev pub at_custody : ℕ → Chain → CustodyAddress → Bool
at_custody address chain row = same_chain row.chain chain && row.address == address

unfoldable pub recognize_custody : Session → ℕ → Chain → CustodyRecognition
recognize_custody s address chain = elim (find (at_custody address chain) s.custody) [
  | none ↦ unknown
  | some row ↦ row.recognition
]

-- What one round of the loop does with the best so far. The Boolean says whether the call
-- returns from within the loop.
unfoldable pub custody_round :
    CustodyRecognition → ℕ → CustodyRecognition × Option ℕ → Bool × CustodyRecognition × Option ℕ
custody_round recognized addr best = (true, recognized, some addr)
custody_round inferred addr (unknown, winning) = (false, inferred, some addr)
custody_round _ addr (best, winning) = (false, best, winning)

unfoldable pub custody_loop :
    Session
    → List (Option ℕ × Chain)
    → CustodyRecognition × Option ℕ
    → CustodyRecognition × Option ℕ
custody_loop s [] best = best
custody_loop s ((none, chain) ∷ legs) best = custody_loop s legs best
custody_loop s ((some addr, chain) ∷ legs) best =
    let (leaves, level, winning) = custody_round (recognize_custody s addr chain) addr best in
    let rest = custody_loop s legs (level, winning) in if leaves then (level, winning) else rest

unfoldable pub strongest_custody :
    Session → Option ℕ → Option ℕ → Chain → Chain → CustodyRecognition × Option ℕ
strongest_custody s outflow_contract inflow_contract outflow_chain inflow_chain =
    custody_loop s ((outflow_contract, outflow_chain) ∷ (inflow_contract, inflow_chain) ∷ [])
      (unknown, none)

abbrev pub is_confirmed : BridgeStatus → Bool
is_confirmed confirmed = true
is_confirmed _ = false

abbrev pub is_curated : CustodySource → Bool
is_curated curated = true
is_curated learned = false

-- A row of the aggregate before it is grouped: the address, the chain of the outflow event, and
-- the user.
pub record Confirmation : Type 0 where
  pub address : ℕ
  pub chain : Chain
  pub user_id : ℕ

unfoldable pub confirmation_of : Session → BridgeCorrelation → Option Confirmation
confirmation_of s c =
    if is_confirmed c.status
    then elim c.matched_custody_address [
      | none ↦ none
      | some address ↦ elim c.outflow_classified_event_id [
        | none ↦ none
        | some event_id ↦ elim (get_event s event_id) [
          | none ↦ none
          | some ct ↦ some (record { address = address; chain = ct.chain; user_id = c.user_id })
        ]
      ]
    ]
    else none

unfoldable pub confirmations : Session → List BridgeCorrelation → List Confirmation
confirmations s [] = []
confirmations s (c ∷ cs) =
    let rest = confirmations s cs in
    elim (confirmation_of s c) [ none ↦ rest | some confirmation ↦ confirmation ∷ rest ]

abbrev pub same_group : Confirmation → Confirmation → Bool
same_group a b = same_chain a.chain b.chain && a.address == b.address

-- `count(distinct(user_id))`
unfoldable pub distinct_users : List Confirmation → List ℕ
distinct_users [] = []
distinct_users (c ∷ cs) =
    let rest = distinct_users cs in
    if any (λ u. u == c.user_id) rest then rest else c.user_id ∷ rest

-- A row that the aggregate yields.
pub record Frequency : Type 0 where
  pub address : ℕ
  pub chain : Chain
  pub unique_users : ℕ
  pub pair_count : ℕ

abbrev pub frequency_of : List Confirmation → Confirmation → Frequency
frequency_of all c =
    let group = filter (same_group c) all in
    record {
      address = c.address;
      chain = c.chain;
      unique_users = length (distinct_users group);
      pair_count = length group;
    }

-- The groups that reach the threshold. A group is listed at the last of its rows.
unfoldable pub frequencies : ℕ → List Confirmation → List Confirmation → List Frequency
frequencies threshold all [] = []
frequencies threshold all (c ∷ cs) =
    let rest = frequencies threshold all cs in
    if any (same_group c) cs
    then rest
    else if leb threshold (frequency_of all c).unique_users
    then frequency_of all c ∷ rest
    else rest

abbrev pub counted : Frequency → CustodyAddress → CustodyAddress
counted f row = record row {
  confirmed_pair_count = f.pair_count;
  unique_user_count = f.unique_users;
}

abbrev pub learned_row : Session → Frequency → CustodyAddress
learned_row s f = record {
  chain = f.chain;
  address = f.address;
  recognition = inferred;
  source = learned;
  confirmed_pair_count = f.pair_count;
  unique_user_count = f.unique_users;
  promoted_at = some s.runtime.now;
}

-- One round of the loop over the rows of the aggregate.
unfoldable pub promote : Frequency → Session → Session
promote f s = elim (find (at_custody f.address f.chain) s.custody) [
  | none ↦ record s { custody = s.custody ++ (learned_row s f ∷ []) }
  | some existing ↦
      if is_curated existing.source
      then s
      else record s { custody = update (at_custody f.address f.chain) (counted f) s.custody }
]

unfoldable pub promote_all : List Frequency → Session → Session
promote_all [] s = s
promote_all (f ∷ fs) s = promote_all fs (promote f s)

abbrev pub default_threshold : ℕ
default_threshold = 5

unfoldable pub learn_custody_addresses : Session → ℕ → Session
learn_custody_addresses s threshold =
    let all = confirmations s s.correlations in promote_all (frequencies threshold all all) s
