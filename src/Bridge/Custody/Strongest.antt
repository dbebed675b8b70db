-- ===== src/Bridge/Custody/Strongest.antt =====
-- On `strongest_custody` of domain/bridge/custody.py.
use lemon_ledger.Prelude.{ℕ, ◌≡◌, refl, arith, ltb, if◌then◌else◌, Option, none, some}
use lemon_ledger.Models.{Session, Chain, CustodyRecognition, recognized, inferred, unknown}
use lemon_ledger.Bridge.Custody.{recognize_custody, strongest_custody, custody_loop, custody_round}

-- The priority that the docstring names: recognized > inferred > unknown.
abbrev pub rank : CustodyRecognition → ℕ
rank recognized = 2
rank inferred = 1
rank unknown = 0

-- The recognition of one leg.
abbrev pub leg_custody : Session → Option ℕ → Chain → CustodyRecognition
leg_custody s none chain = unknown
leg_custody s (some address) chain = recognize_custody s address chain

-- The address that goes with a recognition that is not unknown.
abbrev pub shown : CustodyRecognition → Option ℕ → Option ℕ
shown unknown address = none
shown _ address = address

-- The recognition of a leg and its address.
abbrev pub of_leg : Session → Option ℕ → Chain → CustodyRecognition × Option ℕ
of_leg s address chain = (leg_custody s address chain, shown (leg_custody s address chain) address)

abbrev pub stronger :
    CustodyRecognition × Option ℕ → CustodyRecognition × Option ℕ → CustodyRecognition × Option ℕ
stronger out inf = if ltb (rank out.0) (rank inf.0) then inf else out

-- The result is the recognition of the leg with the higher rank, the outflow's where they are
-- equal, with that leg's address, or no address where neither is known.
pub strongest_custody-max :
    (s : Session) (out inf : Option ℕ) (out_chain in_chain : Chain)
    → strongest_custody s out inf out_chain in_chain
      ≡ stronger (of_leg s out out_chain) (of_leg s inf in_chain)
unfolding strongest_custody custody_loop custody_round
strongest_custody-max s none none out_chain in_chain = refl
strongest_custody-max s none (some inf) out_chain in_chain = ground arith
strongest_custody-max s (some out) none out_chain in_chain = ground arith
strongest_custody-max s (some out) (some inf) out_chain in_chain = ground arith
