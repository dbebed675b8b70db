-- ===== src/Classify/Orchestrator/Claims.antt =====
-- On `_common_transfer_events` of `classify_bundle` in classify/orchestrator.py.
use mathlib.Core.List.{Mem}
use lemon_ledger.Prelude.{◌==◌, ◌≡◌, ◌≢◌, ◌⊎◌, if◌then◌else◌, Bool, true, ◌||◌, List, All}
use lemon_ledger.Models.{ClassificationKind, transfer_in, transfer_out, burn, RawTokenTransfer}
use lemon_ledger.Classify.Types.{ClassifiedEvent, Work, one_piece, has, text_of}
use lemon_ledger.Classify.Context.{WalletContext}
use lemon_ledger.Classify.Orchestrator.{token_amount}

-- The transfer goes to the wallet or comes from it.
abbrev pub touches : WalletContext → RawTokenTransfer → Bool
touches ctx t = text_of t.to == ctx.wallet_address || text_of t.sender == ctx.wallet_address

-- The kind that the common layer gives a transfer: an arrival, or else a burn or a departure.
abbrev pub IsKindOf : WalletContext → RawTokenTransfer → ClassificationKind → Type 0
IsKindOf ctx t kind =
    (text_of t.to ≡ ctx.wallet_address) × (kind ≡ transfer_in)
    ⊎ (text_of t.to ≢ ctx.wallet_address)
      × (text_of t.sender ≡ ctx.wallet_address)
      × ((kind ≡ burn) ⊎ (kind ≡ transfer_out))

-- The event is that of a transfer with the log index of `t`.
pub record IsEventOf (ctx : WalletContext) (t : RawTokenTransfer) (e : ClassifiedEvent)
    : Type 0 where
  pub transfer : RawTokenTransfer
  pub index_of : transfer.log_index ≡ t.log_index
  pub kind_of : IsKindOf ctx transfer e.classification
  pub contract_of : e.contract_address ≡ transfer.contract_address
  pub amount_of : e.amount ≡ (if transfer.has_token_id then one_piece else token_amount transfer)

abbrev pub Booked : WalletContext → RawTokenTransfer → List ClassifiedEvent → Type 0
Booked ctx t events = (e : ClassifiedEvent) × Mem e events × IsEventOf ctx t e

module _ (ctx : WalletContext) where
  -- The claims of `later` hold those of `now`.
  abbrev Grows : Work → Work → Type 0
  Grows now later = (t : RawTokenTransfer) → has t now.claims ≡ true → has t later.claims ≡ true

  abbrev pub Claimed : List RawTokenTransfer → Work → Type 0
  Claimed ts w = All (λ t. touches ctx t ≡ true → has t w.claims ≡ true) ts

  -- What is claimed in `later` was claimed in `now`, or has an event there.
  abbrev Accounts : Work → Work → Type 0
  Accounts now later =
      (t : RawTokenTransfer)
      → has t later.claims ≡ true
      → (has t now.claims ≡ true) ⊎ Booked ctx t later.events

  -- Every transfer of the list that touches the wallet was claimed before, or has its event.
  abbrev pub Decided : List RawTokenTransfer → Work → Work → Type 0
  Decided ts now later =
      All (λ t. touches ctx t ≡ true → (has t now.claims ≡ true) ⊎ Booked ctx t later.events) ts
