-- ===== src/Provider/Bitnob/Operations.antt =====
-- `createCustomer`, `createDeposit` and `createWithdrawal` of the Bitnob adapter.
use ulmara_backend.Common.{
  List, Option, Text, [], join_words, none, some, text, trim, words, ◌++◌, ◌∷◌,
}
use ulmara_backend.World.{err, ok, pending, thrown}
use ulmara_backend.Json.{Json, literal, non_empty, null, object, quoted, quoted_if, spread, text_at}
use ulmara_backend.Provider.{Bank, Calls, Net, RampCustomer, RampInstruction, done, ◌>>=◌}
use ulmara_backend.Provider.Bitnob.{BitnobConfig, map_payout_status, request}

-- what the operations return, from the objects that Bitnob answers
unfoldable pub customer_of : Json → Text → Option Text → RampCustomer
customer_of answer email name = record {
  provider_customer_id = text_at (text "id") answer;
  email = elim (text_at (text "email") answer) [ none ↦ email | some e ↦ e ];
  name = name;
}

unfoldable pub deposit_of : Text → Text → Json → RampInstruction
deposit_of reference amount account = record {
  reference = reference;
  provider_reference = text_at (text "id") account;
  status = pending;
  payment_instructions = some (record {
    account_number = text_at (text "account_number") account;
    bank_name = text_at (text "bank_name") account;
    account_name = text_at (text "account_name") account;
    amount_ngn = some amount;
    checkout_url = none;
  });
}

unfoldable pub withdrawal_of : Text → Json → RampInstruction
withdrawal_of reference payout = record {
  reference = reference;
  provider_reference = text_at (text "id") payout;
  status = map_payout_status (text_at (text "status") payout);
  payment_instructions = none;
}

abbrev beneficiary : Bank → List (Text × Option Json)
beneficiary bank =
    (text "account_number", quoted bank.account_number)
    ∷ (text "bank_code", quoted bank.bank_code)
    ∷ (text "account_name", quoted bank.account_name)
    ∷ (text "country", quoted (text "NG"))
    ∷ []

-- `${quote.id}` in a path
abbrev id_in_path : Json → Text
id_in_path j = elim (text_at (text "id") j) [ none ↦ text "undefined" | some i ↦ i ]

module _ (net : Net) (config : BitnobConfig) where
  -- A property read on `null` throws.
  abbrev read_of : Json → Calls Json
  read_of null log = (err (thrown (text "Cannot read properties of null")), log)
  read_of j log = (ok j, log)

  abbrev post : Text → List (Text × Option Json) → Calls Json
  post path fields = request net config path (some (object (literal fields))) >>= read_of

  -- the first word of a trimmed name, and the rest
  abbrev first_word : List Text → Option Text
  first_word [] = none
  first_word (w ∷ ws) = some w

  abbrev other_words : List Text → Text
  other_words [] = []
  other_words (w ∷ ws) = join_words ws

  -- `createCustomer`
  unfoldable pub bitnob_create_customer : Text → Option Text → Text → Calls RampCustomer
  bitnob_create_customer email name reference = do
    let parts = words (trim (elim name [ none ↦ [] | some n ↦ n ]))
    answer ← post (text "/api/customers") (
        (text "first_name", quoted_if (non_empty (first_word parts)))
        ∷ (text "last_name", quoted_if (non_empty (some (other_words parts))))
        ∷ (text "email", quoted email)
        ∷ (text "reference", quoted reference)
        ∷ (text "type", quoted (text "individual"))
        ∷ [])
    done (customer_of answer email name)

  -- `createDeposit`
  unfoldable pub bitnob_create_deposit : Text → Text → RampCustomer → Calls RampInstruction
  bitnob_create_deposit reference amount customer = do
    account ← post (text "/api/virtual-accounts") (
        (text "customer_id", quoted_if customer.provider_customer_id)
        ∷ (text "reference", quoted reference)
        ∷ [])
    done (deposit_of reference amount account)

  unfoldable pub quote_payout : (reference amount : Text) → Calls Json
  quote_payout reference amount = post (text "/api/payouts/quotes") (
      (text "source", quoted (text "OFFCHAIN"))
      ∷ (text "from_asset", quoted (text "USDT"))
      ∷ (text "to_currency", quoted (text "ngn"))
      ∷ (text "amount", quoted amount)
      ∷ (text "country", quoted (text "NG"))
      ∷ (text "reference", quoted reference)
      ∷ [])

  unfoldable pub initialize_payout : (reference : Text) → Bank → Json → Calls Json
  initialize_payout reference bank quote =
      post (text "/api/payouts/" ++ (id_in_path quote ++ text "/initialize")) (
        (text "beneficiary", some (object (literal (beneficiary bank))))
        ∷ (text "reference", quoted reference)
        ∷ (text "payment_reason", quoted (text "Crypto offramp"))
        ∷ [])

  unfoldable pub finalize_payout : (reference : Text) → Json → Calls Json
  finalize_payout reference initialized =
      request net config (text "/api/payouts/" ++ (id_in_path initialized ++ text "/finalize"))
        (some (object (literal ((text "reference", quoted reference) ∷ []))))

  -- `createWithdrawal`
  unfoldable pub bitnob_create_withdrawal :
      Text → Text → RampCustomer → Bank → Calls RampInstruction
  bitnob_create_withdrawal reference amount customer bank = do
    quote ← quote_payout reference amount
    initialized ← initialize_payout reference bank quote
    finalized ← finalize_payout reference initialized
    done (withdrawal_of reference (spread initialized finalized))
