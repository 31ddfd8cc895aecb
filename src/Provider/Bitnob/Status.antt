-- ===== src/Provider/Bitnob/Status.antt =====
-- `getStatus` of the Bitnob adapter: the list of payouts is read page by page.
use ulmara_backend.Common.{
  Bool, Option, Text, if◌then◌else◌, is_text, none, or_else, show_ℕ, some, suc, text, zero, ℕ, ◌++◌,
  ◌+◌,
}
use ulmara_backend.World.{Error, Result, err, ok, provider_failed, thrown}
use ulmara_backend.Json.{Items, Json, array, is_null, item, member, no_items, null, text_at}
use ulmara_backend.Provider.{Calls, Net, RampStatusResult, done, held, ◌>>=◌}
use ulmara_backend.Provider.Bitnob.{BitnobConfig, map_payout_status, request}

-- `Array.isArray(data) ? data : (data?.data ?? [])`
unfoldable pub listed : Json → Option Json
listed (array xs) = some (array xs)
listed j = member (text "data") j

abbrev names_payout : Text → Json → Bool
names_payout reference p = is_text (text_at (text "reference") p) reference

-- `items.find((p) => p.reference === reference)`, which reads a property of each item
unfoldable pub find_payout : Text → Items → Result (Option Json)
find_payout reference no_items = ok none
find_payout reference (item p rest) =
    let later = find_payout reference rest in
    if is_null p
    then err (thrown (text "Cannot read properties of null"))
    else if names_payout reference p
    then ok (some p)
    else later

unfoldable pub find_listed : Text → Option Json → Result (Option Json)
find_listed reference none = ok none
find_listed reference (some null) = ok none
find_listed reference (some (array xs)) = find_payout reference xs
find_listed reference (some _) = err (thrown (text "items.find is not a function"))

-- `result.settlement_amount ?? result.amount ?? "0"`
unfoldable pub status_of_payout : Text → Json → RampStatusResult
status_of_payout reference p = record {
  reference = reference;
  provider_reference = text_at (text "id") p;
  status = map_payout_status (text_at (text "status") p);
  amount_ngn = elim (or_else (text_at (text "settlement_amount") p) (text_at (text "amount") p)) [
    | none ↦ text "0"
    | some a ↦ a
  ];
  failure_reason = none;
}

abbrev pub max_pages : ℕ
max_pages = 5

abbrev no_payout : Text → Error
no_payout reference =
    provider_failed (text "bitnob") (text "not_found")
      (text "No Bitnob payout found for reference " ++ reference) (some 404)

-- what follows the loop
unfoldable pub report : Text → Option Json → Calls RampStatusResult
report reference none = held (err (no_payout reference))
report reference (some p) = done (status_of_payout reference p)

module _ (net : Net) (config : BitnobConfig) (reference : Text) where
  abbrev pub page_path : ℕ → Text
  page_path page =
      text "/api/payouts?reference=" ++ (net.encode_uri reference ++ (text "&page=" ++ show_ℕ page))

  unfoldable pub read_page : ℕ → Calls (Option Json)
  read_page page = do
    answer ← request net config (page_path page) none
    held (find_listed reference (listed answer))

  -- the loop over the pages, as many as are left
  unfoldable pub search_pages : (left page : ℕ) → Calls (Option Json)
  search_pages zero page = done none
  search_pages (suc left) page = read_page page >>= λ found. elim found [
    | some p ↦ done (some p)
    | none ↦ search_pages left (page + 1)
  ]

  unfoldable pub bitnob_get_status : Calls RampStatusResult
  bitnob_get_status = search_pages max_pages 1 >>= report reference
