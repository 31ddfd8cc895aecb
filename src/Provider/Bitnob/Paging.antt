-- ===== src/Provider/Bitnob/Paging.antt =====
-- The search of a payout over the pages of the list.
use ulmara_backend.Common.{
  List, Option, Text, [], arith, inl, inr, is_text, none, refl, some, suc, text, true, zero, ℕ, ◌+◌,
  ◌∷◌, ◌≡◌, ◌≤◌,
}
use ulmara_backend.World.{Result-cases, ok}
use ulmara_backend.Json.{
  Items, Json, array, boolean, item, no_items, null, number, object, string, text_at,
}
use ulmara_backend.Provider.{Net, RampStatusResult, Request}
use ulmara_backend.Provider.Bitnob.{BitnobConfig, request}
use ulmara_backend.Provider.Bitnob.Status.{
  bitnob_get_status, find_listed, find_payout, listed, max_pages, page_path, read_page, report,
  search_pages, status_of_payout,
}

-- The requests of a log.
unfoldable calls_made : List Request → ℕ
calls_made [] = 0
calls_made (r ∷ rs) = suc (calls_made rs)

find_payout_sound :
    (reference : Text) (xs : Items) (p : Json)
    → find_payout reference xs ≡ ok (some p)
    → is_text (text_at (text "reference") p) reference ≡ true
unfolding find_payout
find_payout_sound reference no_items p h = absurd (cc)
find_payout_sound reference (item q rest) p h = ground (arith, find_payout_sound reference rest p)

find_listed_sound :
    (reference : Text) (j : Option Json) (p : Json)
    → find_listed reference j ≡ ok (some p)
    → is_text (text_at (text "reference") p) reference ≡ true
unfolding find_listed
find_listed_sound reference none p h = absurd (cc)
find_listed_sound reference (some null) p h = absurd (cc)
find_listed_sound reference (some (boolean b)) p h = absurd (cc)
find_listed_sound reference (some (number n)) p h = absurd (cc)
find_listed_sound reference (some (string t)) p h = absurd (cc)
find_listed_sound reference (some (array xs)) p h = find_payout_sound reference xs p h
find_listed_sound reference (some (object fs)) p h = absurd (cc)

module _ (net : Net) (config : BitnobConfig) (reference : Text) where
  read_page_sound :
      (page : ℕ) (log : List Request) (p : Json)
      → (read_page net config reference page log).0 ≡ ok (some p)
      → is_text (text_at (text "reference") p) reference ≡ true
  unfolding read_page
  read_page_sound page log p h =
      elim (Result-cases (request net config (page_path net config reference page) none log).0) [
        | inl (answer, got) ↦ ground (arith, find_listed_sound reference (listed answer) p)
        | inr (e, failure) ↦ absurd (ground arith)
      ]

  read_page_calls :
      (page : ℕ) (log : List Request)
      → calls_made (read_page net config reference page log).1 ≡ suc (calls_made log)
  unfolding read_page request calls_made
  read_page_calls page log = ground arith

  search_pages_sound :
      (left page : ℕ) (log : List Request) (p : Json)
      → (search_pages net config reference left page log).0 ≡ ok (some p)
      → is_text (text_at (text "reference") p) reference ≡ true
  unfolding search_pages
  search_pages_sound zero page log p h = absurd (cc)
  search_pages_sound (suc left) page log p h =
      elim (Result-cases (read_page net config reference page log).0) [
        | inl (none, got) ↦ ground (
          arith,
          search_pages_sound left (page + 1) (read_page net config reference page log).1 p,
        )
        | inl (some q, got) ↦ ground (arith, read_page_sound page log p)
        | inr (e, failure) ↦ absurd (ground arith)
      ]

  search_pages_calls :
      (left page : ℕ) (log : List Request)
      → calls_made (search_pages net config reference left page log).1 ≤ left + calls_made log
  unfolding search_pages
  search_pages_calls zero page log = ground arith
  search_pages_calls (suc left) page log = ground (
    arith,
    read_page_calls page log,
    search_pages_calls left (page + 1) (read_page net config reference page log).1,
  )

  pub search_pages-none :
      ((page : ℕ) (log : List Request) → (read_page net config reference page log).0 ≡ ok none)
      → (left page : ℕ) (log : List Request)
      → (search_pages net config reference left page log).0 ≡ ok none
  unfolding search_pages
  search_pages-none h zero page log = refl
  search_pages-none h (suc left) page log = ground (
    arith,
    h page log,
    search_pages-none h left (page + 1) (read_page net config reference page log).1,
  )

report_calls :
    (reference : Text) (found : Option Json) (log : List Request)
    → calls_made (report reference found log).1 ≡ calls_made log
unfolding report
report_calls reference none log = refl
report_calls reference (some p) log = refl

found_status :
    (reference : Text) (found : Option Json) (log : List Request) (r : RampStatusResult)
    → (report reference found log).0 ≡ ok r
    → (p : Json) × (found ≡ some p) × (r ≡ status_of_payout reference p)
unfolding report
found_status reference none log r h = absurd (cc)
found_status reference (some p) log r h = (p, refl, ground arith)

-- `getStatus` of the Bitnob adapter makes at most five requests, whatever is answered, and what it
-- returns is read from a listed payout that carries the reference asked for.
bitnob_get_status_sound :
    (net : Net) (config : BitnobConfig) (reference : Text) (log : List Request)
    → (calls_made (bitnob_get_status net config reference log).1 ≤ 5 + calls_made log)
      × ((r : RampStatusResult)
          → (bitnob_get_status net config reference log).0 ≡ ok r
          → (p : Json) × (is_text (text_at (text "reference") p) reference ≡ true)
            × (r ≡ status_of_payout reference p))
unfolding bitnob_get_status
bitnob_get_status_sound net config reference log =
    let search = search_pages net config reference max_pages 1 log in
    let few = search_pages_calls net config reference max_pages 1 log in
    elim (Result-cases search.0) [
      | inl (found, got) ↦ (
        ground (arith, few, report_calls reference found search.1),
        λ r h.
            let told : (report reference found search.1).0 ≡ ok r = ground arith in
            let (p, same, read) = found_status reference found search.1 r told in
            (p, search_pages_sound net config reference max_pages 1 log p (rw same at got), read),
      )
      | inr (e, failure) ↦ (ground (arith, few), λ r h. absurd (ground arith))
    ]
