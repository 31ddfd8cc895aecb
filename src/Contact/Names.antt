-- ===== src/Contact/Names.antt =====
-- The address book: one name per owner, and no operation on another owner's contact.
use mathlib.Core.Path.{subst}
use ulmara_backend.Common.{
  Bool-cases, Option-cases, Text, arith, count_where, count_where-eq-zero_of_find, eq_of_text_eq,
  false, find_where, find_where-delete_where_other, find_where-delete_where_self, inl, inr, none,
  text_eq, trim, ℕ, ◌&&◌, ◌==◌, ◌≡◌, ◌≤◌,
}
use ulmara_backend.World.{Db}
use ulmara_backend.Contact.{
  ContactInput, assert_account_id_exists, check_account, create_contact, insert_contact, is_named,
  is_own, remove_contact,
}

-- No owner has two contacts with one name.
abbrev pub IsNamedOnce : Db → Type 0
IsNamedOnce db = (owner : ℕ) (name : Text) → count_where (is_named owner name) db.contacts ≤ 1

insert_contact-IsNamedOnce :
    (owner : ℕ) (input : ContactInput) (db : Db)
    → IsNamedOnce db
    → IsNamedOnce (insert_contact owner input db).1
unfolding insert_contact count_where
insert_contact-IsNamedOnce owner input db h owner' name' =
    let name = trim input.contact_name in
    elim (Option-cases (find_where (is_named owner name) db.contacts)) [
      | inr (c, taken) ↦ rw taken (h owner' name')
      | inl free ↦ elim (Bool-cases (owner == owner' && text_eq name name')) [
        | inr apart ↦ let before = h owner' name' in rw (free, apart) (omega arith)
        | inl same ↦
            let owners : owner ≡ owner' = ground arith in
            let names = eq_of_text_eq name name' (ground arith) in
            let absent : count_where (is_named owner' name') db.contacts ≡ 0 =
              subst (λ n. count_where (is_named owner' n) db.contacts ≡ 0) names
                (subst (λ o. count_where (is_named o name) db.contacts ≡ 0) owners
                  (count_where-eq-zero_of_find (is_named owner name) db.contacts free)) in
            rw (free, same) (omega arith)
      ]
    ]

-- Creating a contact, also when it is refused, keeps each owner's names distinct.
create_contact-IsNamedOnce :
    (owner : ℕ) (input : ContactInput) (db : Db)
    → IsNamedOnce db
    → IsNamedOnce (create_contact owner input db).1
unfolding create_contact check_account assert_account_id_exists
create_contact-IsNamedOnce owner input db h owner' name' =
    ground (arith, h owner' name', insert_contact-IsNamedOnce owner input db h owner' name')

-- A removal that succeeds leaves no contact of the owner under the id, and whether it succeeds or
-- not, every other owner finds under every id what they found before.
remove_contact_isolated :
    (owner id other id' : ℕ) (db : Db)
    → (owner == other) ≡ false
    → (find_where (is_own owner id) (remove_contact owner id db).1.contacts ≡ none)
      × (find_where (is_own other id') (remove_contact owner id db).1.contacts
          ≡ find_where (is_own other id') db.contacts)
unfolding remove_contact
remove_contact_isolated owner id other id' db apart = (
  ground (arith, find_where-delete_where_self (is_own owner id) db.contacts),
  ground (
    arith,
    find_where-delete_where_other (is_own other id') (is_own owner id) (λ c e. ground arith)
        db.contacts,
  ),
)
