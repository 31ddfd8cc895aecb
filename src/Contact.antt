-- ===== src/Contact.antt =====
-- src/services/contact.service.ts: a user's address book. An id or a text that the code reads as
-- missing when it is empty is none here.
pub mod Names
mod Tests
use ulmara_backend.Common.{
  Bool, Option, Text, delete_where, exists_where, find_where, if◌then◌else◌, is_some, none, not,
  or_else, some, text, text_eq, trim, update_where, ℕ, ◌&&◌, ◌+◌, ◌==◌, ◌||◌, ◌∷◌,
}
use ulmara_backend.World.{
  Chain, Contact, Error, M, coded, err, gets, ok, or_throw, pure, throw_if, ⊤, ◌>>=◌, ◌>>◌,
}

pub record ContactInput : Type 0 where
  pub contact_name : Text
  pub contact_account : Option ℕ
  pub contact_address : Option Text
  pub contact_chain : Option Chain

-- `assertAccountIdExists`
unfoldable pub assert_account_id_exists : ℕ → M ⊤
assert_account_id_exists account db =
    if exists_where (λ row. row.account_id == account) db.account_ids
    then (ok tt, db)
    else (err (coded 404 (text "Account ID not found")), db)

unfoldable pub check_account : Option ℕ → M ⊤
check_account none = pure tt
check_account (some account) = assert_account_id_exists account

abbrev pub is_named : (owner : ℕ) → Text → Contact → Bool
is_named owner name c = c.owner_id == owner && text_eq c.name name

abbrev pub is_own : (owner id : ℕ) → Contact → Bool
is_own owner id c = c.id == id && c.owner_id == owner

abbrev duplicate_name : Error
duplicate_name = coded 409 (text "You already have a contact with that name")

-- `prisma.contact.create`: owner and name are unique together; the violation answers 409.
unfoldable pub insert_contact : (owner : ℕ) → ContactInput → M Contact
insert_contact owner input db =
    let row : Contact = record {
      id = db.next_id;
      owner_id = owner;
      account_id = input.contact_account;
      name = trim input.contact_name;
      address = input.contact_address;
      chain = input.contact_chain;
    } in
    if exists_where (is_named owner (trim input.contact_name)) db.contacts
    then (err duplicate_name, db)
    else (ok row, record db { next_id = db.next_id + 1; contacts = row ∷ db.contacts })

-- `create`
unfoldable pub create_contact : (owner : ℕ) → ContactInput → M Contact
create_contact owner input = do
  throw_if (not (is_some input.contact_account || is_some input.contact_address))
      (coded 400 (text "accountId or address is required"))
  check_account input.contact_account
  insert_contact owner input

abbrev renamed : Option Text → Text → Text
renamed none held = held
renamed (some name) held = trim name

abbrev repointed : Option Text → Option ℕ → Contact → Contact
repointed name account c = record c {
  name = renamed name c.name;
  account_id = or_else account c.account_id;
}

-- another contact of the owner has the new name
abbrev clashes : Contact → Contact → Bool
clashes c other = is_named c.owner_id c.name other && not (other.id == c.id)

-- `prisma.contact.update` of the row that was found
unfoldable write_contact : (id : ℕ) → Option Text → Option ℕ → Contact → M Contact
write_contact id name account c db =
    if exists_where (clashes (repointed name account c)) db.contacts
    then (err duplicate_name, db)
    else (
      ok (repointed name account c),
      record db {
        contacts = update_where (λ row. row.id == id) (repointed name account) db.contacts;
      },
    )

-- `update`
unfoldable update_contact : (owner id : ℕ) → Option Text → Option ℕ → M Contact
update_contact owner id name account = do
  found ← gets (λ db. find_where (is_own owner id) db.contacts)
  c ← or_throw found (coded 404 (text "Contact not found"))
  check_account account
  write_contact id name account c

-- `remove`
unfoldable pub remove_contact : (owner id : ℕ) → M ⊤
remove_contact owner id db =
    if exists_where (is_own owner id) db.contacts
    then (ok tt, record db { contacts = delete_where (is_own owner id) db.contacts })
    else (err (coded 404 (text "Contact not found")), db)
