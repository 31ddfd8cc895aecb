-- ===== src/Otp/Keys.antt =====
-- Reads of a key after a write of the same key.
use ulmara_backend.Common.{
  arith, find_where, find_where-delete_where_self, none, refl, some, true, ℕ, ◌≡◌,
}
use ulmara_backend.World.{Channel, Db, StoredCode, email_channel, phone_channel}
use ulmara_backend.Otp.{is_key, otp_of, put_code, redis_del, same_channel}

same_channel_refl : (ch : Channel) → same_channel ch ch ≡ true
same_channel_refl email_channel = refl
same_channel_refl phone_channel = refl

pub otp_of-put_code :
    (id : ℕ) (ch : Channel) (value : StoredCode) (ttl : ℕ) (db : Db)
    → otp_of id ch (put_code id ch value ttl db)
      ≡ some (record { user_id = id; channel = ch; value = value; ttl = ttl })
unfolding find_where
otp_of-put_code id ch value ttl db = ground (arith, same_channel_refl ch)

pub otp_of-redis_del :
    (id : ℕ) (ch : Channel) (db : Db) → otp_of id ch (redis_del id ch db).1 ≡ none
otp_of-redis_del id ch db = find_where-delete_where_self (is_key id ch) db.otps
