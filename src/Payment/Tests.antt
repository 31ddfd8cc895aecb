-- ===== src/Payment/Tests.antt =====
-- Runs of payment requests on concrete states.
use ulmara_backend.Common.{
  [], exists_where, false, find_where, is_id, not, refl, some, text_eq, ◌&&◌, ◌==◌, ◌∷◌, ◌≡◌,
}
use ulmara_backend.World.{
  Db, Env, PaymentRequest, Transaction, completed, fulfilled, ok, open_request,
}
use ulmara_backend.Payment.{
  fulfill_request, is_reached, pay_request, set_fulfilled, write_fulfilled,
}
use ulmara_backend.Payment.Fulfil.{Pays, fulfill_request_sound}
use ulmara_backend.Sample.{asked_payment, sample_db, sample_env, waiting_tx}

abbrev paid_tx : Transaction
paid_tx = record waiting_tx { status = completed }

abbrev paid_db : Db
paid_db = record sample_db { transactions = paid_tx ∷ [] }

abbrev settled_db : Db
settled_db = (fulfill_request sample_env 70 1 10 paid_db).1

fulfill_request_sound_example :
    (r : PaymentRequest) × (t : Transaction) × (held : PaymentRequest) × (find_where
        (λ q. q.id == 70)
        paid_db.payment_requests
      ≡ some r)
    × (find_where (λ x. x.id == 10 && x.sender_id == 1) paid_db.transactions ≡ some t)
    × (r.status ≡ open_request)
    × (is_reached r.expires_at 1000 ≡ false)
    × ((r.user_id == 1) ≡ false)
    × (t.status ≡ completed)
    × Pays paid_db r t
    × (exists_where
          (λ q. is_id q.fulfilled_transaction_id t.id && not (q.id == 70))
          paid_db.payment_requests
        ≡ false)
    × (find_where (λ q. q.id == 70) paid_db.payment_requests ≡ some held)
    × (set_fulfilled 10 1000 asked_payment ≡ record held {
      status = fulfilled;
      fulfilled_transaction_id = some t.id;
      fulfilled_at = some 1000;
    })
unfolding fulfill_request find_where pay_request text_eq write_fulfilled
fulfill_request_sound_example =
    fulfill_request_sound sample_env 70 1 10 paid_db settled_db
      (set_fulfilled 10 1000 asked_payment) refl

-- Another payment settles the request while this one is checked, and is overwritten.
abbrev rival_payment : PaymentRequest
rival_payment = set_fulfilled 11 1000 asked_payment

abbrev rival_env : Env
rival_env = record sample_env {
  others = λ k db. record db { payment_requests = rival_payment ∷ [] };
}

fulfill_request-overwrites :
    (fulfill_request rival_env 70 1 10 paid_db).0 ≡ ok (set_fulfilled 10 1000 asked_payment)
unfolding fulfill_request find_where pay_request text_eq write_fulfilled
fulfill_request-overwrites = refl
