-- ===== src/Money/Tests.antt =====
-- Runs of the money operations on concrete amounts.
use ulmara_backend.Common.{true, ◌*◌, ◌<◌, ◌↔◌, ◌≡◌, ◌≤◌}
use ulmara_backend.World.{ok}
use ulmara_backend.Money.{assert_valid_ngn_amount, is_ngn_shape}
use ulmara_backend.Money.Ngn.{assert_valid_ngn_amount_iff}
use ulmara_backend.Money.Units.{units}
use ulmara_backend.Sample.{amount_long, sample_db}

assert_valid_ngn_amount_iff_example :
    (assert_valid_ngn_amount amount_long 1 1000 sample_db ≡ (ok tt, sample_db)) ↔ (
      (is_ngn_shape amount_long ≡ true)
      × (0 < units 2 amount_long)
      × (1 * 100 ≤ units 2 amount_long)
      × (units 2 amount_long ≤ 1000 * 100))
assert_valid_ngn_amount_iff_example = assert_valid_ngn_amount_iff amount_long 1 1000 sample_db
