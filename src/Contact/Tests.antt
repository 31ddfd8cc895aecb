-- ===== src/Contact/Tests.antt =====
-- The sample state meets the invariant of the address book.
use ulmara_backend.Common.{arith, count_where}
use ulmara_backend.Contact.Names.{IsNamedOnce}
use ulmara_backend.Sample.{sample_db}

sample-IsNamedOnce : IsNamedOnce sample_db
unfolding count_where
sample-IsNamedOnce owner name = ground arith
