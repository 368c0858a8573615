-- ===== src/Scheduling/Policy/Order.antt =====
-- The orders that the policies sort by are strict total orders on their keys.
use vai_core.Prelude.{true, false, ◌≡◌, arith}
use vai_core.Prelude.Texts.{text_lt-asymm, text_lt-not_trans, text_lt-connex}
use vai_core.Prelude.Sorting.{IsOrder}
use vai_core.Scheduling.Policy.{JobMetadata, older, more_urgent}

older-asymm : (x y : JobMetadata) → older x y ≡ true → older y x ≡ false
unfolding older
older-asymm x y h = ground (arith, text_lt-asymm x.job_id y.job_id)

older-not_trans : (x y z : JobMetadata) → older x y ≡ false → older y z ≡ false → older x z ≡ false
unfolding older
older-not_trans x y z h k = ground (arith, text_lt-not_trans x.job_id y.job_id z.job_id)

pub older-IsOrder : IsOrder older
older-IsOrder = record { asymm = older-asymm; not_trans = older-not_trans }

more_urgent-asymm : (x y : JobMetadata) → more_urgent x y ≡ true → more_urgent y x ≡ false
unfolding more_urgent
more_urgent-asymm x y h = ground (arith, older-asymm x y)

more_urgent-not_trans :
    (x y z : JobMetadata)
    → more_urgent x y ≡ false
    → more_urgent y z ≡ false
    → more_urgent x z ≡ false
unfolding more_urgent
more_urgent-not_trans x y z h k = ground (arith, older-not_trans x y z)

pub more_urgent-IsOrder : IsOrder more_urgent
more_urgent-IsOrder = record { asymm = more_urgent-asymm; not_trans = more_urgent-not_trans }

-- Jobs that neither order puts first have equal keys.
pub older-connex :
    (x y : JobMetadata)
    → older x y ≡ false
    → older y x ≡ false
    → (x.created_at ≡ y.created_at) × (x.job_id ≡ y.job_id)
unfolding older
older-connex x y h k = ground (arith, text_lt-connex x.job_id y.job_id)

pub more_urgent-connex :
    (x y : JobMetadata)
    → more_urgent x y ≡ false
    → more_urgent y x ≡ false
    → (x.priority ≡ y.priority) × (x.created_at ≡ y.created_at) × (x.job_id ≡ y.job_id)
unfolding more_urgent
more_urgent-connex x y h k = ground (arith, older-connex x y)
