-- ===== src/Paging/Bounds.antt =====
-- What compute_paging_limits promises to the queries that use its result.
use almighty_core.Prelude.{arith, Option}
use almighty_core.Prelude.Int.{ℤ, pos, ◌≤ℤ◌}
use almighty_core.Prelude.Texts.{Text}
use almighty_core.Paging.{compute_paging_limits, page_size_max}

-- Whatever the request asks, the offset is at least 0 and the page size is from 1 to page_size_max.
pub limits_bounded :
    (o : Option Text) (l : Option ℤ)
    → (pos 0 ≤ℤ (compute_paging_limits o l).0)
      × (pos 1 ≤ℤ (compute_paging_limits o l).1)
      × ((compute_paging_limits o l).1 ≤ℤ page_size_max)
unfolding compute_paging_limits
limits_bounded o l = ground arith
