-- ===== src/Paging/Tests.antt =====
-- The theorems about addresses, at the base of the upper half.
use os_course_term.Common.{◌+◌, ◌^◌, ◌<◌, ◌≤◌, ◌≡◌, ◌⊎◌, arith}
use os_course_term.Paging.{canonical, linear}
use os_course_term.Paging.Addresses.{linear-canonical}

linear-canonical_example :
    (linear (canonical (2 ^ 47)) ≡ 2 ^ 47)
    × ((canonical (2 ^ 47) < 2 ^ 47) ⊎ (2 ^ 64 ≤ canonical (2 ^ 47) + 2 ^ 47))
    × (canonical (2 ^ 47) < 2 ^ 64)
linear-canonical_example = linear-canonical (2 ^ 47) (omega arith)
