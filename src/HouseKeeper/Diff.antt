-- ===== src/HouseKeeper/Diff.antt =====
-- absolute_diff of src/log_topn.c.
use logstats.Base.{ℕ, ◌+◌, ◌-◌, ◌^◌, ◌%◌, ◌<◌, ◌≡◌, ltb, bit, arith}
use logstats.HouseKeeper.{absolute_diff}

-- For two counters of 32 bits, absolute_diff is the step from the first to the second modulo 2^32
-- if the second is not below the first, and one less than that step if it is.
pub absolute_diff-step :
    (first second : ℕ)
    → first < 2 ^ 32
    → second < 2 ^ 32
    → absolute_diff first second + bit (ltb second first) ≡ (second + 2 ^ 32 - first) % 2 ^ 32
unfolding absolute_diff
absolute_diff-step first second h k = ground arith
