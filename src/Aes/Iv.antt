-- ===== src/Aes/Iv.antt =====
-- src/aes.h, class CryptIV: `operator++` on the bytes of the counter.
pub mod Increment
use libnap.Base.{ℕ, zero, suc, ◌+◌, ◌-◌, List, Bool, true, false, if◌then◌else◌, ◌==◌, get_or, set}

-- The loop, with `i + 1` rounds left for the index `i`, and `flag`. `bytes` is `BIT / 8`.
unfoldable pub increment_loop : ℕ → ℕ → Bool → List ℕ → List ℕ
increment_loop bytes zero flag buf = buf
increment_loop bytes (suc i) flag buf =
    let carry = increment_loop bytes i true (set buf i 0) in
    let plain = set buf i (get_or buf i 0 + 1) in
    if i == bytes - 1
    then (if get_or buf i 0 == 255 then carry else plain)
    else if flag
    then (if get_or buf i 0 == 255 then carry else plain)
    else buf

unfoldable pub increment : ℕ → List ℕ → List ℕ
increment bytes buf = increment_loop bytes bytes false buf
