-- ===== src/Miner/Shares.antt =====
-- Which hash is a share, where the nonce stands, and what becomes of a share that was checked again
-- (src/miner.rs).
use miner_tim.Common.{
  ℕ, Option, none, some, Bool, true, false, not, Bytes, from_le_bytes, to_le_bytes, leb, ◌==◌,
  if◌then◌else◌, length, take, drop, set, get_or, eq_bytes,
}

-- A hash has 32 bytes.
unfoldable pub meets_target : Bytes → Bytes → Bool
meets_target hash target =
    if leb 8 (length target)
    then (let target_val = from_le_bytes (take 8 target) in
        if target_val == 0 then false else leb (from_le_bytes (take 8 (drop 24 hash))) target_val)
    else if leb 4 (length target)
    then (let target_val = from_le_bytes (take 4 target) in
        if target_val == 0 then false else leb (from_le_bytes (take 4 (drop 28 hash))) target_val)
    else false

-- The caller has tested that the blob has 43 bytes at least.
unfoldable pub write_nonce_le : Bytes → ℕ → Bytes
write_nonce_le blob nonce =
    let nonce_bytes = to_le_bytes 4 nonce in
    set
      (set (set (set blob 39 (get_or nonce_bytes 0 0)) 40 (get_or nonce_bytes 1 0)) 41
        (get_or nonce_bytes 2 0))
      42 (get_or nonce_bytes 3 0)

pub data ShareVerdict : Type 0 where
  submit_unverified submit_verified submit_verifier_unavailable withhold : ShareVerdict

unfoldable pub should_submit : ShareVerdict → Bool
should_submit withhold = false
should_submit _ = true

unfoldable pub classify_share : Bool → Bytes → Option Bytes → ShareVerdict
classify_share verification_applies mined reference =
    if not verification_applies then submit_unverified else elim reference [
      | none ↦ submit_verifier_unavailable
      | some r ↦ if eq_bytes r mined then submit_verified else withhold
    ]
