-- ===== src/Pool/Json.antt =====
-- What the session uses of `serde_json` (a dependency that is not part of the repository): parsing
-- a line, looking up a member, and the readings of a value. `null` is read by no other reading,
-- which is what its documentation says of `Value`.
use miner_tim.Common.{ℕ, ◌≡◌, Option, none, Bool, true, Bytes}

pub record Json : Type 1 where
  pub Value : Type 0
  pub from_str : Bytes → Option Value
  pub get : Value → Bytes → Option Value
  pub as_str : Value → Option Bytes
  pub as_u64 : Value → Option ℕ
  pub is_null : Value → Bool
  pub null-as_str : (v : Value) → is_null v ≡ true → as_str v ≡ none
  pub null-get : (v : Value) (key : Bytes) → is_null v ≡ true → get v key ≡ none
