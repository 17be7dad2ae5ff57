-- ===== src/Pool/Tests.antt =====
-- The properties of the pool connection at concrete connections, messages and threads.
mod Wire
mod Threads
mod Receiving
use miner_tim.Common.{
  ℕ, ◌+◌, ◌*◌, ◌^◌, ◌≤◌, ◌<◌, ◌≡◌, refl, arith, List, [], ◌∷◌, ◌++◌, Option, none, some, Bool, true,
  false, Bytes, codes, eq_bytes, if◌then◌else◌, u32, replicate, length-replicate, map,
}
use miner_tim.Pool.Json.{Json}
