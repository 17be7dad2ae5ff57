-- ===== src/Pool/Tests/Threads.antt =====
-- Connecting, rotating and submitting.
use miner_tim.Common.{
  ℕ, ◌+◌, ◌*◌, ◌≤◌, ◌≡◌, ◌⊎◌, refl, arith, [], ◌∷◌, ◌++◌, Option, none, some, true, false, Bytes,
  codes, u32, length, map,
}
use miner_tim.Donate.{author, xmrig}
use miner_tim.Pool.State.{PoolConnection, next_request_id, tls, ok, with_tls_fingerprint}
use miner_tim.Pool.Framing.{newline, byte}
use miner_tim.Pool.Submit.{Share, write_and_register, enter, leave, settle}
use miner_tim.Pool.System.{
  entered, System, start, call, draw_id, write, exit, install, Reach, here, next,
}
use miner_tim.Pool.Ledger.{share_ledger, in_flight_exact, request_ids_unique}
use miner_tim.Pool.Ledger.Counts.{accounted, open_shares, key_count, held_count}
use miner_tim.Pool.Rotation.{rotation_settled, wait_for}
use miner_tim.Pool.Rotation.Laws.{
  Outstanding, any_settled, rotation_wait_bounded, rotation_settled_early,
}
use miner_tim.Pool.Session.{Attempt, connect, reconnect, relogin_as, install_stream}
use miner_tim.Pool.Session.Frames.{IsReady}
use miner_tim.Pool.Session.Laws.{
  is_ok, connect_pinned, IsDown, reconnect_refused, relogin_as-IsReady, relogin_as-refuses_old,
}
use miner_tim.Pool.Jobs.{is_tls_port}
use miner_tim.Pool.Tests.Wire.{documents}

abbrev connected_to : Bytes → Option Bytes → PoolConnection
connected_to address pin = record (with_tls_fingerprint 5 pin) {
  address = address;
  user_wallet = codes "w";
  pending_shares = (1, record { job_id = []; nonce = []; sent_at = 0 }) ∷ [];
}

abbrev pub good : Attempt
good = record {
  tcp_connects = true;
  read_timeout_set = true;
  write_timeout_set = true;
  nodelay_set = true;
  server_name_valid = true;
  tls_set_up = true;
  request_written = ok tt;
  login_timeout_set = true;
  reply = map byte (codes "an answer") ++ byte newline ∷ [];
  poll_timeout_set = true;
}

abbrev share : Share
share = record { job_id = []; nonce = []; result = []; job_generation = 0 }

connect_pinned_example :
    (is_tls_port (codes "h:443") ≡ true)
    × ((connect good (codes "h:443") (connected_to (codes "h:443") (some []))).1.stream
        ≡ some (tls (30 * 1000)))
connect_pinned_example =
    connect_pinned good (codes "h:443") (connected_to (codes "h:443") (some []))
      (unfold with_tls_fingerprint in refl)
      (unfold connect with_tls_fingerprint is_tls_port in refl)

-- The pool and the network would do everything right, three times.
reconnect_refused_example : IsDown 0 (
    reconnect documents
      (λ s. true)
      (good ∷ good ∷ good ∷ [])
      (connected_to (codes "h:80") (some [])))
unfolding with_tls_fingerprint
reconnect_refused_example =
    reconnect_refused documents (λ s. true) (good ∷ good ∷ good ∷ [])
      (connected_to (codes "h:80") (some [])) refl (unfold is_tls_port in refl)

relogin_as-IsReady_example :
    let c = connected_to (codes "h:80") none in
    let r = relogin_as documents (λ s. true) good (codes "v") c in
    IsReady c.generation r
    × (r.1.pending_shares ≡ [])
    × (r.1.lost_shares ≡ u32 (c.lost_shares + length c.pending_shares))
    × (r.1.user_wallet ≡ c.user_wallet)
relogin_as-IsReady_example =
    relogin_as-IsReady documents (λ s. true) good (codes "v") (connected_to (codes "h:80") none)
      refl refl refl (unfold with_tls_fingerprint in omega arith)

relogin_as-refuses_old_example :
    let c' =
      (relogin_as documents (λ s. true) good (codes "v") (connected_to (codes "h:80") none)).1 in
    (is_ok (write_and_register 9 share 0 (ok tt) c').0 ≡ false)
    × ((write_and_register 9 share 0 (ok tt) c').1 ≡ c')
relogin_as-refuses_old_example =
    relogin_as-refuses_old documents (λ s. true) good (codes "v") (connected_to (codes "h:80") none)
      9 0 share (ok tt) refl refl refl (unfold with_tls_fingerprint in omega arith)
      (unfold with_tls_fingerprint in omega arith)

-- A call under way at both polls, five seconds apart.
abbrev busy_at : ℕ → Outstanding
busy_at now = record { at = now; in_flight = 1; pending = [] }

rotation_wait_bounded_example :
    any_settled author (busy_at 100 ∷ ([] ++ busy_at 5100 ∷ [])) (with_tls_fingerprint 5 none)
    ≡ true
rotation_wait_bounded_example =
    rotation_wait_bounded author (busy_at 100) (busy_at 5100) [] (with_tls_fingerprint 5 none)
      (unfold wait_for with_tls_fingerprint in refl) (unfold with_tls_fingerprint in omega arith)

abbrev long_wait : PoolConnection
long_wait = record (with_tls_fingerprint 5 none) {
  submits_in_flight = 1;
  rotation_wait_since = some (xmrig, 10);
}

rotation_settled_early_example :
    ((1 ≡ long_wait.lost_shares) × (length long_wait.pending_shares ≡ 0))
    ⊎ ((since : ℕ) × (long_wait.rotation_wait_since ≡ some (xmrig, since))
        × (since + long_wait.rotation_settle_ms ≤ 6000))
unfolding with_tls_fingerprint
rotation_settled_early_example =
    rotation_settled_early xmrig 6000 long_wait (unfold with_tls_fingerprint in omega arith)
      (unfold rotation_settled with_tls_fingerprint in refl)

-- One call has registered its share and left, another one is under way.
abbrev new_share : Share
new_share = record { job_id = []; nonce = []; result = []; job_generation = 1 }

abbrev two_calls : System
two_calls = record {
  conn = record (with_tls_fingerprint 5 none) {
    stream = some (tls 50);
    connected = true;
    request_id = 2;
    generation = 1;
    submits_in_flight = 1;
    pending_shares = (1, record { job_id = []; nonce = []; sent_at = 7 }) ∷ [];
  };
  submitters = entered new_share ∷ [];
  calls = 2;
  issued = 1;
}

two_calls-Reach : Reach documents (start 5 none) two_calls
unfolding start with_tls_fingerprint enter leave settle write_and_register install_stream
    next_request_id
two_calls-Reach =
    next
      (next
        (next
          (next (next (next here (install _ (tls 50))) (call _ new_share))
            (draw_id _ [] [] new_share refl))
          (call _ new_share))
        (write _ (entered new_share ∷ []) [] new_share 1 7 (ok tt) refl))
      (exit _ (entered new_share ∷ []) [] (ok tt) refl)

share_ledger_example : u32 2 ≡ u32 (accounted two_calls.conn + open_shares two_calls.submitters)
share_ledger_example = share_ledger documents 5 none two_calls two_calls-Reach (omega arith)

in_flight_exact_example : 1 ≡ u32 (length two_calls.submitters)
in_flight_exact_example = in_flight_exact documents 5 none two_calls two_calls-Reach (omega arith)

request_ids_unique_example :
    key_count 1 two_calls.conn.pending_shares + held_count 1 two_calls.submitters ≤ 1
request_ids_unique_example =
    request_ids_unique documents 5 none two_calls 1 two_calls-Reach (omega arith)
