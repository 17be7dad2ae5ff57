-- ===== src/Pool/Ledger.antt =====
-- What the counters of a connection add up to, whatever the threads do.
pub mod Counts
mod Effects
mod Fresh
use miner_tim.Common.{
  ℕ, zero, suc, ◌+◌, ◌-◌, ◌%◌, ◌^◌, ◌≤◌, ◌<◌, ◌≡◌, ap, ◌≢◌, inl, inr, refl, ◌∙◌, arith, List, [],
  ◌∷◌, ◌++◌, Option, none, some, Bool, true, false, Bytes, u32, u64, ◌==◌, if◌then◌else◌, length,
  length-append, Option-cases,
}
use miner_tim.Donate.{Beneficiary}
use miner_tim.Pool.State.{
  Job, PoolStream, PoolConnection, PendingShare, Result, ok, err, lookup, remove, insert,
  count_lost, next_request_id, drain_pending_shares, with_tls_fingerprint,
}
use miner_tim.Pool.Json.{Json}
use miner_tim.Pool.Messages.{
  handle_pool_message, install_job, count_response, answer, count_answer, response_id, accept,
  reject,
}
use miner_tim.Pool.Session.{clear_stream, install_stream}
use miner_tim.Pool.Submit.{Share, enter, leave, write_and_register, settle}
use miner_tim.Pool.System.{
  Submitter, entered, numbered, returned, System, start, Step, call, draw_id, write, exit, receive,
  clear, drain, install, send_own, defer_rotation, Reach, here, next,
}
use Counts.{
  key_count, held, held_count, open_share, open_shares, held_count-append, open_shares-append,
  remove_absent, length-remove_found, key_count-remove_le, count_lost-length, accounted, IsFresh,
  IsBalanced,
}
use Effects.{
  Keeps, Keeps-refl, handle-Keeps, drain-Keeps, clear-Keeps, install-Keeps, Keeps-IsBalanced,
  Keeps-IsFresh, write-cases, write-account, write-keys,
}
use Fresh.{Fits, held_split, exit-same, defer-Keeps, Step-issued, Step-IsFresh}

open_split :
    (s : System) (before after : List Submitter) (p : Submitter)
    → s.submitters ≡ before ++ p ∷ after
    → (open_shares s.submitters ≡ open_shares before + open_share p + open_shares after)
      × (length s.submitters ≡ length before + 1 + length after)
open_split s before after p e = (
  ap open_shares e ∙ omega (arith, open_shares-append before (p ∷ after)),
  ap length e ∙ omega (arith, length-append before (p ∷ after)),
)

-- A call that moves on while the connection accounts for what it no longer leaves open.
move-IsBalanced :
    (s : System) (c' : PoolConnection) (before after : List Submitter) (p q : Submitter) (n : ℕ)
    → s.submitters ≡ before ++ p ∷ after
    → c'.submits_in_flight ≡ s.conn.submits_in_flight
    → accounted c' + open_share q ≡ accounted s.conn + open_share p
    → IsBalanced s
    → IsBalanced (record s { conn = c'; submitters = before ++ q ∷ after; issued = n })
move-IsBalanced s c' before after p q n e flight account b = record {
  in_flight = omega (
    arith,
    flight,
    b.in_flight,
    (open_split s before after p e).1,
    length-append before (q ∷ after),
  );
  ledger = omega (
    arith,
    b.ledger,
    account,
    (open_split s before after p e).0,
    open_shares-append before (q ∷ after),
  );
}

settle-account :
    (result : Result (Unit {0})) (c : PoolConnection)
    → u32 (accounted (settle result c)) ≡ u32 (accounted c + open_share (returned result))
unfolding settle
settle-account (ok u) c = omega arith
settle-account (err x) c = omega arith

exit-IsBalanced :
    (s : System) (before after : List Submitter) (result : Result (Unit {0}))
    → s.submitters ≡ before ++ returned result ∷ after
    → IsBalanced s
    → IsBalanced (record s { conn = leave (settle result s.conn); submitters = before ++ after })
exit-IsBalanced s before after result e b = record {
  in_flight = omega (
    arith,
    (exit-same result s.conn).2,
    b.in_flight,
    (open_split s before after (returned result) e).1,
    length-append before after,
  );
  ledger = omega (
    arith,
    b.ledger,
    (exit-same result s.conn).3,
    settle-account result s.conn,
    (open_split s before after (returned result) e).0,
    open_shares-append before after,
  );
}

call-IsBalanced :
    (s : System) (share : Share)
    → IsBalanced s
    → IsBalanced (record s {
      conn = enter s.conn;
      submitters = entered share ∷ s.submitters;
      calls = s.calls + 1;
    })
unfolding enter
call-IsBalanced s share b = omega (arith, b.in_flight, b.ledger)

write-IsBalanced :
    (s : System) (before after : List Submitter) (share : Share) (rpc_id now : ℕ)
    (written : Result (Unit {0}))
    → s.submitters ≡ before ++ numbered share rpc_id ∷ after
    → IsFresh s
    → IsBalanced s
    → IsBalanced (record s {
      conn = (write_and_register rpc_id share now written s.conn).1;
      submitters =
          before ++ returned (write_and_register rpc_id share now written s.conn).0 ∷ after;
    })
write-IsBalanced s before after share rpc_id now written e f b =
    move-IsBalanced s _ before after (numbered share rpc_id) _ s.issued e
      (write-cases rpc_id now share written s.conn).1
      (write-account rpc_id now share written s.conn no_key) b
  where
    self : held rpc_id (numbered share rpc_id) ≡ 1
    self = ground arith

    no_key : key_count rpc_id s.conn.pending_shares ≡ 0
    no_key =
        omega
          (arith, f.once rpc_id, held_split rpc_id s before after (numbered share rpc_id) e, self)

start-Inv : (level : ℕ) (fp : Option Bytes) → IsFresh (start level fp) × IsBalanced (start level fp)
unfolding start
start-Inv level fp = (
  record { counter = refl; once = λ k. omega arith; issued_only = λ k h. refl },
  record { in_flight = refl; ledger = refl },
)

module _ (json : Json) where
  Step-IsBalanced : {s t : System} → Step json s t → IsFresh s → IsBalanced s → IsBalanced t
  unfolding next_request_id
  Step-IsBalanced (call s share) f b = call-IsBalanced s share b
  Step-IsBalanced (draw_id s before after share e) f b =
      move-IsBalanced s (next_request_id s.conn).1 before after (entered share) _ (s.issued + 1) e
        refl refl b
  Step-IsBalanced (write s before after share rpc_id now written e) f b =
      write-IsBalanced s before after share rpc_id now written e f b
  Step-IsBalanced (exit s before after result e) f b = exit-IsBalanced s before after result e b
  Step-IsBalanced (receive s line) f b = Keeps-IsBalanced s _ (handle-Keeps json line s.conn) b
  Step-IsBalanced (clear s) f b = Keeps-IsBalanced s _ (clear-Keeps s.conn) b
  Step-IsBalanced (drain s) f b = Keeps-IsBalanced s _ (drain-Keeps s.conn) b
  Step-IsBalanced (install s stream) f b = Keeps-IsBalanced s _ (install-Keeps s.conn stream) b
  Step-IsBalanced (send_own s) f b = record { in_flight = b.in_flight; ledger = b.ledger }
  Step-IsBalanced (defer_rotation s wait) f b = Keeps-IsBalanced s _ (defer-Keeps s.conn wait) b

  Reach-Inv :
      (level : ℕ) (fp : Option Bytes) {s : System}
      → Reach json (start level fp) s
      → Fits s
      → IsFresh s × IsBalanced s
  Reach-Inv level fp here lt = start-Inv level fp
  Reach-Inv level fp (next r st) lt =
      let (f, b) = Reach-Inv level fp r (omega (arith, Step-issued json st)) in
      (Step-IsFresh json st lt f, Step-IsBalanced st f b)

  -- However calls of `submit_share` and the receiver's steps interleave, while fewer than 2 ^ 64 - 1 request ids have been
  -- drawn: modulo the 2 ^ 32 of the counters, the calls so far are the shares accepted, rejected, lost and unsent,
  -- those still outstanding, and those that a call under way has neither registered nor counted yet.
  pub share_ledger :
      (level : ℕ) (fp : Option Bytes) (s : System)
      → Reach json (start level fp) s
      → s.issued + 1 < 2 ^ 64
      → u32 s.calls ≡ u32 (accounted s.conn + open_shares s.submitters)
  share_ledger level fp s r lt = (Reach-Inv level fp r lt).1.ledger

  -- In every state so reached, `submits_in_flight` is the number of the calls under way, modulo 2 ^ 32.
  pub in_flight_exact :
      (level : ℕ) (fp : Option Bytes) (s : System)
      → Reach json (start level fp) s
      → s.issued + 1 < 2 ^ 64
      → s.conn.submits_in_flight ≡ u32 (length s.submitters)
  in_flight_exact level fp s r lt = (Reach-Inv level fp r lt).1.in_flight

  -- In every state so reached, no request id is a key of two outstanding submissions, nor held by two calls that
  -- have yet to write, nor both.
  pub request_ids_unique :
      (level : ℕ) (fp : Option Bytes) (s : System) (id : ℕ)
      → Reach json (start level fp) s
      → s.issued + 1 < 2 ^ 64
      → key_count id s.conn.pending_shares + held_count id s.submitters ≤ 1
  request_ids_unique level fp s id r lt = (Reach-Inv level fp r lt).0.once id
