-- ===== src/Pool/Ledger/Fresh.antt =====
-- No request id is given twice: every step of a system keeps `IsFresh`.
use miner_tim.Common.{
  ℕ, ◌+◌, ◌-◌, ◌^◌, ◌≤◌, ◌<◌, ◌≡◌, ap, refl, ◌∙◌, arith, List, ◌∷◌, ◌++◌, Option, u32,
}
use miner_tim.Donate.{Beneficiary}
use miner_tim.Pool.State.{PoolConnection, Result, ok, err, next_request_id}
use miner_tim.Pool.Json.{Json}
use miner_tim.Pool.Submit.{Share, enter, leave, write_and_register, settle}
use miner_tim.Pool.System.{
  Submitter, entered, numbered, returned, System, Step, call, draw_id, write, exit, receive, clear,
  drain, install, send_own, defer_rotation,
}
use miner_tim.Pool.Ledger.Counts.{
  key_count, held, held_count, held_count-append, accounted, IsFresh,
}
use miner_tim.Pool.Ledger.Effects.{
  Keeps, handle-Keeps, drain-Keeps, clear-Keeps, install-Keeps, Keeps-IsFresh, write-cases,
  write-keys,
}

abbrev pub Fits : System → Type 0
Fits s = s.issued + 1 < 2 ^ 64

pub held_split :
    (k : ℕ) (s : System) (before after : List Submitter) (p : Submitter)
    → s.submitters ≡ before ++ p ∷ after
    → held_count k s.submitters ≡ held_count k before + held k p + held_count k after
held_split k s before after p e =
    ap (held_count k) e ∙ omega (arith, held_count-append k before (p ∷ after))

-- The id that is drawn is the one after those issued.
drawn_id : (s : System) → Fits s → IsFresh s → s.conn.request_id ≡ 1 + s.issued
drawn_id s lt f = omega (arith, f.counter)

draw-IsFresh :
    (s : System) (before after : List Submitter) (share : Share)
    → s.submitters ≡ before ++ entered share ∷ after
    → Fits s
    → IsFresh s
    → IsFresh (record s {
      conn = (next_request_id s.conn).1;
      submitters = before ++ numbered share (next_request_id s.conn).0 ∷ after;
      issued = s.issued + 1;
    })
unfolding next_request_id
draw-IsFresh s before after share e lt f = record {
  counter = omega (arith, f.counter);
  once = λ k. ground (
    arith,
    drawn_id s lt f,
    f.once k,
    f.issued_only k,
    held_split k s before after (entered share) e,
    held_count-append k before (numbered share s.conn.request_id ∷ after),
  );
  issued_only = λ k h. ground (
    arith,
    drawn_id s lt f,
    f.issued_only k,
    held_split k s before after (entered share) e,
    held_count-append k before (numbered share s.conn.request_id ∷ after),
  );
}

-- A call that moves on without an id of its own, over a connection with no further keys.
move-IsFresh :
    (s : System) (c' : PoolConnection) (before after rest : List Submitter) (p : Submitter)
    → s.submitters ≡ before ++ p ∷ after
    → c'.request_id ≡ s.conn.request_id
    → ((k : ℕ) → key_count k c'.pending_shares ≤ key_count k s.conn.pending_shares + held k p)
    → ((k : ℕ) → held_count k rest ≡ held_count k before + held_count k after)
    → IsFresh s
    → IsFresh (record s { conn = c'; submitters = rest })
move-IsFresh s c' before after rest p e id keys held_rest f = record {
  counter = id ∙ f.counter;
  once = λ k. omega (arith, f.once k, keys k, held_rest k, held_split k s before after p e);
  issued_only =
      λ k h. omega (arith, f.issued_only k h, keys k, held_rest k, held_split k s before after p e);
}

pub exit-same :
    (result : Result (Unit {0})) (c : PoolConnection)
    → ((leave (settle result c)).request_id ≡ c.request_id)
      × ((leave (settle result c)).pending_shares ≡ c.pending_shares)
      × ((leave (settle result c)).submits_in_flight ≡ u32 (c.submits_in_flight + 2 ^ 32 - 1))
      × (accounted (leave (settle result c)) + 0 ≡ accounted (settle result c))
unfolding leave settle
exit-same (ok u) c = (refl, refl, refl, omega arith)
exit-same (err x) c = (refl, refl, refl, omega arith)

write-IsFresh :
    (s : System) (before after : List Submitter) (share : Share) (rpc_id now : ℕ)
    (written : Result (Unit {0}))
    → s.submitters ≡ before ++ numbered share rpc_id ∷ after
    → IsFresh s
    → IsFresh (record s {
      conn = (write_and_register rpc_id share now written s.conn).1;
      submitters =
          before ++ returned (write_and_register rpc_id share now written s.conn).0 ∷ after;
    })
write-IsFresh s before after share rpc_id now written e f =
    move-IsFresh s (write_and_register rpc_id share now written s.conn).1 before after _
      (numbered share rpc_id) e (write-cases rpc_id now share written s.conn).0
      (λ k. write-keys rpc_id now k share written s.conn)
      (λ k. omega (
        arith,
        held_count-append k before
            (returned (write_and_register rpc_id share now written s.conn).0 ∷ after),
      ))
      f

exit-IsFresh :
    (s : System) (before after : List Submitter) (result : Result (Unit {0}))
    → s.submitters ≡ before ++ returned result ∷ after
    → IsFresh s
    → IsFresh (record s { conn = leave (settle result s.conn); submitters = before ++ after })
exit-IsFresh s before after result e f =
    move-IsFresh s (leave (settle result s.conn)) before after (before ++ after) (returned result) e
      (exit-same result s.conn).0 (λ k. omega (arith, ap (key_count k) (exit-same result s.conn).1))
      (λ k. held_count-append k before after) f

call-IsFresh :
    (s : System) (share : Share)
    → IsFresh s
    → IsFresh (record s {
      conn = enter s.conn;
      submitters = entered share ∷ s.submitters;
      calls = s.calls + 1;
    })
unfolding enter
call-IsFresh s share f = record {
  counter = f.counter;
  once = λ k. omega (arith, f.once k);
  issued_only = λ k h. omega (arith, f.issued_only k h);
}

own-IsFresh :
    (s : System)
    → IsFresh s
    → IsFresh (record s { conn = (next_request_id s.conn).1; issued = s.issued + 1 })
unfolding next_request_id
own-IsFresh s f = record {
  counter = omega (arith, f.counter);
  once = λ k. f.once k;
  issued_only = λ k h. f.issued_only k (omega arith);
}

pub defer-Keeps :
    (c : PoolConnection) (wait : Option (Beneficiary × ℕ))
    → Keeps c (record c { rotation_wait_since = wait })
defer-Keeps c wait = record {
  same_id = refl;
  same_flight = refl;
  same_account = refl;
  fewer_keys = λ k. omega arith;
}

module _ (json : Json) where
  pub Step-issued : {s t : System} → Step json s t → s.issued ≤ t.issued
  Step-issued (call s share) = omega arith
  Step-issued (draw_id s before after share e) = omega arith
  Step-issued (write s before after share rpc_id now written e) = omega arith
  Step-issued (exit s before after result e) = omega arith
  Step-issued (receive s line) = omega arith
  Step-issued (clear s) = omega arith
  Step-issued (drain s) = omega arith
  Step-issued (install s stream) = omega arith
  Step-issued (send_own s) = omega arith
  Step-issued (defer_rotation s wait) = omega arith

  pub Step-IsFresh : {s t : System} → Step json s t → Fits t → IsFresh s → IsFresh t
  Step-IsFresh (call s share) lt f = call-IsFresh s share f
  Step-IsFresh (draw_id s before after share e) lt f =
      draw-IsFresh s before after share e (omega arith) f
  Step-IsFresh (write s before after share rpc_id now written e) lt f =
      write-IsFresh s before after share rpc_id now written e f
  Step-IsFresh (exit s before after result e) lt f = exit-IsFresh s before after result e f
  Step-IsFresh (receive s line) lt f = Keeps-IsFresh s _ (handle-Keeps json line s.conn) f
  Step-IsFresh (clear s) lt f = Keeps-IsFresh s _ (clear-Keeps s.conn) f
  Step-IsFresh (drain s) lt f = Keeps-IsFresh s _ (drain-Keeps s.conn) f
  Step-IsFresh (install s stream) lt f = Keeps-IsFresh s _ (install-Keeps s.conn stream) f
  Step-IsFresh (send_own s) lt f = own-IsFresh s f
  Step-IsFresh (defer_rotation s wait) lt f = Keeps-IsFresh s _ (defer-Keeps s.conn wait) f
