-- ===== src/Pool/Tests/Receiving.antt =====
-- The loop of the receiver thread.
use miner_tim.Common.{◌≡◌, refl, [], ◌∷◌, none, some, Bool, true, false, codes}
use miner_tim.Donate.{user, beneficiary_at, new}
use miner_tim.Pool.State.{PoolConnection, with_tls_fingerprint, plain, ok}
use miner_tim.Pool.Session.{login_params}
use miner_tim.Pool.Receiver.{
  Receiver, Poll, Flow, on, continued, stopped, waiting, would_block, iteration,
}
use miner_tim.Pool.Receiver.Silence.{Ahead}
use miner_tim.Pool.Receiver.Beneficiaries.{MinesFor, iteration-MinesFor}
use miner_tim.Pool.Tests.Wire.{documents}
use miner_tim.Pool.Tests.Threads.{good}

abbrev listening : PoolConnection
listening = record (with_tls_fingerprint 5 none) {
  stream = some (plain 50);
  sent = (1, login_params (codes "w")) ∷ [];
  connected = true;
  address = codes "h:80";
  wallet = codes "w";
  user_wallet = codes "w";
  silence_timeout_ms = 180000;
}

abbrev loop : Receiver
loop = record {
  pending = codes "{";
  last_keepalive = 179000;
  last_recv = 0;
  donation_start = 0;
  active = user;
  last_want = user;
}

-- Nothing arrives, and the silence limit is over.
abbrev silent : Poll
silent = record {
  began_at = 179950;
  relogin = good;
  relogin_at = 179950;
  read = would_block;
  read_at = 180000;
  after_read = record { attempts = []; back_at = 180000 };
  keepalive_at = 180000;
  keepalive_written = ok tt;
  after_keepalive = record { attempts = []; back_at = 180000 };
  checked_at = 180000;
  after_silence = record { attempts = []; back_at = 185000 };
}

MinesFor-user :
    MinesFor documents (λ s. true) (λ s. s) (codes "a") (codes "x") (codes "w") loop listening
unfolding MinesFor login_params
MinesFor-user = record {
  owns = record { wallet_is = refl; user_is = refl; known = refl; addressed = refl };
  logged_in = λ up. refl;
}

iteration-MinesFor_example :
    Ahead
      (MinesFor documents (λ s. true) (λ s. s) (codes "a") (codes "x") (codes "w"))
      (MinesFor documents (λ s. true) (λ s. s) (codes "a") (codes "x") (codes "w"))
      (iteration documents (λ s. true) (λ s. s) (codes "a") (codes "x") silent loop listening)
iteration-MinesFor_example =
    iteration-MinesFor documents (λ s. true) (λ s. s) (codes "a") (codes "x") (codes "w") silent
      loop listening MinesFor-user

abbrev is_waiting : Flow → Bool
is_waiting (on r c) = false
is_waiting (continued r c) = false
is_waiting (stopped c) = false
is_waiting (waiting c) = true

silent_pool_left :
    is_waiting
      (iteration documents (λ s. true) (λ s. s) (codes "a") (codes "x") silent loop listening)
    ≡ true
unfolding iteration with_tls_fingerprint beneficiary_at new
silent_pool_left = refl
