-- ===== src/TcpSender/Timer.antt =====
-- `RetransmissionTimer` of libsponge/tcp_sender.hh and tcp_sender.cc.
use csed353_computer_network.Prelude.{
  ℕ, ◌*◌, ◌%◌, Bool, true, false, leb, if◌then◌else◌, add64, u64_mod,
}

pub record RetransmissionTimer : Type 0 where
  pub init_rto : ℕ
  pub rto : ℕ
  pub t : ℕ
  pub is_running : Bool

unfoldable pub new : ℕ → RetransmissionTimer
new retx_timeout = record { init_rto = retx_timeout; rto = retx_timeout; t = 0; is_running = true }

-- `tick` returns the new timer and whether it has expired.
unfoldable pub tick : RetransmissionTimer → ℕ → RetransmissionTimer × Bool
tick timer ms_since_last_tick =
    if timer.is_running
    then (let is_expired = leb timer.rto (add64 timer.t ms_since_last_tick) in
        (
          record timer { t = if is_expired then 0 else add64 timer.t ms_since_last_tick },
          is_expired,
        ))
    else (timer, false)

unfoldable pub start : RetransmissionTimer → RetransmissionTimer
start timer = record timer { t = if timer.is_running then timer.t else 0; is_running = true }

unfoldable pub stop : RetransmissionTimer → RetransmissionTimer
stop timer = record timer { t = 0; is_running = false }

unfoldable pub set_rto_init : RetransmissionTimer → RetransmissionTimer
set_rto_init timer = record timer { rto = timer.init_rto }

unfoldable pub double_rto : RetransmissionTimer → RetransmissionTimer
double_rto timer = record timer { rto = timer.rto * 2 % u64_mod }
