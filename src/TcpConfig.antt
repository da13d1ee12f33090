-- ===== src/TcpConfig.antt =====
-- libsponge/tcp_helpers/tcp_config.hh: the constants and the configuration of an endpoint.
use csed353_computer_network.Prelude.{ℕ, Option, none}
use csed353_computer_network.WrappingIntegers.{WrappingInt32}

abbrev pub default_capacity : ℕ
default_capacity = 64000

abbrev pub max_payload_size : ℕ
max_payload_size = 1000

abbrev pub timeout_dflt : ℕ
timeout_dflt = 1000

abbrev pub max_retx_attempts : ℕ
max_retx_attempts = 8

pub record TcpConfig : Type 0 where
  pub rt_timeout : ℕ
  pub recv_capacity : ℕ
  pub send_capacity : ℕ
  pub fixed_isn : Option WrappingInt32

abbrev pub default_config : TcpConfig
default_config = record {
  rt_timeout = timeout_dflt;
  recv_capacity = default_capacity;
  send_capacity = default_capacity;
  fixed_isn = none;
}
