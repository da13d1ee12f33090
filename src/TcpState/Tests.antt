-- ===== src/TcpState/Tests.antt =====
-- The names of a fresh endpoint with the configuration that is the default.
use csed353_computer_network.Prelude.{true}
use csed353_computer_network.TcpSegment.{TcpSegment, empty_segment, default_header}
use csed353_computer_network.TcpConfig.{default_config}
use csed353_computer_network.TcpConnection
use csed353_computer_network.TcpConnection.{TcpConnection}

abbrev fresh : TcpConnection
fresh = TcpConnection.new default_config 500

abbrev rst_segment : TcpSegment
rst_segment = record empty_segment { header = record default_header { rst = true } }
