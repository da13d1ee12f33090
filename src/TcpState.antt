-- ===== src/TcpState.antt =====
-- libsponge/tcp_helpers/tcp_state.hh and tcp_state.cc: the official names of the states of a
-- connection, and the summary of an endpoint that they stand for. A summary of a sender or a
-- receiver is a constructor, where the code has a string.
pub mod Names
mod Tests
use csed353_computer_network.Prelude.{
  ℕ, ◌+◌, Bool, true, false, not, Option, none, some, ltb, ◌==◌, if◌then◌else◌, add64,
}
use csed353_computer_network.ByteStream
use csed353_computer_network.TcpReceiver
use csed353_computer_network.TcpReceiver.{TcpReceiver}
use csed353_computer_network.TcpSender.{TcpSender}
use csed353_computer_network.TcpConnection
use csed353_computer_network.TcpConnection.{TcpConnection}

pub data TcpReceiverStateSummary : Type 0 where
  receiver_error : TcpReceiverStateSummary
  listening : TcpReceiverStateSummary
  syn_recv : TcpReceiverStateSummary
  fin_recv : TcpReceiverStateSummary

pub data TcpSenderStateSummary : Type 0 where
  sender_error : TcpSenderStateSummary
  unopened : TcpSenderStateSummary
  stream_started : TcpSenderStateSummary
  syn_acked : TcpSenderStateSummary
  fin_sent : TcpSenderStateSummary
  fin_acked : TcpSenderStateSummary

pub record TcpState : Type 0 where
  pub sender : TcpSenderStateSummary
  pub receiver : TcpReceiverStateSummary
  pub active : Bool
  pub linger_after_streams_finish : Bool

pub data State : Type 0 where
  listen : State
  syn_rcvd : State
  syn_sent : State
  established : State
  close_wait : State
  last_ack : State
  fin_wait_1 : State
  fin_wait_2 : State
  closing : State
  time_wait : State
  closed : State
  reset : State

abbrev live : TcpSenderStateSummary → TcpReceiverStateSummary → Bool → TcpState
live sender receiver linger = record {
  sender = sender;
  receiver = receiver;
  active = true;
  linger_after_streams_finish = linger;
}

abbrev over : TcpSenderStateSummary → TcpReceiverStateSummary → TcpState
over sender receiver = record {
  sender = sender;
  receiver = receiver;
  active = false;
  linger_after_streams_finish = false;
}

-- The constructor from a name.
abbrev pub from_state : State → TcpState
from_state listen = live unopened listening true
from_state syn_rcvd = live stream_started syn_recv true
from_state syn_sent = live stream_started listening true
from_state established = live syn_acked syn_recv true
from_state close_wait = live syn_acked fin_recv false
from_state last_ack = live fin_sent fin_recv false
from_state closing = live fin_sent fin_recv true
from_state fin_wait_1 = live fin_sent syn_recv true
from_state fin_wait_2 = live fin_acked syn_recv true
from_state time_wait = live fin_acked fin_recv true
from_state reset = over sender_error receiver_error
from_state closed = over fin_acked fin_recv

unfoldable pub receiver_summary : TcpReceiver → TcpReceiverStateSummary
receiver_summary r =
    if (TcpReceiver.stream_out r).error
    then receiver_error
    else (if not (TcpConnection.has_value (TcpReceiver.ackno r))
        then listening
        else (if ByteStream.input_ended (TcpReceiver.stream_out r) then fin_recv else syn_recv))

unfoldable pub sender_summary : TcpSender → TcpSenderStateSummary
sender_summary s =
    if s.stream.error
    then sender_error
    else (if s.next_seqno == 0
        then unopened
        else (if s.next_seqno == s.bytes_in_flight
            then stream_started
            else (if not (ByteStream.eof s.stream)
                then syn_acked
                else (if ltb s.next_seqno (add64 (ByteStream.bytes_written s.stream) 2)
                    then syn_acked
                    else (if s.bytes_in_flight == 0 then fin_acked else fin_sent)))))

-- The constructor from a sender, a receiver and the two flags.
abbrev pub summarize : TcpSender → TcpReceiver → Bool → Bool → TcpState
summarize s r active linger = record {
  sender = sender_summary s;
  receiver = receiver_summary r;
  active = active;
  linger_after_streams_finish = if active then linger else false;
}

-- `TCPConnection::state` of libsponge/tcp_connection.hh.
abbrev pub state : TcpConnection → TcpState
state c = summarize c.sender c.receiver (TcpConnection.active c) c.linger_after_streams_finish
