-- ===== src/TcpConnection/Flush.antt =====
-- `flush_sender` of libsponge/tcp_connection.cc: the loop that hands the sender's segments on.
use csed353_computer_network.Prelude.{
  ◌≡◌, refl, sym, ap, ◌∙◌, Bool, true, Option, none, some, List, [], ◌∷◌, ◌++◌, map, append-nil,
  append_assoc, if◌then◌else◌,
}
use csed353_computer_network.TcpSegment.{TcpSegment, TcpHeader}
use csed353_computer_network.WrappingIntegers.{WrappingInt32}
use csed353_computer_network.TcpReceiver
use csed353_computer_network.TcpConnection.{
  TcpConnection, with_ackno, stamped, flush_segment, flush_queue, flush_sender,
}

abbrev pub carries_fin : List TcpSegment → Bool → Bool
carries_fin [] sent = sent
carries_fin (seg ∷ rest) sent = carries_fin rest (if seg.header.fin then true else sent)

with_ackno-fin : (ackno : Option WrappingInt32) (h : TcpHeader) → (with_ackno ackno h).fin ≡ h.fin
with_ackno-fin none h = refl
with_ackno-fin (some ackno) h = refl

-- The endpoint with another queue in its sender.
abbrev pub with_queue : TcpConnection → List TcpSegment → TcpConnection
with_queue c q = record c { sender = record (c.sender) { segments_out = q } }

-- The endpoint once the segments of `q` are handed on.
abbrev pub flushed : TcpConnection → List TcpSegment → TcpConnection
flushed c q = record (with_queue c []) {
  segments_out = c.segments_out ++ map (stamped c.receiver) q;
  is_fin_sent = carries_fin q c.is_fin_sent;
}

stamped-fin :
    (c : TcpConnection) (seg : TcpSegment) → (stamped c.receiver seg).header.fin ≡ seg.header.fin
stamped-fin c seg = with_ackno-fin (TcpReceiver.ackno c.receiver) seg.header

flush_queue_lem :
    (c : TcpConnection) (q : List TcpSegment) → flush_queue (with_queue c q) q ≡ flushed c q
unfolding flush_queue
flush_queue_lem c [] =
    ap (λ out. record (with_queue c []) { segments_out = out }) (sym (append-nil c.segments_out))
flush_queue_lem c (seg ∷ rest) =
    flush_queue_lem (flush_segment c seg []) rest
    ∙ ap
        (λ out. record (flushed c (seg ∷ rest)) {
          segments_out = out;
          is_fin_sent =
              carries_fin rest
                (if (stamped c.receiver seg).header.fin then true else c.is_fin_sent);
        })
        (append_assoc c.segments_out (stamped c.receiver seg ∷ []) (map (stamped c.receiver) rest))
    ∙ ap
        (λ fin. record (flushed c (seg ∷ rest)) {
          is_fin_sent = carries_fin rest (if fin then true else c.is_fin_sent);
        })
        (stamped-fin c seg)

-- `flush_sender` hands on every segment of the sender's queue, in its order, each with the receiver's
-- acknowledgment number and window size put in; it empties that queue, and notes that the FIN was
-- sent if one of them carries it. It changes nothing else.
pub flush_sender_lem : (c : TcpConnection) → flush_sender c ≡ flushed c c.sender.segments_out
unfolding flush_sender
flush_sender_lem c = flush_queue_lem c c.sender.segments_out

pub flush_sender-segments_out :
    (c : TcpConnection)
    → (flush_sender c).segments_out
      ≡ c.segments_out ++ map (stamped c.receiver) c.sender.segments_out
flush_sender-segments_out c = ap (λ (d : TcpConnection). d.segments_out) (flush_sender_lem c)
