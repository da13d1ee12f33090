-- ===== src/SpongeSocket/Rules.antt =====
-- What the rules of libsponge/tcp_helpers/tcp_sponge_socket.cc move, they move whole and in order.
use csed353_computer_network.Prelude.{
  ℕ, zero, suc, take_all, length-take, ltb→le, ◌≤◌, ◌≡◌, refl, sym, ap, ◌∙◌, Bool, true, some, List,
  [], ◌∷◌, ◌++◌, ltb, ◌==◌, if◌then◌else◌, arith, length, take, min, if_elim,
}
use csed353_computer_network.ByteStream
use csed353_computer_network.ByteStream.{ByteStream, peek_output, pop_output}
use csed353_computer_network.ByteStream.Fifo.{peek-pop}
use csed353_computer_network.TcpConnection
use csed353_computer_network.TcpConnection.{TcpConnection}
use csed353_computer_network.SpongeSocket.{
  SpongeSocket, inbound_stream, bytes_in, ended, offered, bytes_out,
}

take-take : {A : Type 0} (n m : ℕ) (xs : List A) → n ≤ m → take n (take m xs) ≡ take n xs
take-take zero m xs h = refl
take-take (suc n) zero xs h = absurd (omega arith)
take-take (suc n) (suc m) [] h = refl
take-take (suc n) (suc m) (x ∷ xs) h = ap (λ ys. x ∷ ys) (take-take n m xs (omega arith))

peek_output-take : (b : ByteStream) (n : ℕ) → peek_output b n ≡ take n b.buffer
unfolding peek_output
peek_output-take b n =
    if_elim (λ o. o ≡ take n b.buffer) (ltb n (length b.buffer)) (take n b.buffer) b.buffer
      (λ _. refl) (λ e. sym (take_all n b.buffer (ltb→le n (length b.buffer) e)))

taken_prefix :
    (b : ByteStream) (n m : ℕ)
    → n ≤ length (peek_output b m)
    → take n (peek_output b m) ++ (pop_output b n).buffer ≡ b.buffer
taken_prefix b n m h =
    let small : n ≤ m = omega (arith, length-take m b.buffer, ap length (peek_output-take b m)) in
    ap (λ xs. xs ++ (pop_output b n).buffer)
      (ap (take n) (peek_output-take b m)
        ∙ take-take n m b.buffer small
        ∙ sym (peek_output-take b n))
    ∙ peek-pop b n

write_fits :
    (c : TcpConnection) (bytes : List ℕ)
    → length bytes ≤ TcpConnection.remaining_outbound_capacity c
    → (TcpConnection.write c bytes).1 ≡ length bytes
unfolding TcpConnection.write ByteStream.write
write_fits c bytes room = ground arith

module _ {Adapter : Type 0} where
  -- If the owner has written no more bytes than the connection has room for, which are the most that
  -- rule 2 reads, the connection takes them all, and rule 2 does not throw.
  pub bytes_in-fits :
      (s : SpongeSocket Adapter) (bytes : List ℕ) (eof : Bool)
      → length bytes ≤ TcpConnection.remaining_outbound_capacity s.tcp
      → bytes_in s bytes eof
        ≡ some (
            if eof
            then ended (record s { tcp = (TcpConnection.write s.tcp bytes).0 })
            else record s { tcp = (TcpConnection.write s.tcp bytes).0 })
  unfolding bytes_in
  bytes_in-fits s bytes eof room =
      let same : ((TcpConnection.write s.tcp bytes).1 == length bytes) ≡ true =
        ground (arith, write_fits s.tcp bytes room) in
      rw same refl

  -- Whatever part of the bytes offered the owner takes, that part and the bytes that are left are the
  -- bytes that were there.
  pub bytes_out-whole :
      (s : SpongeSocket Adapter) (n : ℕ)
      → n ≤ length (offered s)
      → take n (offered s) ++ (inbound_stream (bytes_out s n).tcp).buffer
        ≡ (inbound_stream s.tcp).buffer
  unfolding bytes_out
  bytes_out-whole s n h =
      taken_prefix (inbound_stream s.tcp) n (min 65536 (length (inbound_stream s.tcp).buffer)) h
