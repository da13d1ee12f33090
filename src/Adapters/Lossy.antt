-- ===== src/Adapters/Lossy.antt =====
-- `LossyFdAdapter` of libsponge/tcp_helpers/lossy_fd_adapter.hh, over any adapter. What its generator of
-- random numbers would return is an argument.
use csed353_computer_network.Prelude.{
  ℕ, ◌%◌, ◌≡◌, refl, Bool, true, false, not, ◌&&◌, Option, none, some, ltb, ◌==◌, if◌then◌else◌,
  ◌and_then◌, u16_mod,
}
use csed353_computer_network.TcpSegment.{TcpSegment}
use csed353_computer_network.Adapters.{FdAdapterConfig}

unfoldable pub should_drop : FdAdapterConfig → Bool → ℕ → Bool
should_drop cfg uplink rand =
    let loss = if uplink then cfg.loss_rate_up else cfg.loss_rate_dn in
    not (loss == 0) && ltb (rand % u16_mod) loss

module _ {Adapter : Type 0} (config : Adapter → FdAdapterConfig)
    (adapter_read : Adapter → Option (Option TcpSegment × Adapter))
    (adapter_write : Adapter → TcpSegment → Option Adapter) where
  -- The underlying adapter reads, whether the segment is dropped or not.
  unfoldable pub read : Adapter → ℕ → Option (Option TcpSegment × Adapter)
  read a rand = adapter_read a and_then λ ret.
      some (if should_drop (config ret.1) false rand then (none, ret.1) else ret)

  unfoldable pub write : Adapter → TcpSegment → ℕ → Option Adapter
  write a seg rand = if should_drop (config a) true rand then some a else adapter_write a seg

  -- Without a loss rate the adapter reads and writes as the underlying one does, whatever the random
  -- numbers are.
  pub lossless :
      (a : Adapter) (ret : Option TcpSegment × Adapter) (seg : TcpSegment) (rand : ℕ)
      → adapter_read a ≡ some ret
      → (config ret.1).loss_rate_dn ≡ 0
      → (config a).loss_rate_up ≡ 0
      → (read a rand ≡ some ret) × (write a seg rand ≡ adapter_write a seg)
  unfolding read write should_drop
  lossless a ret seg rand e dn up = (rw (e, dn) refl, rw up refl)
