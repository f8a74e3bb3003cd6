-- ===== src/ReliableSerial/Device.antt =====
-- cpp_modules/reliable_serial_demo: `SimulatedDevice` of demo/main.cpp.
pub mod AtMostOnce
use linux_iot_gateway.Common.{ℕ, suc, List, [], ◌∷◌, ◌++◌, Option, none, some, Bytes}
use linux_iot_gateway.Common.OrderedMap
use linux_iot_gateway.ReliableSerial.Protocol.{
  RequestFrame, AckFrame, encode_ack, decode_request, result_ok,
}

-- Signed 32-bit counters, which the source does not check.
pub record DeviceStats : Type 0 where
  pub received : ℕ
  pub executed : ℕ
  pub duplicates : ℕ

-- The lines on the console: the number, and for an execution the command.
pub data Line : Type 0 where
  duplicate : ℕ → Line
  execute : ℕ → ℕ → Line

pub record SimulatedDevice : Type 0 where
  pub ack_cache : List (ℕ × AckFrame)
  pub stats : DeviceStats

abbrev pub new_device : SimulatedDevice
new_device = record {
  ack_cache = [];
  stats = record { received = 0; executed = 0; duplicates = 0 };
}

-- A reply, and what is printed.
abbrev pub Handled : Type 0
Handled = SimulatedDevice × Bytes × List Line

-- Behind `++stats_.received`, with what the cache holds.
unfoldable pub answer : SimulatedDevice → RequestFrame → Option AckFrame → Handled
answer d request (some ack) = (
  record d { stats = record d.stats { duplicates = suc d.stats.duplicates } },
  encode_ack ack,
  duplicate request.sequence ∷ [],
)
answer d request none =
    let ack : AckFrame = record { sequence = request.sequence; result = result_ok } in
    (
      record d {
        stats = record d.stats { executed = suc d.stats.executed };
        ack_cache = OrderedMap.assign request.sequence ack d.ack_cache;
      },
      encode_ack ack,
      execute request.sequence request.command ∷ [],
    )

abbrev pub handle_decoded : SimulatedDevice → Option RequestFrame → Handled
handle_decoded d none = (d, [], [])
handle_decoded d (some request) =
    answer (record d { stats = record d.stats { received = suc d.stats.received } }) request
      (OrderedMap.find request.sequence d.ack_cache)

unfoldable pub handle_request : SimulatedDevice → Bytes → Handled
handle_request d bytes = handle_decoded d (decode_request bytes)
