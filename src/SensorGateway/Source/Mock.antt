-- ===== src/SensorGateway/Source/Mock.antt =====
-- Reads of the mock, one after the other.
use linux_iot_gateway.Common.{
  ℕ, zero, suc, ◌+◌, ◌-◌, ◌%◌, ◌<◌, Bool, false, [], Option, none, some, Bytes, ◌≡◌, refl, ap, ◌∙◌,
  arith, if◌then◌else◌, leb, ◌==◌, take, get_or, length,
}
use linux_iot_gateway.SensorGateway.Source.{mock_data_list, mock_read}

-- The index that so many reads leave, from the index 0.
abbrev pub mock_index : ℕ → ℕ → ℕ
mock_index buf_size zero = 0
mock_index buf_size (suc n) = (mock_read buf_size (mock_index buf_size n)).1

mock_read-next : (buf_size i : ℕ) → 0 < buf_size → i < 5 → (mock_read buf_size i).1 ≡ (i + 1) % 5
unfolding mock_read
mock_read-next buf_size i h b = ground arith

mock_index-mod : (buf_size n : ℕ) → 0 < buf_size → mock_index buf_size n ≡ n % 5
mock_index-mod buf_size zero h = refl
mock_index-mod buf_size (suc n) h =
    ap (λ i. (mock_read buf_size i).1) (mock_index-mod buf_size n h)
    ∙ mock_read-next buf_size (n % 5) h (omega arith)
    ∙ omega arith

-- The mock goes round its five texts: the n-th read returns the text n modulo 5, cut to the buffer.
pub mock_read_cycles :
    (buf_size n : ℕ)
    → 0 < buf_size
    → (mock_read buf_size (mock_index buf_size n)).0
      ≡ some (take (buf_size - 1) (get_or mock_data_list (n % 5) []))
unfolding mock_read
mock_read_cycles buf_size n h =
    ap (λ i. (mock_read buf_size i).0) (mock_index-mod buf_size n h)
    ∙ ap (λ b. (choose b).0) not_empty
  where
    shown : Bytes
    shown = take (buf_size - 1) (get_or mock_data_list (n % 5) [])

    next : ℕ
    next = if leb (length mock_data_list) (n % 5 + 1) then 0 else n % 5 + 1

    choose : Bool → Option Bytes × ℕ
    choose b = if b then (none, n % 5) else (some shown, next)

    not_empty : (buf_size == 0) ≡ false
    not_empty = ground arith
