-- ===== src/Ring.antt =====
-- The single-producer single-consumer rings: RingBuffer of
-- cpp/src/epos_control/include/logging/async_logger.hpp, and SimpleRingBuffer of
-- cpp/src/epos_control/include/util/simple_ring_buffer.hpp, which is the same without the count of
-- lost records. `capacity` is the template argument N.
pub mod Queue
pub mod Overlap
use motor_control.Base.{
  ℕ, zero, suc, ◌+◌, ◌-◌, ◌%◌, ◌^◌, Bool, List, [], ◌∷◌, leb, ltb, get_or, set, replicate,
  if◌then◌else◌,
}

pub record RingBuffer {ℓ} (A : Type ℓ) : Type ℓ where
  pub buf : List A
  pub capacity : ℕ
  pub write_idx : ℕ
  pub read_idx : ℕ

-- What `drain` returns: the number of records, the number lost, the vector and the ring.
pub record Drained {ℓ} (A : Type ℓ) : Type ℓ where
  pub count : ℕ
  pub dropped : ℕ
  pub out : List A
  pub ring : RingBuffer A

module _ {ℓ} {A : Type ℓ} where
  -- buf_{} holds value-initialised elements.
  unfoldable pub empty_ring : ℕ → A → RingBuffer A
  empty_ring capacity value = record {
    buf = replicate capacity value;
    capacity = capacity;
    write_idx = 0;
    read_idx = 0;
  }

  unfoldable pub push : RingBuffer A → A → RingBuffer A
  push r val = record r {
    buf = set r.buf (r.write_idx % r.capacity) val;
    write_idx = (r.write_idx + 1) % 2 ^ 64;
  }

  -- for (i = r; i < w; i++) out.push_back(buf_[i % N]), with w - r rounds left. The value is that of
  -- a read outside `buf_`.
  pub collect : List A → ℕ → A → ℕ → ℕ → List A
  collect buf capacity value i zero = []
  collect buf capacity value i (suc left) =
      get_or buf (i % capacity) value ∷ collect buf capacity value (i + 1) left

  pub drain : A → RingBuffer A → List A → Drained A
  drain value r out =
      let w = r.write_idx in
      let pending = w - r.read_idx in
      let over = ltb r.capacity pending in
      let count = if over then r.capacity else pending in
      if leb w r.read_idx then record { count = 0; dropped = 0; out = out; ring = r } else record {
        count = count;
        dropped = if over then pending - r.capacity else 0;
        out = collect r.buf r.capacity value (w - count) count;
        ring = record r { read_idx = w };
      }

  -- The producer pushes `vs`, one after the other.
  pub push_all : RingBuffer A → List A → RingBuffer A
  push_all r [] = r
  push_all r (v ∷ vs) = push_all (push r v) vs

  -- The same loop while the producer runs: before the entry at `i` is read it pushes the first of
  -- `batches`. The result is what was read, and the ring then.
  pub collect_during : A → ℕ → ℕ → List (List A) → RingBuffer A → List A × RingBuffer A
  collect_during value i zero batches r = ([], r)
  collect_during value i (suc left) [] r =
      let (rest, r') = collect_during value (i + 1) left [] r in
      (get_or r.buf (i % r.capacity) value ∷ rest, r')
  collect_during value i (suc left) (batch ∷ batches) r =
      let pushed = push_all r batch in
      let (rest, r') = collect_during value (i + 1) left batches pushed in
      (get_or pushed.buf (i % r.capacity) value ∷ rest, r')

  -- `drain` while the producer runs: `w` is read first, and `read_idx` is written after the producer
  -- has pushed `last`.
  pub drain_during : A → List (List A) → List A → RingBuffer A → List A → Drained A
  drain_during value batches last r out =
      let w = r.write_idx in
      let pending = w - r.read_idx in
      let over = ltb r.capacity pending in
      let count = if over then r.capacity else pending in
      let (read, r') = collect_during value (w - count) count batches r in
      if leb w r.read_idx
      then record { count = 0; dropped = 0; out = out; ring = push_all r last }
      else record {
        count = count;
        dropped = if over then pending - r.capacity else 0;
        out = read;
        ring = record (push_all r' last) { read_idx = w };
      }
