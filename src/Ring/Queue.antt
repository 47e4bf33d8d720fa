-- ===== src/Ring/Queue.antt =====
-- A ring drained in time is a queue that forgets all but its last `capacity` entries.
use Prim.Native.Nat.{min}
use native.Mathlib.Nat.{mod-add-mod, mod-eq_of_lt, mod-eq-sub-mod, mod-lt}
use native.Mathlib.Decide.{dec_lt}
use motor_control.Base.{
  ℕ, zero, suc, ◌+◌, ◌-◌, ◌%◌, ◌^◌, ◌≤◌, ◌<◌, ◌≡◌, ◌≢◌, refl, sym, ap, ◌∙◌, List, [], ◌∷◌, ◌++◌,
  arith, length, length-append, get_or, set, drop, length-set, length-replicate, get_or-set_self,
  get_or-set_ne,
}
use motor_control.Ring.{RingBuffer, empty_ring, push, collect, drain}

-- Fewer than `n` steps round the ring do not come back to the start.
add-mod-ne_below : {n h k : ℕ} → h < n → 0 < k → k < n → (h + k) % n ≢ h
add-mod-ne_below {n} {h} {k} hh hp hk = elim (dec_lt (h + k) n) [
  | yes p ↦ omega (arith, mod-eq_of_lt p)
  | no p ↦ omega (
    arith,
    mod-eq-sub-mod {n = h + k} {m = n} (omega arith),
    mod-eq_of_lt {n = h + k - n} {m = n} (omega arith),
  )
]

add-mod-ne : (n a k : ℕ) → 0 < k → k < n → (a + k) % n ≢ a % n
add-mod-ne n a k hp hk e =
    add-mod-ne_below {n = n} {h = a % n} {k = k} (omega arith) hp hk (mod-add-mod a n k ∙ e)

-- Draining moves neither the producer's index nor the capacity.
pub drain_indices :
    {A : Type 0} (value : A) (r : RingBuffer A) (out : List A)
    → ((drain value r out).ring.write_idx ≡ r.write_idx)
      × ((drain value r out).ring.capacity ≡ r.capacity)
unfolding drain
drain_indices value r out = (ground arith, ground arith)

module _ {A : Type 0} (value : A) where
  -- The ring holds `pending`, the values pushed since the last drain, of which the newest
  -- `capacity` can still be read.
  pub record Represents (r : RingBuffer A) (pending : List A) : Type 0 where
    pub positive : 0 < r.capacity
    pub sized : length r.buf ≡ r.capacity
    pub indices : r.write_idx ≡ r.read_idx + length pending
    pub readable :
        (j : ℕ)
        → j < length pending
        → length pending ≤ j + r.capacity
        → get_or r.buf ((r.read_idx + j) % r.capacity) value ≡ get_or pending j value

  pub get_or-append_left :
      (xs ys : List A) (j : ℕ) → j < length xs → get_or (xs ++ ys) j value ≡ get_or xs j value
  get_or-append_left [] ys j h = elim h [ ]
  get_or-append_left (x ∷ xs) ys zero h = refl
  get_or-append_left (x ∷ xs) ys (suc j) h = get_or-append_left xs ys j (omega arith)

  get_or-append_last : (xs : List A) (y : A) → get_or (xs ++ y ∷ []) (length xs) value ≡ y
  get_or-append_last [] y = refl
  get_or-append_last (x ∷ xs) y = get_or-append_last xs y

  pub empty-Represents : (n : ℕ) → 0 < n → Represents (empty_ring n value) []
  unfolding empty_ring
  empty-Represents n h = record {
    positive = h;
    sized = length-replicate n value;
    indices = refl;
    readable = λ j p q. absurd (omega arith);
  }

  push_readable :
      (r : RingBuffer A) (pending : List A) (v : A)
      → Represents r pending
      → (j : ℕ) → j < length pending + 1
      → length pending + 1 ≤ j + r.capacity
      → get_or (set r.buf (r.write_idx % r.capacity) v) ((r.read_idx + j) % r.capacity) value
        ≡ get_or (pending ++ v ∷ []) j value
  push_readable r pending v h j below recent = elim (dec_lt j (length pending)) [
    | yes p ↦
        let k : ℕ = length pending - j in
        let apart : (r.read_idx + j + k) % r.capacity ≢ (r.read_idx + j) % r.capacity =
          add-mod-ne r.capacity (r.read_idx + j) k (omega arith) (omega arith) in
        let here : r.write_idx ≡ r.read_idx + j + k = omega (arith, h.indices) in
        get_or-set_ne r.buf v value (rw here apart)
        ∙ h.readable j p (omega arith)
        ∙ sym (get_or-append_left pending (v ∷ []) j p)
    | no p ↦
        let last : j ≡ length pending = omega arith in
        let here : r.read_idx + length pending ≡ r.write_idx = omega (arith, h.indices) in
        rw (last, here)
          (get_or-set_self r.buf (r.write_idx % r.capacity) v value
              (omega (arith, h.sized, h.positive, mod-lt r.write_idx h.positive))
            ∙ sym (get_or-append_last pending v))
  ]

  -- Pushing into a ring that represents a queue gives a ring that represents the queue with the
  -- value at its end, while the write index stays below 2^64.
  pub push-Represents :
      (r : RingBuffer A) (pending : List A) (v : A)
      → Represents r pending
      → r.write_idx + 1 < 2 ^ 64
      → Represents (push r v) (pending ++ v ∷ [])
  unfolding push
  push-Represents r pending v h small = record {
    positive = h.positive;
    sized = length-set r.buf (r.write_idx % r.capacity) v ∙ h.sized;
    indices = omega (arith, h.indices, length-append pending (v ∷ []));
    readable = λ j p q.
        push_readable r pending v h j (omega (arith, length-append pending (v ∷ [])))
          (omega (arith, length-append pending (v ∷ [])));
  }

  pub drop-length : (xs : List A) → drop (length xs) xs ≡ []
  drop-length [] = refl
  drop-length (x ∷ xs) = drop-length xs

  pub drop-get_or :
      (k : ℕ) (xs : List A) → k < length xs → drop k xs ≡ get_or xs k value ∷ drop (suc k) xs
  drop-get_or k [] h = elim h [ ]
  drop-get_or zero (x ∷ xs) h = refl
  drop-get_or (suc k) (x ∷ xs) h = drop-get_or k xs (omega arith)

  collect_lem :
      (r : RingBuffer A) (pending : List A)
      → Represents r pending
      → (left k : ℕ) → k + left ≡ length pending
      → length pending ≤ k + r.capacity
      → collect r.buf r.capacity value (r.read_idx + k) left ≡ drop k pending
  unfolding collect
  collect_lem r pending h zero k e q =
      let done : k ≡ length pending = omega arith in sym (rw done (drop-length pending))
  collect_lem r pending h (suc left) k e q =
      let next : r.read_idx + k + 1 ≡ r.read_idx + suc k = omega arith in
      rw (next, h.readable k (omega arith) q)
        (ap (λ rest. get_or pending k value ∷ rest)
            (collect_lem r pending h left (suc k) (omega arith) (omega arith))
          ∙ sym (drop-get_or k pending (omega arith)))

  -- Draining a ring that represents a queue that is not empty returns the newest entries in
  -- order, at most capacity of them, counts the older ones as lost, and leaves a ring that
  -- represents the empty queue.
  pub drain_lem :
      (r : RingBuffer A) (pending out : List A)
      → Represents r pending
      → pending ≢ []
      → let result = drain value r out in
        (result.count ≡ min r.capacity (length pending))
        × (result.dropped ≡ length pending - r.capacity)
        × (result.out ≡ drop (length pending - r.capacity) pending)
        × Represents result.ring []
  unfolding drain
  drain_lem r [] out h ne = absurd (ne refl)
  drain_lem r (x ∷ xs) out h ne =
      let all : List A = x ∷ xs in
      let lost : ℕ = length all - r.capacity in
      (
        ground (arith, h.indices),
        ground (arith, h.indices),
        ground (
          arith,
          h.indices,
          collect_lem r all h (min r.capacity (length all)) lost (omega arith) (omega arith),
        ),
        record {
          positive = ground (arith, h.positive);
          sized = ground (arith, h.sized);
          indices = ground (arith, h.indices);
          readable = λ j p q. absurd (omega arith);
        },
      )
