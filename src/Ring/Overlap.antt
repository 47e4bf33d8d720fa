-- ===== src/Ring/Overlap.antt =====
-- A drain of a ring while the producer goes on pushing.
use mathlib.Core.List.{flatten, append_assoc, append-nil}
use mathlib.Core.Path.{subst}
use motor_control.Base.{
  ℕ, zero, suc, ◌+◌, ◌-◌, ◌%◌, ◌^◌, ◌≤◌, ◌<◌, ◌≡◌, ◌≢◌, refl, sym, ap, ◌∙◌, List, [], ◌∷◌, ◌++◌,
  arith, length, length-append, get_or, drop,
}
use motor_control.Ring.{RingBuffer, push, push_all, collect_during, drain_during}
use motor_control.Ring.Queue.{
  Represents, push-Represents, get_or-append_left, drop-get_or, drop-length,
}

module _ {A : Type 0} (value : A) where
  get_or-append_right :
      (xs ys : List A) (j : ℕ) → get_or (xs ++ ys) (length xs + j) value ≡ get_or ys j value
  get_or-append_right [] ys j = ap (λ n. get_or ys n value) (omega arith)
  get_or-append_right (x ∷ xs) ys j =
      let next : suc (length xs) + j ≡ suc (length xs + j) = omega arith in
      rw next (get_or-append_right xs ys j)

  -- What has been read is forgotten when the read index passes it.
  forget-Represents :
      (r : RingBuffer A) (xs ys : List A)
      → Represents value r (xs ++ ys)
      → Represents value (record r { read_idx = r.read_idx + length xs }) ys
  forget-Represents r xs ys h = record {
    positive = h.positive;
    sized = h.sized;
    indices = omega (arith, h.indices, length-append xs ys);
    readable = λ j p q.
        let there : r.read_idx + length xs + j ≡ r.read_idx + (length xs + j) = omega arith in
        rw there (
          h.readable (length xs + j) (omega (arith, length-append xs ys))
            (omega (arith, length-append xs ys))
          ∙ get_or-append_right xs ys j);
  }

  push_indices :
      (r : RingBuffer A) (v : A)
      → ((push r v).read_idx ≡ r.read_idx)
        × ((push r v).capacity ≡ r.capacity)
        × (r.write_idx + 1 < 2 ^ 64 → (push r v).write_idx ≡ r.write_idx + 1)
  unfolding push
  push_indices r v = (refl, refl, λ small. omega arith)

  -- Pushing keeps what the reader owns.
  pub push_all-Represents :
      (vs : List A) (r : RingBuffer A) (pending : List A)
      → Represents value r pending
      → r.write_idx + length vs < 2 ^ 64
      → Represents value (push_all r vs) (pending ++ vs)
        × ((push_all r vs).read_idx ≡ r.read_idx)
        × ((push_all r vs).capacity ≡ r.capacity)
        × ((push_all r vs).write_idx ≡ r.write_idx + length vs)
  unfolding push_all
  push_all-Represents [] r pending h small =
      (subst (Represents value r) (sym (append-nil pending)) h, refl, refl, omega arith)
  push_all-Represents (v ∷ vs) r pending h small =
      let one : Represents value (push r v) (pending ++ v ∷ []) =
        push-Represents value r pending v h (omega arith) in
      let (same, size, next) = push_indices r v in
      let here : (push r v).write_idx ≡ r.write_idx + 1 = next (omega arith) in
      let rest = push_all-Represents vs (push r v) (pending ++ v ∷ []) one (omega arith) in
      (
        subst (Represents value (push_all (push r v) vs)) (append_assoc pending (v ∷ []) vs) rest.0,
        rest.1 ∙ same,
        rest.2 ∙ size,
        omega (arith, rest.3),
      )

  -- What the loop reads while `batches` are pushed, and what it leaves.
  collect_during_lem :
      (batches : List (List A)) (left k i : ℕ) (r : RingBuffer A) (pending new : List A)
      → Represents value r (pending ++ new)
      → i ≡ r.read_idx + k
      → k + left ≡ length pending
      → length batches ≡ left
      → length pending + length new + length (flatten batches) ≤ r.capacity
      → r.write_idx + length (flatten batches) < 2 ^ 64
      → let result = collect_during value i left batches r in
        (result.0 ≡ drop k pending)
        × Represents value result.1 (pending ++ (new ++ flatten batches))
        × (result.1.read_idx ≡ r.read_idx)
        × (result.1.capacity ≡ r.capacity)
        × (result.1.write_idx ≡ r.write_idx + length (flatten batches))
  unfolding collect_during flatten
  collect_during_lem [] zero k i r pending new h here all same room small = (
    sym (ap (λ n. drop n pending) (omega arith) ∙ drop-length value pending),
    subst (λ vs. Represents value r (pending ++ vs)) (sym (append-nil new)) h,
    refl,
    refl,
    omega arith,
  )
  collect_during_lem (b ∷ bs) zero k i r pending new h here all same room small =
      absurd (omega arith)
  collect_during_lem [] (suc left) k i r pending new h here all same room small =
      absurd (omega arith)
  collect_during_lem (b ∷ bs) (suc left) k i r pending new h here all same room small =
      let pushed : RingBuffer A = push_all r b in
      let sizes : length (b ++ flatten bs) ≡ length b + length (flatten bs) =
        length-append b (flatten bs) in
      let one = push_all-Represents b r (pending ++ new) h (omega arith) in
      let next : Represents value pushed (pending ++ (new ++ b)) =
        subst (Represents value pushed) (append_assoc pending new b) one.0 in
      let place : i % r.capacity ≡ (pushed.read_idx + k) % pushed.capacity =
        cc (here, one.1, one.2) in
      let entry : get_or pushed.buf (i % r.capacity) value ≡ get_or pending k value =
        ap (λ n. get_or pushed.buf n value) place
        ∙ next.readable k (omega (arith, length-append pending (new ++ b)))
            (omega (arith, one.2, length-append pending (new ++ b), length-append new b))
        ∙ get_or-append_left value pending (new ++ b) k (omega arith) in
      let rest =
        collect_during_lem bs left (suc k) (i + 1) pushed pending (new ++ b) next
          (omega (arith, one.1)) (omega arith) (omega arith)
          (omega (arith, one.2, length-append new b)) (omega (arith, one.3)) in
      (
        cc (entry, rest.0, drop-get_or value k pending (omega arith)),
        subst
            (λ vs. Represents value (collect_during value (i + 1) left bs pushed).1 (pending ++ vs))
            (append_assoc new b (flatten bs)) rest.1,
        rest.2 ∙ one.1,
        rest.3 ∙ one.2,
        omega (arith, rest.4, one.3),
      )

  -- With a ring that represents `pending`, which is not empty, a producer that pushes before
  -- each entry is read and before the drain ends, room in the ring for what it pushes as well,
  -- and a write index that stays below 2^64: the drain returns exactly `pending` in order and
  -- loses nothing, and afterwards the ring represents what was pushed meanwhile.
  pub drain_during_lem :
      (r : RingBuffer A) (pending out last : List A) (batches : List (List A))
      → Represents value r pending
      → pending ≢ []
      → length batches ≡ length pending
      → length pending + length (flatten batches) + length last ≤ r.capacity
      → r.write_idx + length (flatten batches) + length last < 2 ^ 64
      → let result = drain_during value batches last r out in
        (result.out ≡ pending)
        × (result.count ≡ length pending)
        × (result.dropped ≡ 0)
        × Represents value result.ring (flatten batches ++ last)
  unfolding drain_during
  drain_during_lem r [] out last batches h ne same room small = absurd (ne refl)
  drain_during_lem r (x ∷ xs) out last batches h ne same room small =
      let all : List A = x ∷ xs in
      let start : Represents value r (all ++ []) =
        subst (Represents value r) (sym (append-nil all)) h in
      let read =
        collect_during_lem batches (length all) 0 r.read_idx r all [] start (omega arith)
          (omega arith) same (omega arith) (omega arith) in
      let ended =
        push_all-Represents last (collect_during value r.read_idx (length all) batches r).1
          (all ++ flatten batches) read.1 (omega (arith, read.4)) in
      let after : RingBuffer A =
        push_all (collect_during value r.read_idx (length all) batches r).1 last in
      let kept : Represents value after (all ++ (flatten batches ++ last)) =
        subst (Represents value after) (append_assoc all (flatten batches) last) ended.0 in
      let moved : after.read_idx + length all ≡ r.write_idx =
        omega (arith, h.indices, ended.1, read.2) in
      let forgotten : Represents value (record after { read_idx = r.write_idx })
          (flatten batches ++ last) =
        subst (λ n. Represents value (record after { read_idx = n }) (flatten batches ++ last))
          moved (forget-Represents after all (flatten batches ++ last) kept) in
      let count : r.write_idx - r.read_idx ≡ length all = omega (arith, h.indices) in
      let begins : r.write_idx - length all ≡ r.read_idx = omega (arith, h.indices) in
      (
        ground (arith, count, begins, read.0),
        ground (arith, count),
        ground (arith, count),
        subst (λ ring. Represents value ring (flatten batches ++ last))
            (ground (arith, count, begins)) forgotten,
      )
