-- ===== src/IoQueue/Ring.antt =====
-- The ring as the sequence of the characters that are in it.
use lutf.Base.{
  ◌∙◌, length-set, length-append, get_elem?-set_self, get_elem?-set_ne, ℕ, ◌+◌, ◌%◌, ◌<◌, ◌≡◌, ◌≢◌,
  ◌==◌, List, [], ◌∷◌, ◌++◌, arith, get_elem?, set, length, some, Unit₀,
}
use lutf.IoQueue.{IoQueue, next_pos, ioq_full, ioq_empty, ioq_length}

-- From the slot `pos` on, round the end, the buffer holds the characters `xs`.
abbrev pub Slots : List ℕ → ℕ → List ℕ → Type 0
Slots buf pos [] = Unit₀
Slots buf pos (x ∷ xs) = (get_elem? buf pos ≡ some x) × Slots buf (next_pos pos) xs

-- The queue holds the characters `xs`, the oldest first.
pub record IsRing (q : IoQueue) (xs : List ℕ) : Type 0 where
  pub slots : Slots q.buf q.tail xs
  pub size : length q.buf ≡ 64
  pub tail_in : q.tail < 64
  pub head_at : q.head ≡ (q.tail + length xs) % 64
  pub room : length xs < 64

-- `ioq_length` counts the characters of the queue.
pub ioq_length-length : (q : IoQueue) (xs : List ℕ) → IsRing q xs → ioq_length q ≡ length xs
ioq_length-length q xs r = ground (arith, r.head_at, r.tail_in, r.room)

-- `ioq_empty` and `ioq_full` tell whether there is no character, and whether there are 63.
pub ioq_empty-full :
    (q : IoQueue) (xs : List ℕ)
    → IsRing q xs
    → (ioq_empty q ≡ (length xs == 0)) × (ioq_full q ≡ (length xs == 63))
ioq_empty-full q xs r =
    (ground (arith, r.head_at, r.tail_in, r.room), ground (arith, r.head_at, r.tail_in, r.room))

Slots-put :
    (buf : List ℕ) (pos h b : ℕ) (xs : List ℕ)
    → length buf ≡ 64
    → pos < 64
    → length xs < 64
    → h ≡ (pos + length xs) % 64
    → Slots buf pos xs
    → Slots (set buf h b) pos (xs ++ (b ∷ []))
Slots-put buf pos h b [] size hp room e slots =
    let here : h ≡ pos = omega arith in (rw here (get_elem?-set_self buf pos b (omega arith)), tt)
Slots-put buf pos h b (x ∷ xs) size hp room e slots =
    let apart : h ≢ pos = omega arith in
    (
      get_elem?-set_ne buf b apart ∙ slots.0,
      Slots-put buf (next_pos pos) h b xs size (omega arith) (omega arith) (omega arith) slots.1,
    )

-- a character is written behind the others
pub put-IsRing :
    (q : IoQueue) (xs : List ℕ) (b : ℕ)
    → IsRing q xs
    → length xs < 63
    → IsRing (record q { buf = set q.buf q.head b; head = next_pos q.head }) (xs ++ (b ∷ []))
put-IsRing q xs b r more = record {
  slots = Slots-put q.buf q.tail q.head b xs r.size r.tail_in r.room r.head_at r.slots;
  size = length-set q.buf q.head b ∙ r.size;
  tail_in = r.tail_in;
  head_at = omega (arith, r.head_at, length-append xs (b ∷ []));
  room = omega (arith, length-append xs (b ∷ []));
}

-- the first character is taken away
pub get-IsRing :
    (q : IoQueue) (x : ℕ) (xs : List ℕ)
    → IsRing q (x ∷ xs)
    → IsRing (record q { tail = next_pos q.tail }) xs
get-IsRing q x xs r = record {
  slots = r.slots.1;
  size = r.size;
  tail_in = omega arith;
  head_at = omega (arith, r.head_at);
  room = omega (arith, r.room);
}
