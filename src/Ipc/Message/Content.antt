-- ===== src/Ipc/Message/Content.antt =====
-- wv_ipc/wave_ipc_core.c: a message's data as the bytes that the caller sees, against the operations.
use dwpal.Common.{
  ℕ, zero, suc, ◌+◌, ◌^◌, ◌≤◌, ◌<◌, ◌≡◌, refl, ap, List, [], ◌∷◌, ◌++◌, ◌⊎◌, inl, inr, some, arith,
  length, take, take-all, blit,
}
use native.Mathlib.Decide.{dec_le}
use dwpal.Ipc.Message.{Msg, success, error, buff_size, fill_data, append_data}
use dwpal.Ipc.Message.Bounds.{IsBounded}

-- The bytes of the message: as many of the buffer as `data_len` says.
abbrev pub content : Msg → List ℕ
content m = take m.data_len m.payload

-- The first `k` cells after a copy of `n` bytes that ends at `k`.
pub take-blit :
    (dst : List ℕ) (i n k : ℕ) (src : List ℕ)
    → n ≡ length src
    → i + n ≡ k
    → k ≤ length dst
    → take k (blit dst i src) ≡ take i dst ++ src
take-blit [] zero n zero [] a e h = refl
take-blit [] i n k (y ∷ src) a e h = absurd (omega arith)
take-blit [] (suc i) n k [] a e h = absurd (omega arith)
take-blit [] zero n (suc k) [] a e h = absurd (omega arith)
take-blit (x ∷ xs) (suc i) n zero src a e h = absurd (omega arith)
take-blit (x ∷ xs) (suc i) n (suc k) src a e h =
    ap (λ t. x ∷ t) (take-blit xs i n k src a (omega arith) (omega arith))
take-blit (x ∷ xs) zero n zero [] a e h = refl
take-blit (x ∷ xs) zero n (suc k) [] a e h = absurd (omega arith)
take-blit (x ∷ xs) zero n zero (y ∷ src) a e h = absurd (omega arith)
take-blit (x ∷ xs) zero zero (suc k) (y ∷ src) a e h = absurd (omega arith)
take-blit (x ∷ xs) zero (suc n) (suc k) (y ∷ src) a e h =
    ap (λ t. y ∷ t) (take-blit xs zero n k src (omega arith) (omega arith) (omega arith))

-- `wave_ipc_msg_append_data` of at least one byte to a message within its buffer appends the bytes where
-- they fit, and otherwise refuses and changes nothing, if the `size_t` sum of the lengths does not wrap.
pub content-append_data :
    (m : Msg) (src : List ℕ) (len : ℕ)
    → IsBounded m
    → len ≡ length src
    → 0 < len
    → len + m.data_len < 2 ^ 64
    → ((len + m.data_len ≤ buff_size)
        × ((append_data (some src) len m).0 ≡ success)
        × (content (append_data (some src) len m).1 ≡ content m ++ src))
      ⊎ ((buff_size < len + m.data_len) × (append_data (some src) len m ≡ (error, m)))
unfolding append_data
content-append_data m src len v e pos nowrap = elim (dec_le (len + m.data_len) buff_size) [
  | yes fits ↦ inl (
    fits,
    ground arith,
    ground (
      arith,
      take-all len src e,
      take-blit m.payload m.data_len len (m.data_len + len) src e refl (omega arith),
    ),
  )
  | no long ↦ inr (omega arith, ground arith)
]

-- `wave_ipc_msg_fill_data` of a non-NULL buffer, on a message within its buffer, sets the bytes of an
-- empty message that they fit in; where they do not fit, or the message has bytes already, it refuses and
-- changes nothing.
pub content-fill_data :
    (m : Msg) (src : List ℕ) (len : ℕ)
    → IsBounded m
    → len ≡ length src
    → ((len ≤ buff_size)
        × (m.data_len ≡ 0)
        × ((fill_data (some src) len m).0 ≡ success)
        × (content (fill_data (some src) len m).1 ≡ src))
      ⊎ (((buff_size < len) ⊎ (0 < m.data_len)) × (fill_data (some src) len m ≡ (error, m)))
unfolding fill_data
content-fill_data m src len v e = elim (dec_le len buff_size) [
  | yes fits ↦ elim (dec_le m.data_len 0) [
    | yes fresh ↦ inl (
      fits,
      omega arith,
      ground arith,
      ground (
        arith,
        take-all len src e,
        take-blit m.payload 0 len len src e (omega arith) (omega arith),
      ),
    )
    | no full ↦ inr (inr (omega arith), ground arith)
  ]
  | no long ↦ inr (inl (omega arith), ground arith)
]
