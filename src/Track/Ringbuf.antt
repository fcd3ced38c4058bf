-- ===== src/Track/Ringbuf.antt =====
-- lib/ngtcp2_ringbuf.c: a ring of at most `nmemb` elements, the newest one first. `buf` is the list
-- of the `nmemb` slots, and a pointer into `buf` the number of the slot.
pub mod Mask
pub mod Refine
use ngtcp.Base.{
  ltb, leb, ◌==◌, length, elem_at, set_elem, nomem, Result, ok, err, ◌>>=◌, ◌>>◌, assert, ℕ, zero,
  suc, ◌+◌, ◌-◌, ◌/◌, ◌%◌, min, bit_and, Option, none, some, List,
}
use ngtcp.Pkt.Cursor.{add_size}

pub record Ringbuf {ℓ} (A : Type ℓ) : Type ℓ where
  pub buf : List A
  pub nmemb : ℕ
  pub size : ℕ
  pub first : ℕ
  pub len : ℕ

-- `size_t` subtraction
abbrev pub sub_size : ℕ → ℕ → ℕ
sub_size a b = (a + 18446744073709551616 - b) % 18446744073709551616

-- The ones among the `k` low bits: `__builtin_popcount` for 32.
unfoldable pub popcount : ℕ → ℕ → ℕ
popcount zero n = 0
popcount (suc k) n = n % 2 + popcount k (n / 2)

module _ {ℓ} {A : Type ℓ} where
  -- `ngtcp2_ringbuf_init` behind the allocation.
  unfoldable pub allocated : ℕ → ℕ → Option (List A) → Result (Ringbuf A)
  allocated nmemb size none = err nomem
  allocated nmemb size (some buf) =
      ok record { buf = buf; nmemb = nmemb; size = size; first = sub_size size 1; len = 0 }

  -- `malloc nmemb` is what the allocator gives: no memory, or slots with anything in them.
  unfoldable pub ringbuf_init : (ℕ → Option (List A)) → ℕ → ℕ → Result (Ringbuf A)
  ringbuf_init malloc nmemb size = do
    assert (popcount 32 (nmemb % 4294967296) == 1)
    allocated nmemb size (malloc nmemb)

  -- The ring, and the slot that the caller fills.
  unfoldable pub ringbuf_push_front : Ringbuf A → Ringbuf A × ℕ
  ringbuf_push_front rb =
      let first = bit_and (sub_size rb.first 1) (sub_size rb.nmemb 1) in
      (record rb { first = first; len = min rb.nmemb (add_size rb.len 1) }, first)

  unfoldable pub ringbuf_resize : Ringbuf A → ℕ → Result (Ringbuf A)
  ringbuf_resize rb len = do assert (leb len rb.nmemb); ok (record rb { len = len })

  -- What the pointer that `ngtcp2_ringbuf_get` returns points to.
  unfoldable pub ringbuf_get : Ringbuf A → ℕ → Result A
  ringbuf_get rb offset = do
    assert (ltb offset rb.len)
    elem_at (bit_and (add_size rb.first offset) (sub_size rb.nmemb 1)) rb.buf

  unfoldable pub ringbuf_len : Ringbuf A → ℕ
  ringbuf_len rb = rb.len

  -- `*slot = a`
  unfoldable pub put_slot : ℕ → A → Ringbuf A → Result (Ringbuf A)
  put_slot slot a rb = do
    assert (ltb slot (length rb.buf))
    ok (record rb { buf = set_elem slot a rb.buf })
