-- ===== src/Oal/Fifo.antt =====
-- iw_oal_fifo.c. The memory behind `block_pdata` is the list of its blocks, `block_count` of
-- `block_size` bytes each, so that `block_pdata + pos * block_size` is the block `pos`. Positions
-- are unsigned with 32 bits.
pub mod Ring
pub mod Queue
pub mod Refine
use io_tware.Common.{
  ℕ, ◌+◌, ◌-◌, ◌%◌, ◌^◌, Option, none, some, List, ltb, ◌==◌, if◌then◌else◌, get_or, set, length,
  take, Exec, ok, undefined, Bytes, ◌>>=◌, read, [], leb,
}

pub record Fifo : Type 0 where
  pub put_pos : ℕ
  pub get_pos : ℕ
  pub block_size : ℕ
  pub block_count : ℕ
  pub blocks : List Bytes

pub data IwError : Type 0 where
  success fail : IwError

abbrev pub u32 : ℕ → ℕ
u32 n = n % 4294967296

unfoldable pub iw_init_fifo : List Bytes → ℕ → ℕ → IwError × Fifo
iw_init_fifo pdata size count = (
  success,
  record { put_pos = 0; get_pos = 0; block_size = size; block_count = count; blocks = pdata },
)

-- `IW_PUT_FIFO_NEXT` and `IW_GET_FIFO_NEXT`
unfoldable pub next : Fifo → ℕ → ℕ
next f pos = u32 (pos + 1) % f.block_count

unfoldable pub iw_put_fifo : Fifo → Bytes → Exec (IwError × Fifo)
unfolding next
iw_put_fifo f pdata =
    let put_next_pos = next f f.put_pos in
    if f.get_pos == put_next_pos
    then ok (fail, f)
    else (if ltb f.put_pos (length f.blocks)
        then (do
          (block, _) ← read f.block_size pdata
          ok (success, record f { put_pos = put_next_pos; blocks = set f.blocks f.put_pos block }))
        else undefined)

-- What is copied to `pdata`, if anything, and the fifo.
unfoldable pub iw_get_fifo : Fifo → Exec (IwError × Option Bytes × Fifo)
unfolding next
iw_get_fifo f =
    if f.put_pos == f.get_pos
    then ok (fail, none, f)
    else (if ltb f.get_pos (length f.blocks)
        then ok
            (success, some (get_or f.blocks f.get_pos []), record f { get_pos = next f f.get_pos })
        else undefined)

unfoldable pub iw_count_fifo : Fifo → ℕ
iw_count_fifo f =
    if ltb f.get_pos f.put_pos
    then f.put_pos - f.get_pos
    else (if f.get_pos == f.put_pos
        then 0
        else u32 (u32 (f.put_pos + f.block_count) + 4294967296 - f.get_pos))

unfoldable pub iw_flush_fifo : Fifo → IwError × Fifo
iw_flush_fifo f = (success, record f { get_pos = f.put_pos })
