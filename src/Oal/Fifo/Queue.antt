-- ===== src/Oal/Fifo/Queue.antt =====
-- The fifo as a queue of blocks that holds one less than it has room for.
use io_tware.Common.{
  ℕ, zero, suc, ◌+◌, ◌%◌, ◌<◌, ◌≤◌, ◌≡◌, ◌≢◌, refl, sym, ap, ap₂, ◌∙◌, none, some, List, [], ◌∷◌,
  ◌++◌, get_or, set, length, ok, Bytes, read_all, ne→==_false, ==_refl, lt→ltb, arith,
}
use io_tware.Oal.Fifo.{
  Fifo, success, fail, u32, iw_put_fifo, iw_get_fifo, iw_count_fifo, iw_flush_fifo, iw_init_fifo,
}
use io_tware.Oal.Fifo.Ring.{
  following, waiting, mod-following, following-lt, distance, distance-full, distance-room,
  distance-following, distance-zero, distance-same, get-set_same, length-set, waiting-snoc,
  waiting-set,
}

-- Positions within the memory, of which the fifo has all. A count up to 2^31 keeps the positions'
-- sums within 32 bits.
pub record Valid (f : Fifo) : Type 0 where
  pub put_in : f.put_pos < f.block_count
  pub get_in : f.get_pos < f.block_count
  pub room : length f.blocks ≡ f.block_count
  pub small : f.block_count ≤ 2147483648

-- A valid fifo with the memory's layout of another one.
pub record Keeps (f f' : Fifo) : Type 0 where
  pub valid : Valid f'
  pub same_size : f'.block_size ≡ f.block_size
  pub same_count : f'.block_count ≡ f.block_count

-- The blocks that wait, the next to be read first.
unfoldable pub contents : Fifo → List Bytes
contents f = waiting (iw_count_fifo f) f.block_count f.get_pos f.blocks

next-following :
    (f : Fifo) (i : ℕ)
    → i < f.block_count
    → f.block_count ≤ 2147483648
    → u32 (i + 1) % f.block_count ≡ following f.block_count i
next-following f i h s =
    let e : (i + 1) % 4294967296 ≡ i + 1 = omega arith in rw e (mod-following f.block_count i h)

count-distance : (f : Fifo) → Valid f → iw_count_fifo f ≡ distance f.block_count f.get_pos f.put_pos
unfolding iw_count_fifo
count-distance f v = let a = v.put_in in let b = v.get_in in let s = v.small in ground arith

-- An empty fifo of the given blocks.
pub init-Valid :
    (mem : List Bytes) (size : ℕ)
    → 0 < length mem
    → length mem ≤ 2147483648
    → Valid (iw_init_fifo mem size (length mem)).1
unfolding iw_init_fifo
init-Valid mem size h l = record { put_in = h; get_in = h; room = refl; small = l }

-- The fifo with a block put or got.
abbrev with_put : Fifo → Bytes → Fifo
with_put f d = record f {
  put_pos = following f.block_count f.put_pos;
  blocks = set f.blocks f.put_pos d;
}

abbrev with_get : Fifo → Fifo
with_get f = record f { get_pos = following f.block_count f.get_pos }

with_put-Valid : (f : Fifo) (d : Bytes) → Valid f → Valid (with_put f d)
with_put-Valid f d v = record {
  put_in = following-lt f.block_count f.put_pos v.put_in;
  get_in = v.get_in;
  room = length-set f.blocks f.put_pos d ∙ v.room;
  small = v.small;
}

with_get-Valid : (f : Fifo) → Valid f → Valid (with_get f)
with_get-Valid f v = record {
  put_in = v.put_in;
  get_in = following-lt f.block_count f.get_pos v.get_in;
  room = v.room;
  small = v.small;
}

contents-distance :
    (f : Fifo)
    → Valid f
    → contents f
      ≡ waiting (distance f.block_count f.get_pos f.put_pos) f.block_count f.get_pos f.blocks
unfolding contents
contents-distance f v = ap (λ n. waiting n f.block_count f.get_pos f.blocks) (count-distance f v)

with_put-contents :
    (f : Fifo) (d : Bytes)
    → Valid f
    → iw_count_fifo f + 1 < f.block_count
    → contents (with_put f d) ≡ contents f ++ (d ∷ [])
with_put-contents f d v l =
    let c = f.block_count in
    let g = f.get_pos in
    let p = f.put_pos in
    let n = distance c g p in
    let mem = set f.blocks p d in
    let e = count-distance f v in
    let room = distance-room c g p v.get_in v.put_in (omega (arith, e)) in
    let inside : p < length f.blocks = omega (arith, v.room, v.put_in) in
    contents-distance (with_put f d) (with_put-Valid f d v)
    ∙ ap (λ k. waiting k c g mem) room.1
    ∙ waiting-snoc n c g p mem v.get_in v.put_in refl
    ∙ ap₂ (λ xs x. xs ++ (x ∷ [])) (waiting-set n c g p f.blocks d v.get_in v.put_in refl)
        (get-set_same f.blocks p d inside)
    ∙ ap (λ xs. xs ++ (d ∷ [])) (sym (contents-distance f v))

-- What putting a block of the right size does to a valid fifo that is not full: it succeeds, the
-- fifo stays valid, and the block waits behind the others.
pub put-contents :
    (f : Fifo) (d : Bytes)
    → Valid f
    → f.block_size ≡ length d
    → iw_count_fifo f + 1 < f.block_count
    → (f' : Fifo) × (iw_put_fifo f d ≡ ok (success, f'))
      × Keeps f f'
      × (contents f' ≡ contents f ++ (d ∷ []))
unfolding iw_put_fifo
put-contents f d v hs l =
    let e = count-distance f v in
    let room =
      distance-room f.block_count f.get_pos f.put_pos v.get_in v.put_in (omega (arith, e)) in
    (
      with_put f d,
      rw (
        next-following f f.put_pos v.put_in v.small,
        ne→==_false f.get_pos (following f.block_count f.put_pos) room.0,
        lt→ltb f.put_pos (length f.blocks) (omega (arith, v.room, v.put_in)),
        read_all f.block_size d hs,
      ),
      record { valid = with_put-Valid f d v; same_size = refl; same_count = refl },
      with_put-contents f d v l,
    )

-- A valid fifo that is full, with one block less than it has room for, takes no further block and
-- stays as it is.
pub put-full :
    (f : Fifo) (d : Bytes)
    → Valid f
    → iw_count_fifo f + 1 ≡ f.block_count
    → iw_put_fifo f d ≡ ok (fail, f)
unfolding iw_put_fifo
put-full f d v h =
    let e = count-distance f v in
    let full =
      distance-full f.block_count f.get_pos f.put_pos v.get_in v.put_in (omega (arith, e)) in
    rw (next-following f f.put_pos v.put_in v.small, sym full, ==_refl f.get_pos)

with_get-contents :
    (f : Fifo)
    → Valid f
    → f.get_pos ≢ f.put_pos
    → contents f ≡ get_or f.blocks f.get_pos [] ∷ contents (with_get f)
with_get-contents f v n =
    let c = f.block_count in
    let step = distance-following c f.get_pos f.put_pos v.get_in v.put_in n in
    contents-distance f v
    ∙ ap (λ k. waiting k c f.get_pos f.blocks) step
    ∙ ap (λ xs. get_or f.blocks f.get_pos [] ∷ xs)
        (sym (contents-distance (with_get f) (with_get-Valid f v)))

count-apart : (f : Fifo) → Valid f → 0 < iw_count_fifo f → f.get_pos ≢ f.put_pos
count-apart f v l q = let e = count-distance f v in let a = v.put_in in ground arith

-- Getting from a valid fifo that is not empty succeeds, takes the block that waits first, and leaves
-- a valid fifo with the others.
pub get-contents :
    (f : Fifo)
    → Valid f
    → 0 < iw_count_fifo f
    → (d : Bytes) × (f' : Fifo) × (iw_get_fifo f ≡ ok (success, some d, f'))
      × Keeps f f'
      × (contents f ≡ d ∷ contents f')
unfolding iw_get_fifo
get-contents f v l =
    let n = count-apart f v l in
    (
      get_or f.blocks f.get_pos [],
      with_get f,
      rw (
        next-following f f.get_pos v.get_in v.small,
        ne→==_false f.put_pos f.get_pos (λ q. n (sym q)),
        lt→ltb f.get_pos (length f.blocks) (omega (arith, v.room, v.get_in)),
      ),
      record { valid = with_get-Valid f v; same_size = refl; same_count = refl },
      with_get-contents f v n,
    )

-- Nothing is taken from an empty fifo.
pub get-empty : (f : Fifo) → Valid f → iw_count_fifo f ≡ 0 → iw_get_fifo f ≡ ok (fail, none, f)
unfolding iw_get_fifo
get-empty f v h =
    let e = count-distance f v in
    let q = distance-zero f.block_count f.get_pos f.put_pos v.get_in v.put_in (sym e ∙ h) in
    rw (q, ==_refl f.put_pos)

-- A valid fifo that is flushed is valid and empty.
pub flush-contents :
    (f : Fifo) → Valid f → Keeps f (iw_flush_fifo f).1 × (contents (iw_flush_fifo f).1 ≡ [])
unfolding iw_flush_fifo
flush-contents f v =
    let v' : Valid (record f { get_pos = f.put_pos }) = record {
      put_in = v.put_in;
      get_in = v.put_in;
      room = v.room;
      small = v.small;
    } in
    (
      record { valid = v'; same_size = refl; same_count = refl },
      contents-distance (record f { get_pos = f.put_pos }) v'
          ∙ ap (λ n. waiting n f.block_count f.put_pos f.blocks)
              (distance-same f.block_count f.put_pos),
    )

length-waiting : (n c i : ℕ) (mem : List Bytes) → length (waiting n c i mem) ≡ n
length-waiting zero c i mem = refl
length-waiting (suc n) c i mem = ap suc (length-waiting n c (following c i) mem)

-- As many blocks wait as are counted.
pub length-contents : (f : Fifo) → length (contents f) ≡ iw_count_fifo f
unfolding contents
length-contents f = length-waiting (iw_count_fifo f) f.block_count f.get_pos f.blocks

pub count-room : (f : Fifo) → Valid f → iw_count_fifo f < f.block_count
count-room f v = let e = count-distance f v in let a = v.put_in in let b = v.get_in in ground arith
