-- ===== src/Oal/Fifo/Refine.antt =====
-- The fifo against a queue that holds a bounded number of blocks.
use io_tware.Common.{
  ℕ, suc, ◌+◌, ◌≡◌, ◌≢◌, refl, sym, subst, ap, ◌∙◌, ◌⊎◌, inl, inr, Option, none, some, List, [],
  ◌∷◌, ◌++◌, length, Exec, ok, ◌>>=◌, Bytes, All, ◌==◌, if◌then◌else◌, ==_refl, ne→==_false, arith,
}
use io_tware.Oal.Fifo.{
  Fifo, IwError, success, fail, iw_put_fifo, iw_get_fifo, iw_count_fifo, iw_flush_fifo,
}
use io_tware.Oal.Fifo.Queue.{
  Valid, Keeps, contents, put-contents, put-full, get-contents, get-empty, flush-contents,
  length-contents, count-room,
}

-- A call, and what it tells the caller.
pub data Operation : Type 0 where
  put : Bytes → Operation
  get : Operation
  flush : Operation

abbrev pub Reply : Type 0
Reply = IwError × Option Bytes

unfoldable pub code_step : Operation → Fifo → Exec (Reply × Fifo)
code_step (put d) f = do (result, f') ← iw_put_fifo f d; ok ((result, none), f')
code_step get f = do (result, got, f') ← iw_get_fifo f; ok ((result, got), f')
code_step flush f = ok (((iw_flush_fifo f).0, none), (iw_flush_fifo f).1)

unfoldable pub code_run : List Operation → Fifo → Exec (List Reply × Fifo)
unfolding code_step
code_run [] f = ok ([], f)
code_run (o ∷ os) f = do
  (reply, f') ← code_step o f
  (replies, f'') ← code_run os f'
  ok (reply ∷ replies, f'')

-- A queue with room for `capacity` blocks.
unfoldable pub queue_step : ℕ → Operation → List Bytes → Reply × List Bytes
queue_step capacity (put d) xs =
    if length xs == capacity then ((fail, none), xs) else ((success, none), xs ++ (d ∷ []))
queue_step capacity get [] = ((fail, none), [])
queue_step capacity get (x ∷ xs) = ((success, some x), xs)
queue_step capacity flush xs = ((success, none), [])

unfoldable pub queue_run : ℕ → List Operation → List Bytes → List Reply × List Bytes
unfolding queue_step
queue_run capacity [] xs = ([], xs)
queue_run capacity (o ∷ os) xs =
    let (reply, ys) = queue_step capacity o xs in
    let (replies, zs) = queue_run capacity os ys in (reply ∷ replies, zs)

-- A block that is put has the fifo's block size.
abbrev pub Fits : ℕ → Operation → Type 0
Fits size (put d) = size ≡ length d
Fits size get = Unit
Fits size flush = Unit

eq_or_ne : (a b : ℕ) → (a ≡ b) ⊎ (a ≢ b)
eq_or_ne a b = ground arith

-- What a step of the code is to give, for the step of the queue.
Does : Fifo → Operation → Reply × List Bytes → Type 0
Does f o r = (f' : Fifo) × (code_step o f ≡ ok (r.0, f')) × Keeps f f' × (contents f' ≡ r.1)

same_head : {x y : Bytes} {xs ys : List Bytes} → ◌≡◌ {A = List Bytes} (x ∷ xs) (y ∷ ys) → x ≡ y
same_head e = cc

same_tail : {x y : Bytes} {xs ys : List Bytes} → ◌≡◌ {A = List Bytes} (x ∷ xs) (y ∷ ys) → xs ≡ ys
same_tail e = cc

put-Does :
    (f : Fifo) (capacity : ℕ) (d : Bytes)
    → Valid f
    → f.block_count ≡ capacity + 1
    → f.block_size ≡ length d
    → Does f (put d) (queue_step capacity (put d) (contents f))
unfolding Does code_step queue_step
put-Does f capacity d v e fits = elim (eq_or_ne (length (contents f)) capacity) [
  | inl full ↦
      rw (full, ==_refl capacity)
        (
          f,
          rw (put-full f d v (omega (arith, length-contents f, full, e))) refl,
          record { valid = v; same_size = refl; same_count = refl },
          refl,
        )
  | inr some_room ↦
      let (f', run, keeps, waits) =
        put-contents f d v fits (omega (arith, length-contents f, some_room, e, count-room f v)) in
      rw (ne→==_false (length (contents f)) capacity some_room) (f', rw run refl, keeps, waits)
]

get-Does :
    (f : Fifo) (capacity : ℕ) (xs : List Bytes)
    → Valid f
    → contents f ≡ xs
    → Does f get (queue_step capacity get xs)
unfolding Does code_step queue_step
get-Does f capacity [] v e =
    let empty : iw_count_fifo f ≡ 0 = sym (length-contents f) ∙ ap length e in
    (f, rw (get-empty f v empty) refl, record { valid = v; same_size = refl; same_count = refl }, e)
get-Does f capacity (x ∷ xs) v e =
    let count : iw_count_fifo f ≡ suc (length xs) = sym (length-contents f) ∙ ap length e in
    let (d, f', run, keeps, waits) = get-contents f v (omega (arith, count)) in
    let same : d ∷ contents f' ≡ x ∷ xs = sym waits ∙ e in
    (f', rw run (ap (λ y. ok ((success, some y), f')) (same_head same)), keeps, same_tail same)

step-Does :
    (f : Fifo) (capacity : ℕ) (o : Operation)
    → Valid f
    → f.block_count ≡ capacity + 1
    → Fits f.block_size o
    → Does f o (queue_step capacity o (contents f))
unfolding Does code_step queue_step iw_flush_fifo
step-Does f capacity (put d) v e fits = put-Does f capacity d v e fits
step-Does f capacity get v e fits = get-Does f capacity (contents f) v refl
step-Does f capacity flush v e fits =
    let (keeps, empty) = flush-contents f v in ((iw_flush_fifo f).1, refl, keeps, empty)

-- However a valid fifo is used, by calls that put blocks of its size, get and flush, all of them are
-- defined, and their replies and the blocks that wait in the end are those of a queue that holds one
-- block less than the fifo has room for.
pub run-queue :
    (os : List Operation) (f : Fifo) (capacity : ℕ)
    → Valid f
    → f.block_count ≡ capacity + 1
    → All (Fits f.block_size) os
    → (f' : Fifo) × (code_run os f ≡ ok ((queue_run capacity os (contents f)).0, f'))
      × Valid f'
      × (contents f' ≡ (queue_run capacity os (contents f)).1)
unfolding Does code_run queue_run
run-queue [] f capacity v e fits = (f, refl, v, refl)
run-queue (o ∷ os) f capacity v e fits =
    let (f1, step, keeps, waits) = step-Does f capacity o v e fits.0 in
    let (f2, run, valid, end) =
      run-queue os f1 capacity keeps.valid (keeps.same_count ∙ e)
        (subst (λ n. All (Fits n) os) (sym keeps.same_size) fits.1) in
    let later = run ∙ ap (λ xs. ok ((queue_run capacity os xs).0, f2)) waits in
    (f2, rw (step, later) refl, valid, end ∙ ap (λ xs. (queue_run capacity os xs).1) waits)
