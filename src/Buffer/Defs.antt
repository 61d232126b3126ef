-- ===== src/Buffer/Defs.antt =====
-- src/ihs_buffer.c, ihs_buffer.h, include/ihslib/buffer.h. A buffer's bytes are `cells`, as many as
-- its capacity; a NULL `data` is the empty list, since the code pairs it with capacity 0. An
-- operation returns none where an assertion of the source fails or where it would leave its
-- allocation. Allocation succeeds: the source asserts that it does. `junk` is the value that a fresh
-- cell happens to have. Lengths are those of objects in memory, whose sums do not wrap.
use ihslib.Common.{
  ℕ, zero, suc, ◌+◌, ◌-◌, ◌*◌, Bool, ◌&&◌, Option, none, some, List, [], ◌++◌, length, replicate,
  ltb, leb, ◌==◌, if◌then◌else◌, sub64, slice, splice,
}

-- `IHS_Buffer`.
pub record Buffer : Type 0 where
  pub cells : List ℕ
  pub initial_capacity : ℕ
  pub max_capacity : ℕ
  pub offset : ℕ
  pub size : ℕ
  pub suffix : ℕ

infixl 5 ◌>>=◌
abbrev pub ◌>>=◌ {ℓ κ} : {A : Type ℓ} {B : Type κ} → Option A → (A → Option B) → Option B
none >>= f = none
some a >>= f = f a

abbrev pub capacity : Buffer → ℕ
capacity b = length b.cells

-- `IHS_BufferIsNull`.
unfoldable pub is_null : Buffer → Bool
is_null b = capacity b == 0

-- `IHS_BufferMaxSize`, a `size_t` difference.
unfoldable pub max_size : Buffer → ℕ
max_size b = sub64 (sub64 (capacity b) b.offset) b.suffix

-- `IHS_BufferUsedSize`.
unfoldable pub used_size : Buffer → ℕ
used_size b = b.offset + b.size + b.suffix

-- The bytes that the buffer holds.
unfoldable pub payload : Buffer → List ℕ
payload b = slice b.offset b.size b.cells

-- `IHS_BufferInit`.
unfoldable pub init : ℕ → ℕ → Buffer
init initial_capacity max_capacity = record {
  cells = [];
  initial_capacity = initial_capacity;
  max_capacity = max_capacity;
  offset = 0;
  size = 0;
  suffix = 0;
}

-- `IHS_BufferPointerAt`, as an index into the cells.
unfoldable pub pointer_at : Buffer → ℕ → Option ℕ
unfolding is_null max_size
pointer_at b position =
    if is_null b
    then none
    else if ltb position (max_size b)
    then some (b.offset + position)
    else none

-- `IHS_BufferReadMem`.
unfoldable pub read_mem : Buffer → ℕ → ℕ → Option (List ℕ)
unfolding pointer_at
read_mem b position len =
    if leb len b.size then (pointer_at b position >>= λ i. some (slice i len b.cells)) else none

-- The doubling loop of `IHS_BufferEnsureCapacity`; `fuel` bounds its rounds.
unfoldable pub double_to : ℕ → ℕ → ℕ → ℕ
double_to zero n wanted = n
double_to (suc fuel) n wanted =
    let more = double_to fuel (n * 2) wanted in if ltb n wanted then more else n

-- `IHS_BufferClear`.
unfoldable pub clear : Buffer → Bool → Buffer
clear b free_data = record b { size = 0; offset = 0; cells = if free_data then [] else b.cells }

-- The argument of `IHS_BufferOffsetBy`: an `int` with its sign.
pub data Shift : Type 0 where
  forward : ℕ → Shift
  back : ℕ → Shift

-- `IHS_BufferOffsetBy`.
unfoldable pub offset_by : Buffer → Shift → Option Buffer
offset_by b (forward n) =
    if leb n b.size then some (record b { offset = b.offset + n; size = b.size - n }) else none
offset_by b (back n) =
    if leb n b.offset then some (record b { offset = b.offset - n; size = b.size + n }) else none

-- `IHS_BufferExtendSize`.
unfoldable pub extend_size : Buffer → Buffer
extend_size b = record b { size = b.size + b.offset + b.suffix; offset = 0; suffix = 0 }

-- `IHS_BufferReleaseOwnership`.
unfoldable pub release_ownership : Buffer → Buffer
release_ownership b = record b { cells = []; size = 0; offset = 0 }

-- `IHS_BufferTransferOwnership`: the buffer left behind, and the receiver.
unfoldable pub transfer_ownership : Buffer → Buffer × Buffer
unfolding release_ownership
transfer_ownership b = (release_ownership b, b)

-- Bytes copied to an index: none where that leaves the allocation.
unfoldable pub copy_to : Buffer → ℕ → List ℕ → Option Buffer
copy_to b i bytes =
    if leb (i + length bytes) (capacity b)
    then some (record b { cells = splice b.cells i bytes })
    else none

module _ (junk : ℕ) where
  -- `IHS_BufferEnsureCapacityExact`.
  unfoldable pub ensure_capacity_exact : Buffer → ℕ → Option Buffer
  ensure_capacity_exact b wanted =
      if ltb 0 b.max_capacity && ltb b.max_capacity wanted
      then none
      else if leb wanted (capacity b)
      then some b
      else some (record b { cells = b.cells ++ replicate (wanted - capacity b) junk })

  -- What the capacity search of `IHS_BufferEnsureCapacity` starts from.
  unfoldable pub start_capacity : Buffer → ℕ
  start_capacity b =
      if capacity b == 0
      then if b.initial_capacity == 0
        then if ltb b.max_capacity 1024 then b.max_capacity else 1024
        else b.initial_capacity
      else capacity b

  -- `IHS_BufferEnsureCapacity`.
  unfoldable pub ensure_capacity : Buffer → ℕ → Option Buffer
  unfolding ensure_capacity_exact start_capacity double_to
  ensure_capacity b wanted =
      if start_capacity b == 0
      then none
      else ensure_capacity_exact b (double_to wanted (start_capacity b) wanted)

  -- `IHS_BufferEnsureMaxSize`.
  unfoldable pub ensure_max_size : Buffer → ℕ → Option Buffer
  unfolding ensure_capacity
  ensure_max_size b size = ensure_capacity b (b.offset + size + b.suffix)

  -- `IHS_BufferSetSuffixLength`.
  unfoldable pub set_suffix_length : Buffer → ℕ → Option Buffer
  unfolding ensure_capacity
  set_suffix_length b suffix =
      ensure_capacity b (b.offset + b.size + suffix) >>= λ c. some (record c { suffix = suffix })

  -- `IHS_BufferAppendMem`, with `IHS_BufferPointerForAppend`.
  unfoldable pub append_mem : Buffer → List ℕ → Option Buffer
  unfolding ensure_max_size pointer_at copy_to
  append_mem b bytes = ensure_max_size b (b.size + length bytes) >>= λ c.
      pointer_at c c.size >>= λ i.
      copy_to c i bytes >>= λ d. some (record d { size = d.size + length bytes })

  -- `IHS_BufferAppend`: the payload of another buffer, whose pointer is taken first.
  unfoldable pub append : Buffer → Buffer → Option Buffer
  unfolding append_mem pointer_at payload
  append b other = pointer_at other 0 >>= λ i. append_mem b (slice i other.size other.cells)

  -- `IHS_BufferWriteMem`.
  unfoldable pub write_mem : Buffer → ℕ → List ℕ → Option Buffer
  unfolding ensure_max_size pointer_at copy_to
  write_mem b position bytes = ensure_max_size b (position + length bytes) >>= λ c.
      pointer_at c position >>= λ i. copy_to c i bytes >>= λ d. some (record d {
        size = if ltb d.size (position + length bytes) then position + length bytes else d.size;
      })

  -- `IHS_BufferFillMem`.
  unfoldable pub fill_mem : Buffer → ℕ → ℕ → ℕ → Option Buffer
  unfolding write_mem
  fill_mem b position fill len = write_mem b position (replicate len fill)
