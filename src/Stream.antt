-- ===== src/Stream.antt =====
-- all/buffer.cpp and all/datastream.cpp: `CBuffer`, and `CDataStream` over it.
-- A pointer to bytes is the list of the bytes from there to the end of their array.
-- `new_bytes n` is what `new uint8_t[n]` gives: NULL, or an array of unspecified content.
pub mod Laws
pub mod Growth
pub mod Fixed
use nat_tester.Base.{
  ℕ, ◌+◌, ◌*◌, ◌-◌, ◌%◌, ◌^◌, Bool, true, false, not, ◌&&◌, List, [], ◌∷◌, Option, none, some,
  length, get_or, set, drop, copy_into, slice, take, ltb, leb, ◌==◌, if◌then◌else◌,
}
use nat_tester.Hresult.{Hresult, s_ok, e_fail, e_invalidarg, e_outofmemory, of_bool, Run, succeeded}
use nat_tester.Word.{size_add, size_mod, uint16_bytes, uint32_bytes, uint16_at, uint32_at, u8}

-- `CBuffer`; `bytes` is `_data` (`none` is NULL). Whether the array is owned by `_spAllocation`
-- makes no difference to its content.
pub record Buffer : Type 0 where
  pub bytes : Option (List ℕ)
  pub size : ℕ
  pub allocated : ℕ

-- `CBuffer()` and `CBuffer::Reset`
unfoldable pub null_buffer : Buffer
null_buffer = record { bytes = none; size = 0; allocated = 0 }

-- `CBuffer::IsValid`
unfoldable pub is_valid : Buffer → Bool
is_valid b = elim b.bytes [ none ↦ false | some _ ↦ true ]

-- `CBuffer::SetSize`
unfoldable pub set_size : Buffer → ℕ → Run Buffer
set_size b size =
    let hr = of_bool (leb size b.allocated) in
    if succeeded hr then (hr, record b { size = size }) else (hr, b)

-- `GetData()` where it is dereferenced; NULL is the array of no bytes.
abbrev pub content : Buffer → List ℕ
content b = elim b.bytes [ none ↦ [] | some xs ↦ xs ]

-- `CBuffer::InitNoAlloc`; the length of a NULL array is set to 0.
unfoldable pub init_no_alloc : Option (List ℕ) → ℕ → Buffer
init_no_alloc none size = record { bytes = none; size = 0; allocated = 0 }
init_no_alloc (some xs) size = record { bytes = some xs; size = size; allocated = size }

-- `CDataStream`; `_pBuffer` is always `_spBuffer.get()`.
pub record Stream : Type 0 where
  pub buffer : Option Buffer
  pub pos : ℕ
  pub no_grow : Bool

-- `CDataStream()` and `CDataStream::Reset`
unfoldable pub reset : Stream
reset = record { buffer = none; pos = 0; no_grow = false }

-- `CDataStream(spBuffer)`
unfoldable pub of_buffer : Option Buffer → Stream
of_buffer b = record { buffer = b; pos = 0; no_grow = false }

-- `CDataStream::Attach`
unfoldable pub attach : Option Buffer → Bool → Stream
unfolding reset set_size
attach none for_writing = record reset { buffer = none }
attach (some b) for_writing = record reset {
  buffer = some (if for_writing then (set_size b 0).1 else b);
}

-- `CDataStream::GetSize` and `GetAllocatedSize` of the buffer, 0 where there is none.
abbrev pub get_size : Stream → ℕ
get_size s = elim s.buffer [ none ↦ 0 | some b ↦ b.size ]

abbrev pub allocated_size : Stream → ℕ
allocated_size s = elim s.buffer [ none ↦ 0 | some b ↦ b.allocated ]

-- `CDataStream::GetDataPointerUnsafe`
abbrev pub get_data_pointer_unsafe : Stream → Option (List ℕ)
get_data_pointer_unsafe s = elim s.buffer [ none ↦ none | some b ↦ b.bytes ]

-- The same where it is dereferenced.
abbrev pub data_pointer : Stream → List ℕ
data_pointer s = elim s.buffer [ none ↦ [] | some b ↦ content b ]

-- `CDataStream::Read`: the status, the stream, and what is copied to the caller (nothing on an
-- error).
unfoldable pub read : ℕ → Stream → Run Stream × List ℕ
read size s =
    let newpos = size_add size s.pos in
    if ltb (get_size s) newpos
    then ((e_invalidarg, s), [])
    else ((s_ok, record s { pos = newpos }), slice (data_pointer s) s.pos size)

-- `ReadUint8`, `ReadUint16` and `ReadUint32`: the value as it stands in memory.
unfoldable pub read_uint8 : Stream → Run Stream × ℕ
unfolding read
read_uint8 s = let (r, xs) = read 1 s in (r, get_or xs 0 0)

unfoldable pub read_uint16 : Stream → Run Stream × ℕ
unfolding read
read_uint16 s = let (r, xs) = read 2 s in (r, uint16_at xs)

unfoldable pub read_uint32 : Stream → Run Stream × ℕ
unfolding read
read_uint32 s = let (r, xs) = read 4 s in (r, uint32_at xs)

-- `CDataStream::IsEOF`
unfoldable pub is_eof : Stream → Bool
is_eof s = leb (get_size s) s.pos

-- `CDataStream::SetNoGrow`
unfoldable pub set_no_grow : Stream → Bool → Stream
set_no_grow s no_grow = record s { no_grow = no_grow }

-- `CDataStream::SeekDirect`
unfoldable pub seek_direct : ℕ → Stream → Run Stream
seek_direct pos s = if leb pos (get_size s) then (s_ok, record s { pos = pos }) else (e_fail, s)

-- `CDataStream::SeekRelative`; the `int` offset is its pattern of 32 bits, added as a `size_t`.
unfoldable pub seek_relative : ℕ → Stream → Run Stream
unfolding seek_direct
seek_relative offset s = seek_direct (size_add offset s.pos) s

-- `CDataStream::GetBuffer` with a pointer that is not NULL.
abbrev pub get_buffer : Stream → Option Buffer
get_buffer s = s.buffer

-- what `CDataStream::Write` does once there is room
unfoldable pub write_room : List ℕ → ℕ → ℕ → Stream → Run Stream
unfolding set_size
write_room src newposition current s = elim s.buffer [
  | none ↦ (e_fail, s)
  | some b ↦
      let b' = record b { bytes = some (copy_into (content b) s.pos src) } in
      let s' = record s { buffer = some b'; pos = newposition } in
      if ltb current newposition
      then (let (hr, b'') = set_size b' newposition in (hr, record s' { buffer = some b'' }))
      else (s_ok, s')
]

module _ (new_bytes : ℕ → Option (List ℕ)) where
  -- `CBuffer::InitWithAllocation`, and `CBuffer(size)`: two hidden zero bytes end the array.
  unfoldable pub init_with_allocation : ℕ → Buffer
  unfolding null_buffer
  init_with_allocation size = elim (new_bytes (size_add size 2)) [
    | none ↦ null_buffer
    | some xs ↦ record {
      bytes = some (set (set xs size 0) (size + 1) 0);
      size = size;
      allocated = size;
    }
  ]

  -- `CBuffer::InitWithAllocAndCopy`
  unfoldable pub init_with_alloc_and_copy : Option (List ℕ) → ℕ → Buffer
  unfolding init_with_allocation
  init_with_alloc_and_copy none size = init_with_allocation 0
  init_with_alloc_and_copy (some xs) size =
      let b = init_with_allocation size in
      elim b.bytes [
        | none ↦ b
        | some ys ↦ record b { bytes = some (copy_into ys 0 (take b.size xs)) }
      ]

  -- the size that `CDataStream::Grow` allocates
  abbrev pub grown_size : Stream → ℕ → ℕ
  grown_size s size =
      let doubled = allocated_size s * 2 % size_mod in if ltb doubled size then size else doubled

  -- `CDataStream::Grow`
  unfoldable pub grow : ℕ → Stream → Run Stream
  unfolding init_with_allocation is_valid set_size
  grow size s =
      let current = get_size s in
      let fresh = init_with_allocation (grown_size s size) in
      if leb size (allocated_size s)
      then (s_ok, s)
      else if s.no_grow
      then (e_fail, s)
      else if not (is_valid fresh)
      then (e_outofmemory, s)
      else let sized = (set_size fresh current).1 in
        let copied = copy_into (content sized) 0 (take current (data_pointer s)) in
        (s_ok, record s { buffer = some (record sized { bytes = some copied }) })

  -- `CDataStream::SetSizeHint`
  unfoldable pub set_size_hint : ℕ → Stream → Run Stream
  unfolding grow
  set_size_hint = grow

  -- `CDataStream::Write`. The empty list is a `size` of 0 or a `data` of NULL, which both fail.
  -- After a `Grow` to a size above 0 there is a buffer, so `write_room` finds one.
  unfoldable pub write : List ℕ → Stream → Run Stream
  unfolding grow write_room
  write [] s = (e_fail, s)
  write (x ∷ xs) s =
      let src = x ∷ xs in
      let newposition = size_add (length src) s.pos in
      let current = get_size s in
      let (hr, grown) = grow newposition s in
      if succeeded hr then write_room src newposition current grown else (hr, grown)

  -- `WriteUint8`, `WriteUint16`, `WriteInt16` and `WriteUint32`
  abbrev pub write_uint8 : ℕ → Stream → Run Stream
  write_uint8 val = write (u8 val ∷ [])

  abbrev pub write_uint16 : ℕ → Stream → Run Stream
  write_uint16 val = write (uint16_bytes val)

  abbrev pub write_uint32 : ℕ → Stream → Run Stream
  write_uint32 val = write (uint32_bytes val)
