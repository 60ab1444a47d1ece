-- ===== src/Storage/Buffer.antt =====
-- ecsdb/src/storage/buffer.rs: `ArcStorageBuffer`, the double buffer behind a component table.
-- The `Vec`s of bytes are lists. `free_list` is a stack: its head is the end of the `Vec`.
-- The pointer swap of `commit` is the replacement of the field `read_buffer`. Offsets and slot
-- counts are sizes in memory and are plain numbers; `load_snapshot` wraps as `u64` does.
pub mod Slots
pub mod Insert
pub mod Compact
pub mod Compaction
use rodengine.Common.{
  ℕ, zero, suc, ◌+◌, ◌-◌, ◌*◌, ◌/◌, ◌%◌, ◌^◌, Bool, true, false, not, ◌&&◌, List, [], ◌∷◌, map,
  length, slice, splice, resize, replicate, contains, ltb, leb, ◌==◌, if◌then◌else◌,
}
use rodengine.Common.HashMap
use rodengine.Common.HashMap.{HashMap}
use rodengine.Error.{
  Result, ok, err, panic, schema_error, record_size_mismatch, offset_out_of_bounds,
  buffer_not_multiple, ◌>>=◌,
}

abbrev pub Bytes : Type 0
Bytes = List ℕ

pub record ArcStorageBuffer : Type 0 where
  pub read_buffer : Bytes
  pub write_buffer : Bytes
  pub next_record_offset : ℕ
  pub record_size : ℕ
  pub generation : ℕ
  pub free_list : List ℕ
  pub active_count : ℕ

unfoldable pub new : ℕ → ℕ → ArcStorageBuffer
new record_size initial_capacity = record {
  read_buffer = replicate initial_capacity 0;
  write_buffer = replicate initial_capacity 0;
  next_record_offset = 0;
  record_size = record_size;
  generation = 0;
  free_list = [];
  active_count = 0;
}

unfoldable pub grow : ArcStorageBuffer → ArcStorageBuffer
grow b = record b { write_buffer = resize b.write_buffer (length b.write_buffer * 2) 0 }

-- The new slot at the end: the buffer is doubled once if the slot does not fit.
unfoldable pub allocate_end : ArcStorageBuffer → ℕ × ArcStorageBuffer
unfolding grow
allocate_end b =
    let offset = b.next_record_offset * b.record_size in
    let bumped : ArcStorageBuffer = record b { next_record_offset = b.next_record_offset + 1 } in
    if ltb (length b.write_buffer) (offset + b.record_size)
    then (offset, grow bumped)
    else (offset, bumped)

unfoldable pub allocate : List ℕ → ArcStorageBuffer → ℕ × ArcStorageBuffer
unfolding allocate_end
allocate [] b = allocate_end b
allocate (offset ∷ rest) b = (offset, record b { free_list = rest })

-- `self.write_buffer[offset..end].copy_from_slice(record)`, a panic out of range.
unfoldable pub copy_in : ℕ → Bytes → ArcStorageBuffer → Result ArcStorageBuffer
copy_in offset bytes b =
    if leb (offset + length bytes) (length b.write_buffer)
    then ok (record b { write_buffer = splice offset bytes b.write_buffer })
    else panic

unfoldable pub insert : ArcStorageBuffer → Bytes → Result (ℕ × ArcStorageBuffer)
unfolding allocate copy_in
insert b bytes =
    if length bytes == b.record_size
    then (do
      let slot : ℕ × ArcStorageBuffer = allocate b.free_list b
      written ← copy_in slot.0 bytes slot.1
      ok (slot.0, record written { active_count = written.active_count + 1 }))
    else err (schema_error (record_size_mismatch b.record_size (length bytes)))

unfoldable pub free_slot : ArcStorageBuffer → ℕ → ArcStorageBuffer
free_slot b offset =
    if (offset % b.record_size == 0) && ltb offset (b.next_record_offset * b.record_size)
    then record b { free_list = offset ∷ b.free_list; active_count = b.active_count - 1 }
    else b

unfoldable pub update : ArcStorageBuffer → ℕ → Bytes → Result ArcStorageBuffer
update b offset bytes =
    if ltb (length b.write_buffer) (offset + length bytes)
    then err (schema_error offset_out_of_bounds)
    else ok (record b { write_buffer = splice offset bytes b.write_buffer })

unfoldable pub read : ArcStorageBuffer → ℕ → ℕ → Result Bytes
read b offset size =
    if ltb (length b.read_buffer) (offset + size)
    then err (schema_error offset_out_of_bounds)
    else ok (slice offset size b.read_buffer)

unfoldable pub commit : ArcStorageBuffer → ArcStorageBuffer
commit b = record b { read_buffer = b.write_buffer }

unfoldable pub commit_with_generation : ArcStorageBuffer → ℕ → ArcStorageBuffer
unfolding commit
commit_with_generation b generation = record (commit b) { generation = generation }

pub record CompactState : Type 0 where
  pub buffer : Bytes
  pub old_to_new : HashMap ℕ
  pub new_slot : ℕ

-- One live slot moves from `old_slot` to `new_slot`.
unfoldable pub move_slot : ℕ → ℕ → CompactState → Result CompactState
move_slot record_size old_slot s =
    let old_offset = old_slot * record_size in
    let new_offset = s.new_slot * record_size in
    let dst_end = new_offset + record_size in
    let buffer = (if ltb (length s.buffer) dst_end then resize s.buffer dst_end 0 else s.buffer) in
    let moved : CompactState = record {
      buffer = splice new_offset (slice old_offset record_size buffer) buffer;
      old_to_new = HashMap.insert s.old_to_new old_offset new_offset;
      new_slot = s.new_slot + 1;
    } in
    if old_offset == new_offset
    then ok (record s {
      old_to_new = HashMap.insert s.old_to_new old_offset new_offset;
      new_slot = s.new_slot + 1;
    })
    else if leb (old_offset + record_size) (length buffer)
    then ok moved
    else panic

-- `for old_slot in 0..total_slots`: the first argument counts the rounds left.
unfoldable pub compact_loop : ℕ → ℕ → List ℕ → ℕ → CompactState → Result CompactState
unfolding move_slot
compact_loop zero record_size free_set old_slot s = ok s
compact_loop (suc rounds) record_size free_set old_slot s = elim (contains free_set old_slot) [
  | true ↦ compact_loop rounds record_size free_set (old_slot + 1) s
  | false ↦ do
    s' ← move_slot record_size old_slot s
    compact_loop rounds record_size free_set (old_slot + 1) s'
]

-- The division by a zero record size, at the first free slot, is the panic.
unfoldable pub compact : ArcStorageBuffer → Result (HashMap ℕ × ArcStorageBuffer)
unfolding compact_loop
compact b =
    let free_set = map (λ offset. offset / b.record_size) b.free_list in
    let start : CompactState = record { buffer = b.write_buffer; old_to_new = []; new_slot = 0 } in
    if (b.record_size == 0) && not (length b.free_list == 0) then panic else (do
      s ← compact_loop b.next_record_offset b.record_size free_set 0 start
      ok (
        s.old_to_new,
        record b { write_buffer = s.buffer; next_record_offset = s.new_slot; free_list = [] },
      ))

pub record WriteState : Type 0 where
  pub write_buffer : Bytes
  pub next_record_offset : ℕ
  pub free_list : List ℕ
  pub active_count : ℕ

unfoldable pub snapshot_state : ArcStorageBuffer → WriteState
snapshot_state b = record {
  write_buffer = b.write_buffer;
  next_record_offset = b.next_record_offset;
  free_list = b.free_list;
  active_count = b.active_count;
}

unfoldable pub restore_state : ArcStorageBuffer → WriteState → ArcStorageBuffer
restore_state b s = record b {
  write_buffer = s.write_buffer;
  next_record_offset = s.next_record_offset;
  free_list = s.free_list;
  active_count = s.active_count;
}

unfoldable pub load_snapshot : ArcStorageBuffer → Bytes → List ℕ → Result ArcStorageBuffer
load_snapshot b buffer_data free_slots =
    let next = length buffer_data / b.record_size in
    if not (length buffer_data % b.record_size == 0)
    then err (schema_error (buffer_not_multiple (length buffer_data) b.record_size))
    else if b.record_size == 0
    then panic
    else ok (record b {
      read_buffer = buffer_data;
      write_buffer = buffer_data;
      next_record_offset = next;
      free_list = free_slots;
      active_count = (next + 2 ^ 64 - length free_slots) % 2 ^ 64;
    })
