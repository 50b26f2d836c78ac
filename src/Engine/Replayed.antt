-- ===== src/Engine/Replayed.antt =====
-- The memtable behind a replay (`Engine::open` of src/engine.rs).
use atlas_kv.Base.{List, [], arith, false, length, refl, true, ℕ, ◌==◌, ◌∷◌, ◌≡◌}
use atlas_kv.BTreeMap
use atlas_kv.MemTable
use atlas_kv.MemTable.{MemTable}
use atlas_kv.Wal.Entry.{WalEntry, Operation}
use atlas_kv.Engine.{replay, replay_entry}

-- A replayed entry stays in the memtable.
insert-full {ℓ} :
    {V : Type ℓ} (key : List ℕ) (v : V) (m : BTreeMap.BTreeMap V)
    → (length (BTreeMap.insert key v m) == 0) ≡ false
unfolding BTreeMap.insert
insert-full key v [] = refl
insert-full key v ((j, w) ∷ m) = ground arith

replay_entry-full :
    (operation : Operation) (m : MemTable) → MemTable.is_empty (replay_entry operation m) ≡ false
unfolding replay_entry MemTable.is_empty MemTable.entry_count MemTable.put MemTable.delete
    MemTable.write
replay_entry-full (Operation.put key v) m = insert-full key (MemTable.value v) m.table
replay_entry-full (Operation.delete key) m = insert-full key MemTable.tombstone m.table

replay-full :
    (entries : List WalEntry) (m : MemTable)
    → MemTable.is_empty m ≡ false
    → MemTable.is_empty (replay entries m) ≡ false
unfolding replay
replay-full [] m full = full
replay-full (entry ∷ entries) m full =
    replay-full entries (replay_entry entry.operation m) (replay_entry-full entry.operation m)

-- So a replay that leaves nothing had nothing to replay.
pub replay-empty :
    (entries : List WalEntry)
    → MemTable.is_empty (replay entries MemTable.new) ≡ true
    → replay entries MemTable.new ≡ MemTable.new
unfolding replay
replay-empty [] e = refl
replay-empty (entry ∷ entries) e = cc (
    replay-full entries (replay_entry entry.operation MemTable.new)
      (replay_entry-full entry.operation MemTable.new))
