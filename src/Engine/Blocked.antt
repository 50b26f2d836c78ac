-- ===== src/Engine/Blocked.antt =====
-- A flush that fails behind the creation of its file (`StorageManager::flush` of
-- src/storage/manager.rs, `Engine::flush` of src/engine.rs), and the opens after it.
use atlas_kv.Base.{
  List, Option, [], ap, arith, eq→==, false, le→leb, map, none, refl, some, ℕ, ◌∙◌, ◌∷◌, ◌≡◌,
}
use atlas_kv.Error.{ok, err, io, IoKind, AtlasError}
use atlas_kv.MemTable
use atlas_kv.MemTable.{MemTable}
use atlas_kv.Sstable.Builder
use atlas_kv.Sstable.Reader.{open_table}
use atlas_kv.Storage
use atlas_kv.Storage.{
  StorageManager, StorageEnv, read_file, insert_id, newest_first, open_all, open_storage,
}
use atlas_kv.Storage.Reopen.{Tables, Stored, Descends, newest_first-Stored}
use atlas_kv.Wal.Entry.{Libraries}
use atlas_kv.Config.{Config}
use atlas_kv.Engine.{Engine, Env, get, flush, flush_internal}
use atlas_kv.Engine.Kept.{Kept}
use atlas_kv.Engine.Open.{open_engine, with_storage}
use atlas_kv.Engine.View.{Contents, Shows, flush-Shows, get-Shows}

insert_id-above :
    (id : ℕ) (ts : Tables)
    → Descends id ts
    → insert_id id (map (λ t. t.0) ts) ≡ id ∷ map (λ t. t.0) ts
unfolding insert_id
insert_id-above id [] down = refl
insert_id-above id ((j, t) ∷ ts) (lt, down) = rw (le→leb j id (omega arith)) refl

-- The newest file is opened first.
open_storage-refused :
    (crc32 : List ℕ → ℕ) (s : StorageManager) (ts : Tables) (left : List ℕ) (x : AtlasError)
    → Stored crc32 s ts
    → open_table left ≡ err x
    → open_storage ((s.next_sstable_id, left) ∷ s.directory) ≡ err x
unfolding open_storage newest_first open_all read_file
open_storage-refused crc32 s ts left x stored refused =
    rw
      (
        newest_first-Stored crc32 s.next_sstable_id s.directory ts stored.descends stored.files,
        insert_id-above s.next_sstable_id ts stored.descends,
        eq→== s.next_sstable_id s.next_sstable_id refl,
        refused,
      )
      refl

flush-left :
    (env : StorageEnv) (crc32 : List ℕ → ℕ) (m : MemTable) (s : StorageManager) (k : IoKind)
    → MemTable.is_empty m ≡ false
    → env.create ≡ none
    → env.finish ≡ some k
    → ((Storage.flush env crc32 m s).0 ≡ err (io k))
      × ((Storage.flush env crc32 m s).1.directory ≡ (s.next_sstable_id, env.left) ∷ s.directory)
unfolding Storage.flush Storage.build Storage.install Builder.new Builder.finish
flush-left env crc32 m s k full create finish = rw (full, create, finish) (refl, refl)

module _ (libs : Libraries) where
  flush-full :
      (env : Env) (e : Engine) (x : AtlasError)
      → MemTable.is_empty e.memtable ≡ false
      → e.write_poisoned ≡ false
      → (Storage.flush env.flushing libs.crc32 e.memtable e.storage).0 ≡ err x
      → ((flush libs env e).0 ≡ err x)
        × ((flush libs env e).1.storage
            ≡ (Storage.flush env.flushing libs.crc32 e.memtable e.storage).1)
  unfolding flush flush_internal
  flush-full env e x full free fails = (ground arith, ground arith)

  -- An engine with its tables on disk and a memtable that the format can hold flushes it, and the
  -- file is created but the write of it fails, so that what is left in it is refused with some
  -- error: the flush fails and each key still reads as before, but every later open of the
  -- directory, whatever the log, fails with that error.
  pub flush-blocks_open :
      (env : Env) (e : Engine) (f : Contents) (k : IoKind) (x : AtlasError)
      → Kept libs e
      → Shows libs e f
      → MemTable.is_empty e.memtable ≡ false
      → e.write_poisoned ≡ false
      → env.flushing.create ≡ none
      → env.flushing.finish ≡ some k
      → open_table env.flushing.left ≡ err x
      → ((flush libs env e).0 ≡ err (io k))
        × ((key : List ℕ) → get libs (flush libs env e).1 key ≡ ok (f key))
        × ((later : StorageEnv) (config : Config) (log : Option (List ℕ))
            → open_engine libs later config (flush libs env e).1.storage.directory log
              ≡ some (err x))
  unfolding open_engine with_storage
  flush-blocks_open env e f k x kept shows full free create finish refused =
      let (fails, directory) =
        flush-left env.flushing libs.crc32 e.memtable e.storage k full create finish in
      let (failed, storage_eq) = flush-full env e (io k) full free fails in
      let blocked : open_storage (flush libs env e).1.storage.directory ≡ err x =
        ap (λ s. open_storage s.directory) storage_eq
        ∙ ap open_storage directory
        ∙ open_storage-refused libs.crc32 e.storage kept.ts env.flushing.left x kept.stored
            refused in
      (
        failed,
        λ key. get-Shows libs (flush libs env e).1 f key (flush-Shows libs env e f kept.fits shows),
        λ later config log. rw blocked refl,
      )
