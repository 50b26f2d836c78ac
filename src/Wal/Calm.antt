-- ===== src/Wal/Calm.antt =====
-- `WalWriter::append` and `WalWriter::truncate` (src/wal/writer.rs) where the system calls succeed.
use atlas_kv.Base.{List, arith, none, refl, some, ℕ, ◌≡◌}
use atlas_kv.Error.{ok}
use atlas_kv.Wal.Entry.{Operation, Libraries, new_entry, serialize}
use atlas_kv.Wal.Writer.{
  WalSyncStrategy, every_write, every_n_entries, WalEnv, LogFile, WalWriter, write_all, sync,
  write_through, make_room, put_bytes, sync_by_strategy, append, truncate, flush_buffer,
}

-- No system call of the method fails.
pub record IsCalm (env : WalEnv) : Type 0 where
  pub spill : env.spill ≡ none
  pub direct : env.direct ≡ none
  pub flush : env.flush ≡ none
  pub sync_all : env.sync_all ≡ none
  pub set_len : env.set_len ≡ none
  pub seek : env.seek ≡ none

module _ (env : WalEnv) (is_calm : IsCalm env) where
  write_all-ok : (bytes : List ℕ) (f : LogFile) → (write_all env bytes f).0 ≡ ok tt
  unfolding write_all make_room put_bytes flush_buffer write_through
  write_all-ok bytes f = ground (arith, is_calm.spill, is_calm.direct)

  pub sync-ok : (w : WalWriter) → (sync env w).0 ≡ ok tt
  unfolding sync flush_buffer
  sync-ok w = ground (arith, is_calm.flush, is_calm.sync_all)

  sync_by_strategy-ok :
      (strategy : WalSyncStrategy) (w : WalWriter) → (sync_by_strategy env strategy w).0 ≡ ok tt
  unfolding sync_by_strategy
  sync_by_strategy-ok every_write w = sync-ok w
  sync_by_strategy-ok (every_n_entries count) w = ground (arith, sync-ok w)

  pub truncate-ok : (w : WalWriter) → (truncate env w).0 ≡ ok tt
  unfolding truncate flush_buffer
  truncate-ok w = ground (arith, is_calm.flush, is_calm.set_len, is_calm.seek)

  pub append-ok :
      (libs : Libraries) (operation : Operation) (w : WalWriter) (payload : List ℕ)
      → libs.bincode_serialize (new_entry w.current_lsn operation env.millis) ≡ some payload
      → (append libs env operation w).0 ≡ ok w.current_lsn
  unfolding append serialize
  append-ok libs operation w payload there =
      rw (there, write_all-ok _ _, sync_by_strategy-ok _ _) refl
