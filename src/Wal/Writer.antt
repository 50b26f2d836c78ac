-- ===== src/Wal/Writer.antt =====
-- src/wal/writer.rs: appending to the log. A log file has three parts that a crash treats
-- differently: what `sync_all` has made durable, what the operating system holds, and what stands
-- in the `BufWriter` (8 KiB, the default of the standard library); behind a truncation that is not
-- synced, the disk may have the old log too. The clock and the outcome of each system call of one
-- method call are its argument `WalEnv`. The position in the file is taken to be its end, also where
-- the seek of a truncation fails.
use atlas_kv.Base.{
  Bool, List, Option, [], drop, if◌then◌else◌, leb, length, ltb, none, some, take, true, ℕ, ◌%◌,
  ◌++◌, ◌+◌, ◌^◌,
}
use mathlib.Core.Option
use atlas_kv.Error.{ok, err, io, IoKind}
use atlas_kv.Exec.{Exec, pure, fail, lift, gets, modify, ◌>>=◌, ◌>>◌}
use atlas_kv.Wal.Entry.{Operation, Libraries, new_entry, serialize}

-- src/config.rs
pub data WalSyncStrategy : Type 0 where
  every_write : WalSyncStrategy
  every_n_entries : ℕ → WalSyncStrategy

pub record WalEnv : Type 0 where
  pub millis : ℕ
  -- the write of the full buffer, that of a large entry, and the flush of `sync` or `truncate`:
  -- `none` for success, or the error and how many bytes went out before it
  pub spill : Option (IoKind × ℕ)
  pub direct : Option (IoKind × ℕ)
  pub flush : Option (IoKind × ℕ)
  pub sync_all : Option IoKind
  pub set_len : Option IoKind
  pub seek : Option IoKind

-- Everything succeeds.
abbrev pub calm : ℕ → WalEnv
calm millis = record {
  millis = millis;
  spill = none;
  direct = none;
  flush = none;
  sync_all = none;
  set_len = none;
  seek = none;
}

pub record LogFile : Type 0 where
  -- the bytes of the file as the operating system has them, and how many are durable
  pub content : List ℕ
  pub durable : ℕ
  pub buffer : List ℕ
  -- since a truncation that no `sync_all` has followed: the log that the disk may still have
  pub stale : Option (List ℕ)

-- What a crash leaves of the log file where its truncations have reached the disk: its durable
-- bytes.
unfoldable pub on_disk : LogFile → List ℕ
on_disk f = take f.durable f.content

-- What a crash leaves of it: on `late`, a truncation that was not synced is lost.
unfoldable pub after_crash : Bool → LogFile → List ℕ
unfolding on_disk
after_crash late f = if late then Option.get_or f.stale (on_disk f) else on_disk f

pub record WalWriter : Type 0 where
  pub file : LogFile
  pub current_lsn : ℕ
  pub sync_strategy : WalSyncStrategy
  pub uncommitted_count : ℕ

abbrev pub buffer_capacity : ℕ
buffer_capacity = 8192

-- `WalWriter::open` where the file, with this content on the disk, can be opened: it is truncated,
-- and the truncation is not synced. A file that does not exist has no content.
abbrev pub open_writer : List ℕ → WalSyncStrategy → WalWriter
open_writer content strategy = record {
  file = record { content = []; durable = 0; buffer = []; stale = some content };
  current_lsn = 1;
  sync_strategy = strategy;
  uncommitted_count = 0;
}

-- `WalWriter::open_append` on a file with this content.
abbrev pub open_append : List ℕ → WalSyncStrategy → ℕ → WalWriter
open_append content strategy next_lsn = record {
  file = record { content = content; durable = length content; buffer = []; stale = none };
  current_lsn = next_lsn;
  sync_strategy = strategy;
  uncommitted_count = 0;
}

-- `File::write_all`, past the buffer.
unfoldable pub write_through : Option (IoKind × ℕ) → List ℕ → Exec LogFile (Unit {0})
write_through none bytes f = (ok tt, record f { content = f.content ++ bytes })
write_through (some (e, n)) bytes f = (err (io e), record f { content = f.content ++ take n bytes })

-- `BufWriter::flush`: what a failing write did not take stays in the buffer.
unfoldable pub flush_buffer : Option (IoKind × ℕ) → Exec LogFile (Unit {0})
flush_buffer none f = (ok tt, record f { content = f.content ++ f.buffer; buffer = [] })
flush_buffer (some (e, n)) f =
    (err (io e), record f { content = f.content ++ take n f.buffer; buffer = drop n f.buffer })

-- The two steps of `BufWriter::write_all` where the bytes do not fit beside the buffer's: the
-- buffer is flushed if they do not even fill it up, and a large entry goes past the buffer.
unfoldable pub make_room : WalEnv → ℕ → Exec LogFile (Unit {0})
make_room env n f =
    if ltb buffer_capacity (n + length f.buffer) then flush_buffer env.spill f else (ok tt, f)

unfoldable pub put_bytes : WalEnv → List ℕ → Exec LogFile (Unit {0})
put_bytes env bytes f =
    if leb buffer_capacity (length bytes)
    then write_through env.direct bytes f
    else (ok tt, record f { buffer = f.buffer ++ bytes })

-- `BufWriter::write_all`.
unfoldable pub write_all : WalEnv → List ℕ → Exec LogFile (Unit {0})
write_all env bytes f =
    if ltb (length bytes + length f.buffer) buffer_capacity
    then (ok tt, record f { buffer = f.buffer ++ bytes })
    else (do make_room env (length bytes); put_bytes env bytes) f

-- A step on the file, as a step on the writer.
abbrev pub on_file {ℓ} : {A : Type ℓ} → Exec LogFile A → Exec WalWriter A
on_file m w = let (r, f) = m w.file in (r, record w { file = f })

abbrev pub call : Option IoKind → (LogFile → LogFile) → Exec LogFile (Unit {0})
call none f = modify f
call (some e) f = fail (io e)

unfoldable pub sync : WalEnv → Exec WalWriter (Unit {0})
sync env = do
  on_file (flush_buffer env.flush)
  on_file (call env.sync_all (λ f. record f { durable = length f.content; stale = none }))
  modify (λ w. record w { uncommitted_count = 0 })

-- Step 6: the strategy decides.
unfoldable pub sync_by_strategy : WalEnv → WalSyncStrategy → Exec WalWriter (Unit {0})
sync_by_strategy env every_write w = sync env w
sync_by_strategy env (every_n_entries count) w =
    if leb count w.uncommitted_count then sync env w else pure tt w

unfoldable pub append : Libraries → WalEnv → Operation → Exec WalWriter ℕ
append libs env operation = do
  lsn ← gets (λ w. w.current_lsn)
  modify (λ w. record w { current_lsn = (w.current_lsn + 1) % 2 ^ 64 })
  bytes ← lift (serialize libs (new_entry lsn operation env.millis))
  on_file (write_all env bytes)
  modify (λ w. record w { uncommitted_count = w.uncommitted_count + 1 })
  strategy ← gets (λ w. w.sync_strategy)
  sync_by_strategy env strategy
  pure lsn

-- The truncation is not synced: until the next `sync_all` the disk may have the old log.
unfoldable pub truncate : WalEnv → Exec WalWriter (Unit {0})
truncate env = do
  on_file (flush_buffer env.flush)
  on_file (
      call env.set_len
        (λ f. record f { content = []; durable = 0; stale = some (after_crash true f) }))
  on_file (call env.seek (λ f. f))
  modify (λ w. record w { current_lsn = 1; uncommitted_count = 0 })
