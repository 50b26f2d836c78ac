-- ===== src/Engine/Found.antt =====
-- What `Engine::open` (src/engine.rs) finds behind a crash that undoes no truncation of the log, on
-- any sync strategy.
use atlas_kv.Base.{All-append_left, List, [], none, refl, some, sym, ℕ, ◌∙◌, ◌∷◌, ◌≡◌}
use atlas_kv.Error.{ok}
use atlas_kv.Storage.{StorageEnv, Directory}
use atlas_kv.Storage.Listing.{Lists}
use atlas_kv.Storage.Reads.{get-newest_entry}
use atlas_kv.Storage.Reopen.{contents_of, open_storage-Stored}
use atlas_kv.Wal.Writer.{on_disk}
use atlas_kv.Wal.Frames
use atlas_kv.Wal.Entry.{Libraries, IsLawful, WalEntry}
use atlas_kv.Wal.Recovery.{start}
use atlas_kv.Wal.Replay.{entries_of, recover-log, count_entries}
use atlas_kv.Wal.Writer.{WalSyncStrategy}
use atlas_kv.Engine.{Engine, Operation}
use atlas_kv.Engine.Behind.{Behind}
use atlas_kv.Engine.Recovered.{ok_injective, Shows-ext}
use atlas_kv.Engine.Kept.{Kept}
use atlas_kv.Engine.Open.{open_engine}
use atlas_kv.Engine.Restart.{after_log, stored, logged_effect, open_engine-Shows}
use atlas_kv.Engine.View.{Contents, Shows}

logged_effect-ext :
    (operation : Operation) (f g : Contents)
    → ((key : List ℕ) → f key ≡ g key)
    → (key : List ℕ) → logged_effect operation f key ≡ logged_effect operation g key
logged_effect-ext (Operation.put key v) f g same j = rw (same j) refl
logged_effect-ext (Operation.delete key) f g same j = rw (same j) refl

after_log-ext :
    (entries : List WalEntry) (f g : Contents)
    → ((key : List ℕ) → f key ≡ g key)
    → (key : List ℕ) → after_log entries f key ≡ after_log entries g key
after_log-ext [] f g same = same
after_log-ext (entry ∷ entries) f g same =
    after_log-ext entries (logged_effect entry.operation f) (logged_effect entry.operation g)
      (logged_effect-ext entry.operation f g same)

module _ (libs : Libraries) (lawful : IsLawful libs) (strategy : WalSyncStrategy) where
  -- An open behind a crash finds what the disk has.
  pub reopen-Behind :
      (env : StorageEnv) (e : Engine) (directory : Directory) (g : Contents) (n : ℕ)
      → Behind libs strategy g n e
      → Kept libs e
      → Lists e.storage.directory directory
      → env.create ≡ none
      → env.finish ≡ none
      → (e' : Engine) × (open_engine libs env e.config directory (some (on_disk e.wal.file))
          ≡ some (ok e'))
        × Shows libs e' g
  reopen-Behind env e directory g n b kept listed create finish =
      let (s, opened, serves) =
        open_storage-Stored libs.crc32 e.storage kept.ts directory kept.stored listed in
      let entries = entries_of b.synced in
      let tables = contents_of kept.ts in
      let replayed =
        recover-log libs lawful b.synced
          (All-append_left (Frames.Written libs) b.synced b.pending b.lags.written) in
      let (e', open_eq, empty, shows) =
        open_engine-Shows libs env e.config directory s tables (on_disk e.wal.file) entries
          (count_entries b.synced start) opened serves (rw b.lags.disk replayed) b.fits create
          finish in
      let same : (key : List ℕ) → stored tables key ≡ stored b.tables key = λ key.
        ok_injective libs (stored tables key) (stored b.tables key) (
          sym (get-newest_entry libs.crc32 e.storage tables key kept.stored.serves)
          ∙ b.serves key) in
      (
        e',
        open_eq,
        Shows-ext libs e' (after_log entries (stored tables)) g
            (λ key.
              after_log-ext entries (stored tables) (stored b.tables) same key ∙ b.durable key)
            shows,
      )
