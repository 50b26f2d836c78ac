-- ===== src/Engine/Life.antt =====
-- The life of a store under `WalSyncStrategy::EveryWrite`: commands (`Engine::execute`) and crashes
-- with an open behind each (`Engine::open`, src/engine.rs), in any order.
use atlas_kv.Base.{
  All, Bool, List, Option, [], arith, none, refl, some, subst, sym, total, ℕ, ◌+◌, ◌<◌, ◌^◌, ◌∙◌,
  ◌∷◌, ◌≡◌,
}
use mathlib.Core.Option
use atlas_kv.Error.{Result, ok}
use atlas_kv.Protocol.Command.{Command}
use atlas_kv.Sstable.Format.{header_size}
use atlas_kv.Storage.{StorageEnv, Directory}
use atlas_kv.Storage.Listing.{Lists}
use atlas_kv.Storage.Reopen.{next_id_le}
use atlas_kv.Wal.Entry.{Libraries, IsLawful}
use atlas_kv.Wal.Writer.{every_write}
use atlas_kv.Config.{Config}
use atlas_kv.Engine.{Engine, Env, execute, get}
use atlas_kv.Engine.Calm.{IsCalm, IsUnlocked, Serializes, execute-Succeeds}
use atlas_kv.Engine.Commands.{answer, effect}
use atlas_kv.Wal.Writer.{after_crash}
use atlas_kv.Engine.Recovered.{open_engine-Recoverable}
use atlas_kv.Engine.History.{command-Sound}
use atlas_kv.Engine.Narrow.{IsCompact, IsNarrow, IsNarrow-IsSmall, IsNarrow-CommandFits}
use atlas_kv.Engine.Open.{open_engine}
use atlas_kv.Engine.Reopened.{Sound, opened-Sound, opened-started, fresh-Sound, fresh_engine}
use atlas_kv.Engine.Sizes.{Within, weight, Within-Fits, Within-HasRoom, execute-Within}
use atlas_kv.Sstable.Room.{TableWithin-nil}
use atlas_kv.Engine.View.{Contents, get-Shows}

pub data Event : Type 0 where
  command : Env → Command → Event
  -- whether the last truncation of the log is lost, and how the directory is listed behind it
  crash : Bool → (Directory → Directory) → StorageEnv → Event

-- What the commands return, and the engine at the end; nothing where an open fails.
unfoldable pub live :
    Libraries → List Event → Engine → Option (List (Result (Option (List ℕ))) × Engine)
live libs [] e = some ([], e)
live libs (command env c ∷ events) e =
    let (r, e') = execute libs env c e in Option.map (λ t. (r ∷ t.0, t.1)) (live libs events e')
live libs (crash late order env ∷ events) e =
    elim (open_engine libs env e.config (order e.storage.directory)
      (some (after_crash late e.wal.file))) [ some (ok e') ↦ live libs events e' | _ ↦ none ]

-- What a map answers to the commands, on which a crash does nothing.
abbrev pub replies : List Event → Contents → List (Result (Option (List ℕ)))
replies [] f = []
replies (command env c ∷ events) f = ok (answer c f) ∷ replies events (effect c f)
replies (crash late order env ∷ events) f = replies events f

-- The contents at the end.
abbrev pub remains : List Event → Contents → Contents
remains [] f = f
remains (command env c ∷ events) f = remains events (effect c f)
remains (crash late order env ∷ events) f = remains events f

-- An event in which no system call fails, and whose command is narrow.
abbrev pub IsOrderly : Event → Type 0
IsOrderly (command env c) = IsCalm env × IsNarrow c
IsOrderly (crash late order env) =
    ((d : Directory) → Lists d (order d)) × (env.create ≡ none) × (env.finish ≡ none)

-- What an event adds to the data block, or to the ids in use.
abbrev pub cost : Event → ℕ
cost (command env c) = weight c
cost (crash late order env) = 1

-- A sound engine within so many bytes, with its locks in order.
pub record Alive (libs : Libraries) (n : ℕ) (e : Engine) (f : Contents) : Type 0 where
  pub sound : Sound libs e f
  pub within : Within n e
  pub unlocked : IsUnlocked e

module _ (libs : Libraries) (lawful : IsLawful libs) (serializes : Serializes libs)
    (compact : IsCompact libs) where
  command-Alive :
      (env : Env) (c : Command) (n : ℕ) (e : Engine) (f : Contents)
      → IsCalm env
      → IsNarrow c
      → header_size + (n + weight c) < 2 ^ 64
      → Alive libs n e f
      → ((execute libs env c e).0 ≡ ok (answer c f))
        × Alive libs (n + weight c) (execute libs env c e).1 (effect c f)
  command-Alive env c n e f is_calm narrow room alive =
      let small = IsNarrow-IsSmall c narrow in
      let fits = Within-Fits c n e small room alive.within in
      let s =
        execute-Succeeds libs serializes env is_calm c e f fits alive.sound.shows alive.unlocked in
      (
        s.done,
        record {
          sound =
              command-Sound libs lawful env c e f (answer c f) fits
                (IsNarrow-CommandFits libs env c e compact narrow)
                (Within-HasRoom n e (omega arith) alive.within) s.done alive.sound;
          within = execute-Within libs env c n e small alive.within;
          unlocked = s.unlocked;
        },
      )

  crash-Alive :
      (late : Bool) (directory : Directory) (env : StorageEnv) (n : ℕ) (e : Engine) (f : Contents)
      → env.create ≡ none
      → env.finish ≡ none
      → header_size + n < 2 ^ 64
      → Lists e.storage.directory directory
      → Alive libs n e f
      → (e' : Engine) × (open_engine libs env e.config directory
            (some (after_crash late e.wal.file))
          ≡ some (ok e'))
        × Alive libs (n + 1) e' f
  crash-Alive late directory env n e f create finish room listed alive =
      let sound = alive.sound in
      let has_room = Within-HasRoom n e room alive.within in
      let (e', opened, shows) =
        open_engine-Recoverable libs lawful late directory env e f sound.kept.ts sound.shows
          sound.recoverable sound.kept.stored listed sound.kept.fits create finish in
      let (s', ts', stored, e_eq, ids) =
        opened-started libs lawful late directory env e e' f sound has_room listed opened in
      (
        e',
        opened,
        record {
          sound =
              opened-Sound libs lawful late directory env e e' f sound has_room listed opened shows;
          within = rw e_eq (record {
            table = TableWithin-nil (n + 1);
            ids = omega (
              arith,
              ids,
              next_id_le e.storage.next_sstable_id n sound.kept.ts alive.within.ids
                  sound.kept.stored.descends,
            );
          });
          unlocked = rw e_eq (record { writes = refl; log = refl });
        },
      )

  live-crash :
      (late : Bool) (order : Directory → Directory) (env : StorageEnv) (e e' : Engine)
      (events : List Event)
      → open_engine libs env e.config
          (order e.storage.directory)
          (some (after_crash late e.wal.file))
        ≡ some (ok e')
      → live libs (crash late order env ∷ events) e ≡ live libs events e'
  unfolding live
  live-crash late order env e e' events opened = rw (opened, live) refl

  live-Alive :
      (events : List Event) (n : ℕ) (e : Engine) (f : Contents)
      → All IsOrderly events
      → header_size + (n + total cost events) < 2 ^ 64
      → Alive libs n e f
      → (e' : Engine) × (live libs events e ≡ some (replies events f, e'))
        × Sound libs e' (remains events f)
  unfolding live
  live-Alive [] n e f orderly room alive = (e, refl, alive.sound)
  live-Alive (command env c ∷ events) n e f ((is_calm, narrow), orderly) room alive =
      let (done, after) = command-Alive env c n e f is_calm narrow (omega arith) alive in
      let (e', lived, sound) =
        live-Alive events (n + weight c) (execute libs env c e).1 (effect c f) orderly (omega arith)
          after in
      (e', rw (done, lived) refl, sound)
  live-Alive (crash late order env ∷ events) n e f ((lists, create, finish), orderly) room alive =
      let (e1, opened, after) =
        crash-Alive late (order e.storage.directory) env n e f create finish (omega arith)
          (lists e.storage.directory) alive in
      let (e', lived, sound) = live-Alive events (n + 1) e1 f orderly (omega arith) after in
      (e', live-crash late order env e e1 events opened ∙ lived, sound)

  -- With libraries that keep their promises, a serialisation that never fails and adds at most 64
  -- bytes to key and value, and under WalSyncStrategy::EveryWrite: a store that was opened on an
  -- empty directory without a log goes through any commands and crashes, with an open behind each
  -- crash, where no system call fails, 64 bytes with a key and its value are fewer than 2 ^ 32 and
  -- all that is written is below 2 ^ 64 bytes, whatever the order in which an open lists the
  -- directory, and whether or not a crash undoes the last truncation of the log that was not
  -- synced. Every open and every command succeeds, each command with the answer of a map that was
  -- empty at first and lost nothing, and at the end each key reads as on that map.
  pub live-open_engine :
      (opening : StorageEnv) (config : Config) (e : Engine) (events : List Event)
      → config.wal_sync_strategy ≡ every_write
      → open_engine libs opening config [] none ≡ some (ok e)
      → All IsOrderly events
      → header_size + total cost events < 2 ^ 64
      → (e' : Engine) × (live libs events e ≡ some (replies events (λ key. none), e'))
        × ((key : List ℕ) → get libs e' key ≡ ok (remains events (λ key. none) key))
  live-open_engine opening config e events strategy opened orderly room =
      let (e1, opened1, sound) = fresh-Sound libs opening config strategy in
      let same = fresh_engine libs opening config e opened in
      let alive : Alive libs 0 e (λ key. none) = record {
        sound =
            subst (λ x. Sound libs x (λ key. none))
              (sym (fresh_engine libs opening config e1 opened1) ∙ same) sound;
        within = subst (Within 0) same (record { table = TableWithin-nil 0; ids = omega arith });
        unlocked = subst IsUnlocked same (record { writes = refl; log = refl });
      } in
      let (e', lived, after) = live-Alive events 0 e (λ key. none) orderly (omega arith) alive in
      (e', lived, λ key. get-Shows libs e' (remains events (λ key. none)) key after.shows)
