-- ===== src/Engine/Run.antt =====
-- A client's commands one after the other (`Engine::execute`, src/engine.rs) on a new store, on any
-- sync strategy.
use atlas_kv.Base.{
  All, List, Option, [], arith, none, refl, some, subst, total, ℕ, ◌++◌, ◌+◌, ◌<◌, ◌^◌, ◌∷◌, ◌≡◌,
}
use atlas_kv.Error.{Result, ok}
use atlas_kv.Protocol.Command.{Command}
use atlas_kv.Sstable.Format.{header_size}
use atlas_kv.Storage.{StorageEnv}
use atlas_kv.Storage.Reopen.{manager_of}
use atlas_kv.Wal.Entry.{Libraries}
use atlas_kv.Config.{Config}
use atlas_kv.Engine.{Engine, Env, execute}
use atlas_kv.Engine.Calm.{IsCalm, IsUnlocked, Serializes, execute-Succeeds}
use atlas_kv.Engine.Commands.{Fits, answer, effect, execute-Executed, done, failed}
use atlas_kv.Engine.Open.{open_engine}
use atlas_kv.Engine.Reopened.{fresh_engine}
use atlas_kv.Engine.Restart.{fresh-Shows}
use atlas_kv.Engine.Sizes.{IsSmall, Within, weight, Within-Fits, execute-Within}
use atlas_kv.Sstable.Room.{TableWithin-nil}
use atlas_kv.Engine.View.{Contents, Shows}

-- The commands with the system's part in each, and what each of them returns.
unfoldable pub run :
    Libraries → List (Env × Command) → Engine → List (Result (Option (List ℕ))) × Engine
run libs [] e = ([], e)
run libs ((env, c) ∷ cs) e =
    let (r, e') = execute libs env c e in let (rs, e2) = run libs cs e' in (r ∷ rs, e2)

-- What a map answers to them.
abbrev pub answers : List (Env × Command) → Contents → List (Result (Option (List ℕ)))
answers [] f = []
answers ((env, c) ∷ cs) f = ok (answer c f) ∷ answers cs (effect c f)

-- The contents after them.
abbrev pub after : List (Env × Command) → Contents → Contents
after [] f = f
after (c ∷ cs) f = after cs (effect c.1 f)

abbrev pub IsOrderly : Env × Command → Type 0
IsOrderly (env, c) = IsCalm env × IsSmall c

abbrev pub total_weight : List (Env × Command) → ℕ
total_weight cs = total (λ c. weight c.1) cs

pub after-append :
    (cs ds : List (Env × Command)) (f : Contents) → after (cs ++ ds) f ≡ after ds (after cs f)
after-append [] ds f = refl
after-append (c ∷ cs) ds f = after-append cs ds (effect c.1 f)

-- An engine that shows these contents, within so many bytes and with its locks in order.
pub record Ready (libs : Libraries) (n : ℕ) (e : Engine) (f : Contents) : Type 0 where
  pub within : Within n e
  pub shows : Shows libs e f
  pub unlocked : IsUnlocked e

module _ (libs : Libraries) (serializes : Serializes libs) where
  pub execute-Shows :
      (env : Env) (c : Command) (e : Engine) (f : Contents)
      → Fits c e.memtable
      → Shows libs e f
      → (execute libs env c e).0 ≡ ok (answer c f)
      → Shows libs (execute libs env c e).1 (effect c f)
  execute-Shows env c e f fits shows h = elim (execute-Executed libs env c e f fits shows) [
    | done r shows' ↦ shows'
    | failed x r shows' ↦ cc
  ]

  pub execute-Ready :
      (env : Env) (c : Command) (n : ℕ) (e : Engine) (f : Contents)
      → IsOrderly (env, c)
      → header_size + (n + weight c) < 2 ^ 64
      → Ready libs n e f
      → ((execute libs env c e).0 ≡ ok (answer c f))
        × Ready libs (n + weight c) (execute libs env c e).1 (effect c f)
  execute-Ready env c n e f (is_calm, small) room r =
      let fits = Within-Fits c n e small room r.within in
      let s = execute-Succeeds libs serializes env is_calm c e f fits r.shows r.unlocked in
      (
        s.done,
        record {
          within = execute-Within libs env c n e small r.within;
          shows = execute-Shows env c e f fits r.shows s.done;
          unlocked = s.unlocked;
        },
      )

  pub run-Ready :
      (cs : List (Env × Command)) (n : ℕ) (e : Engine) (f : Contents)
      → All IsOrderly cs
      → header_size + (n + total_weight cs) < 2 ^ 64
      → Ready libs n e f
      → ((run libs cs e).0 ≡ answers cs f)
        × Ready libs (n + total_weight cs) (run libs cs e).1 (after cs f)
  unfolding run
  run-Ready [] n e f orderly room r = (refl, subst (λ k. Ready libs k e f) (omega arith) r)
  run-Ready ((env, c) ∷ cs) n e f (is_orderly, orderly) room r =
      let (here_ok, next) = execute-Ready env c n e f is_orderly (omega arith) r in
      let e' = (execute libs env c e).1 in
      let (rest, end) = run-Ready cs (n + weight c) e' (effect c f) orderly (omega arith) next in
      (
        rw (here_ok, rest) refl,
        subst (λ k. Ready libs k (run libs cs e').1 (after cs (effect c f))) (omega arith) end,
      )

  -- A new store is ready.
  pub opened-Ready :
      (opening : StorageEnv) (config : Config) (e : Engine)
      → open_engine libs opening config [] none ≡ some (ok e)
      → Ready libs 0 e (λ key. none)
  opened-Ready opening config e opened =
      subst (λ e. Ready libs 0 e (λ key. none)) (fresh_engine libs opening config e opened)
        (record {
          within = record { table = TableWithin-nil 0; ids = omega arith };
          shows =
              fresh-Shows libs [] config (manager_of libs.crc32 [] []) []
                (record { readers = refl; hold = tt });
          unlocked = record { writes = refl; log = refl };
        })

  -- A store that was opened on an empty directory without a log, under any sync strategy: any
  -- commands, where no system call fails, every log entry can be serialised, keys and values fit
  -- the widths of the table format and what they write in all is below 2 ^ 64 bytes, all succeed,
  -- each with the answer of a map that was empty at first.
  pub run-open_engine :
      (opening : StorageEnv) (config : Config) (e : Engine) (cs : List (Env × Command))
      → open_engine libs opening config [] none ≡ some (ok e)
      → All IsOrderly cs
      → header_size + total_weight cs < 2 ^ 64
      → (run libs cs e).0 ≡ answers cs (λ key. none)
  run-open_engine opening config e cs opened orderly room =
      (run-Ready cs 0 e (λ key. none) orderly (omega arith)
        (opened-Ready opening config e opened)).0
