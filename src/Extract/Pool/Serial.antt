-- ===== src/Extract/Pool/Serial.antt =====
-- Whatever the schedule, the pool comes to what the serial extraction comes to.
mod Filed
mod Outlook
mod Rounds
mod Turns
use kernelbuild_buildkit.Common.{
  ℕ, suc, zero, ◌<◌, Bool, true, List, ◌≡◌, ◌∙◌, refl, Option, some, All, inl, Bytes, arith, ltb,
  if◌then◌else◌, max, ap,
}
use kernelbuild_buildkit.Extract.{Action, Stream, actions_of, untar_serial}
use kernelbuild_buildkit.Extract.Disk.{Root, ok_state, ◌and_then◌}
use kernelbuild_buildkit.Extract.Pool.{
  Turn, start, run_turns, is_final, untar_result, pool_size, empty_channels, is_idle,
}
use kernelbuild_buildkit.Extract.Pool.Laws.{drain}
use Filed.{save, serial, Filed-empty, drain-idle}
use Outlook.{Inv, outlook}
use Turns.{turns-result}
pub use Filed.{Orderly, act_state}

pub pool_size-pos : (procs : ℕ) → 0 < pool_size procs
pool_size-pos procs = ground arith

pub empty_channels-is_idle : (n : ℕ) → is_idle (empty_channels n) ≡ true
empty_channels-is_idle zero = refl
empty_channels-is_idle (suc n) = empty_channels-is_idle n

module _ (d : Root) (Known : Action → Type 0) (Fine : d.State → Type 0)
    (orderly : Orderly d Known Fine) where
  start-Inv :
      (procs : ℕ) (acts : List Action) (s : d.State)
      → All Known acts
      → Fine s
      → Inv d Known Fine orderly (pool_size procs) (pool_size-pos procs) (start procs acts s)
  unfolding start
  start-Inv procs acts s k fine =
      let e = Filed-empty d Known Fine orderly (pool_size procs) 0 (pool_size procs) in
      inl (record { well = refl; count = e.1; filed = e.0; fine = fine; known = k })

  start-outlook :
      (procs : ℕ) (acts : List Action) (s : d.State)
      → outlook d Known Fine orderly (pool_size procs) (pool_size-pos procs) (start procs acts s)
        ≡ ok_state (untar_serial d acts s)
  unfolding start
  start-outlook procs acts s =
      ap (λ o. o and_then serial d acts)
        (drain-idle d Fine (empty_channels (pool_size procs)) s
          (empty_channels-is_idle (pool_size procs)))

  -- The extraction of an orderly archive, on any number of processors and in any order of the turns of
  -- the reader and the workers: once it is done, it has succeeded exactly if the serial extraction of
  -- the same stream succeeds, and then with the same state of the disk. Orderly means: the rounds of
  -- the stream keep the disk fine, and on a fine disk the writes of two files of different names, and
  -- a directory and a file, come to the same in either order.
  pub untar-serial :
      (procs strip : ℕ) (rename : Option (Bytes → Bytes)) (stream : Stream) (s : d.State)
      (ts : List Turn)
      → All Known (actions_of rename strip stream)
      → Fine s
      → is_final d (run_turns d ts (start procs (actions_of rename strip stream) s)) ≡ true
      → ok_state (untar_result d (run_turns d ts (start procs (actions_of rename strip stream) s)))
        ≡ ok_state (untar_serial d (actions_of rename strip stream) s)
  untar-serial procs strip rename stream s ts k fine done =
      let acts = actions_of rename strip stream in
      turns-result d Known Fine orderly (pool_size procs) (pool_size-pos procs) ts
        (start procs acts s) (start-Inv procs acts s k fine) done
      ∙ start-outlook procs acts s
