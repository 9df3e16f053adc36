-- ===== src/Extract/Pool.antt =====
-- The pool of writers (cmd/kbuild-step/untarpool.go) and the reader of `untarFiltered` that feeds it. A
-- turn of the reader is one round of its loop, a turn of a worker is one job. A job stays at the head
-- of its channel until its worker is done with it, so that `pending` is what the channels hold.
pub mod Laws
pub mod Serial
pub mod Work
pub mod Ends
use Prim.Native.Nat.{bit_xor}
use kernelbuild_buildkit.Common.{
  ℕ, zero, suc, ◌*◌, ◌^◌, ◌%◌, ltb, Bool, true, false, ◌&&◌, List, [], ◌∷◌, ◌++◌, if◌then◌else◌,
  Option, none, some, Bytes, length, max,
}
use kernelbuild_buildkit.Extract.{
  WriteJob, Ordered, Action, skip, make_dir, queue_file, ordered, fail_read, write_file_bytes,
  make_directory, do_ordered,
}
use kernelbuild_buildkit.Extract.Disk.{Root, CallError, bad_stream, Call}

-- hash/fnv's New32a
unfoldable pub fnv32a : ℕ → Bytes → ℕ
fnv32a h [] = h
fnv32a h (c ∷ s) = fnv32a ((bit_xor h c * 16777619) % 2 ^ 32) s

unfoldable pub shard_of : ℕ → Bytes → ℕ
unfolding fnv32a
shard_of n name = fnv32a 2166136261 name % n

-- The four jobs that a channel has room for, and the one that its worker holds.
abbrev pub room : ℕ
room = 5

abbrev pub Channels : Type 0
Channels = List (List WriteJob)

-- The channel of a number; there is none beyond the last.
abbrev pub has_room : ℕ → Channels → Bool
has_room i [] = false
has_room zero (q ∷ qs) = ltb (length q) room
has_room (suc i) (q ∷ qs) = has_room i qs

abbrev pub push : ℕ → WriteJob → Channels → Channels
push i j [] = []
push zero j (q ∷ qs) = (q ++ (j ∷ [])) ∷ qs
push (suc i) j (q ∷ qs) = q ∷ push i j qs

abbrev pub behind : List WriteJob → Option (WriteJob × Channels) → Option (WriteJob × Channels)
behind q none = none
behind q (some (j, qs)) = some (j, q ∷ qs)

abbrev pub pop : ℕ → Channels → Option (WriteJob × Channels)
pop i [] = none
pop zero ([] ∷ qs) = none
pop zero ((j ∷ q) ∷ qs) = some (j, q ∷ qs)
pop (suc i) (q ∷ qs) = behind q (pop i qs)

abbrev pub is_idle : Channels → Bool
is_idle [] = true
is_idle ([] ∷ qs) = is_idle qs
is_idle ((j ∷ q) ∷ qs) = false

-- The reader, in its loop or past it with the error that it returns.
pub data Reader : Type 0 where
  reading : List Action → Reader
  stopped : Option CallError → Reader

pub data Turn : Type 0 where
  read_next : Turn
  worker : ℕ → Turn

pub record Pool (S : Type 0) : Type 0 where
  pub reader : Reader
  pub channels : Channels
  pub disk : S
  -- `p.err`
  pub first_error : Option CallError

abbrev pub empty_channels : ℕ → Channels
empty_channels zero = []
empty_channels (suc n) = [] ∷ empty_channels n

-- The number of the workers, from GOMAXPROCS.
abbrev pub pool_size : ℕ → ℕ
pool_size procs = max (if ltb procs 8 then procs else 8) 1

-- `newUntarPool`, and the reader before its first round.
unfoldable pub start : {S : Type 0} → ℕ → List Action → S → Pool S
start procs acts s = record {
  reader = reading acts;
  channels = empty_channels (pool_size procs);
  disk = s;
  first_error = none;
}

-- The reader after a call of its own.
abbrev pub returned : Option CallError → List Action → Reader
returned none acts = reading acts
returned (some e) acts = stopped (some e)

module _ (d : Root) where
  open d use {State}

  abbrev pub inline : State × Option CallError → List Action → Pool State → Pool State
  inline (s, e) acts p = record p { reader = returned e acts; disk = s }

  abbrev pub halt : Option CallError → Pool State → Pool State
  halt e p = record p { reader = stopped e }

  -- `dispatch`: the error of a worker, the body, and the send, which waits for room.
  unfoldable pub dispatch :
      WriteJob → Bool → List Action → Option CallError → Pool State → Option (Pool State)
  unfolding shard_of
  dispatch j whole acts (some e) p = some (halt (some e) p)
  dispatch j false acts none p = some (halt (some bad_stream) p)
  dispatch j true acts none p =
      let i = shard_of (length p.channels) j.name in
      if has_room i p.channels
      then some (record p { reader = reading acts; channels = push i j p.channels })
      else none

  -- `flush`, which waits for all jobs, and what is done behind it.
  unfoldable pub flush_then :
      Ordered → List Action → Option CallError → Pool State → Option (Pool State)
  unfolding do_ordered
  flush_then o acts (some e) p = if is_idle p.channels then some (halt (some e) p) else none
  flush_then o acts none p =
      if is_idle p.channels then some (inline (do_ordered d o p.disk) acts p) else none

  -- A round of the loop; `none` while it waits, and when it is past its end.
  unfoldable pub read_turn : Reader → Pool State → Option (Pool State)
  unfolding dispatch flush_then make_directory
  read_turn (stopped e) p = none
  read_turn (reading []) p = some (halt none p)
  read_turn (reading (skip ∷ acts)) p = some (record p { reader = reading acts })
  read_turn (reading (make_dir name mode ∷ acts)) p =
      some (inline (make_directory d name mode p.disk) acts p)
  read_turn (reading (queue_file j whole ∷ acts)) p = dispatch j whole acts p.first_error p
  read_turn (reading (ordered o ∷ acts)) p = flush_then o acts p.first_error p
  read_turn (reading (fail_read ∷ acts)) p = some (halt (some bad_stream) p)

  abbrev pub written : State × Option CallError → Pool State → Pool State
  written (s, e) p = record p { disk = s; first_error = e }

  -- A worker writes its job unless a write has failed before.
  unfoldable pub work :
      Option (WriteJob × Channels) → Option CallError → Pool State → Option (Pool State)
  unfolding write_file_bytes
  work none e p = none
  work (some (j, qs)) (some e) p = some (record p { channels = qs })
  work (some (j, qs)) none p =
      some (written (write_file_bytes d j p.disk) (record p { channels = qs }))

  unfoldable pub turn : Turn → Pool State → Option (Pool State)
  unfolding read_turn work
  turn read_next p = read_turn p.reader p
  turn (worker i) p = work (pop i p.channels) p.first_error p

  abbrev pub or_same : Pool State → Option (Pool State) → Pool State
  or_same p none = p
  or_same p (some q) = q

  -- A schedule; a turn that has to wait changes nothing.
  unfoldable pub run_turns : List Turn → Pool State → Pool State
  unfolding turn
  run_turns [] p = p
  run_turns (t ∷ ts) p = run_turns ts (or_same p (turn t p))

  -- `close` has waited for the jobs, and the reader is past its loop.
  abbrev pub is_stopped : Reader → Bool
  is_stopped (reading acts) = false
  is_stopped (stopped e) = true

  abbrev pub is_final : Pool State → Bool
  is_final p = is_stopped p.reader && is_idle p.channels

  -- What `untarFiltered` returns: the reader's error, or else the pool's.
  abbrev pub first_of : Reader → Option CallError → Option CallError
  first_of (stopped (some e)) worst = some e
  first_of _ worst = worst

  abbrev pub untar_result : Pool State → State × Option CallError
  untar_result p = (p.disk, first_of p.reader p.first_error)
