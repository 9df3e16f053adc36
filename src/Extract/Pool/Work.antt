-- ===== src/Extract/Pool/Work.antt =====
-- Each turn of the pool that is made leaves less to do.
use kernelbuild_buildkit.Common.{
  ℕ, zero, suc, ◌+◌, ◌*◌, ◌<◌, ◌≤◌, Bool, true, false, List, [], ◌∷◌, ◌≡◌, refl, ◌∙◌, Option, none,
  some, length, length-append, arith, if◌then◌else◌,
}
use kernelbuild_buildkit.Extract.{
  WriteJob, Action, skip, make_dir, queue_file, ordered, fail_read, make_directory, do_ordered,
}
use kernelbuild_buildkit.Extract.Disk.{Root, CallError}
use kernelbuild_buildkit.Extract.Pool.Laws.{behind-eq-some}
use kernelbuild_buildkit.Extract.Pool.{
  Channels, push, pop, has_room, is_idle, shard_of, Reader, reading, stopped, Pool, Turn, read_next,
  worker, pool_size, empty_channels, dispatch, flush_then, read_turn, work, turn, or_same,
  run_turns, halt, inline,
}

-- The jobs in the channels.
abbrev pub queued : Channels → ℕ
queued [] = 0
queued (q ∷ qs) = length q + queued qs

-- A round that is left counts twice, for the job that it may queue.
abbrev pub rounds_left : Reader → ℕ
rounds_left (reading acts) = suc (2 * length acts)
rounds_left (stopped e) = 0

abbrev pub work_left : {S : Type 0} → Pool S → ℕ
work_left p = rounds_left p.reader + queued p.channels

queued-push-le : (i : ℕ) (j : WriteJob) (qs : Channels) → queued (push i j qs) ≤ suc (queued qs)
queued-push-le i j [] = omega arith
queued-push-le zero j (q ∷ qs) = omega (arith, length-append q (j ∷ []))
queued-push-le (suc i) j (q ∷ qs) = omega (arith, queued-push-le i j qs)

queued-pop :
    (i : ℕ) (j : WriteJob) (qs rest : Channels)
    → pop i qs ≡ some (j, rest)
    → queued rest < queued qs
queued-pop i j [] rest e = cc
queued-pop zero j ([] ∷ qs) rest e = cc
queued-pop zero j ((k ∷ q) ∷ qs) rest e = ground arith
queued-pop (suc i) j (q ∷ qs) rest e =
    let (r, e₁, e₂) = behind-eq-some q (pop i qs) e in rw e₂ (omega (arith, queued-pop i j qs r e₁))

length-pop :
    (i : ℕ) (j : WriteJob) (qs rest : Channels)
    → pop i qs ≡ some (j, rest)
    → length rest ≡ length qs
length-pop i j [] rest e = cc
length-pop zero j ([] ∷ qs) rest e = cc
length-pop zero j ((k ∷ q) ∷ qs) rest e = ground arith
length-pop (suc i) j (q ∷ qs) rest e =
    let (r, e₁, e₂) = behind-eq-some q (pop i qs) e in rw e₂ (omega (arith, length-pop i j qs r e₁))

length-push : (i : ℕ) (j : WriteJob) (qs : Channels) → length (push i j qs) ≡ length qs
length-push i j [] = refl
length-push zero j (q ∷ qs) = refl
length-push (suc i) j (q ∷ qs) = omega (arith, length-push i j qs)

pub length-empty : (n : ℕ) → length (empty_channels n) ≡ n
length-empty zero = refl
length-empty (suc n) = omega (arith, length-empty n)

pub pool_size-pos : (procs : ℕ) → 0 < pool_size procs
pool_size-pos procs = ground arith

module _ (d : Root) where
  open d use {State}

  -- A turn that is made leaves less to do and the channels that there are.
  abbrev pub Advances : Pool State → Option (Pool State) → Type 0
  Advances p none = Unit
  Advances p (some q) = (work_left q < work_left p) × (length q.channels ≡ length p.channels)

  abbrev pub pool : Reader → Channels → State → Option CallError → Pool State
  pool r qs s e = record { reader = r; channels = qs; disk = s; first_error = e }

  inline-Advances :
      (x : State × Option CallError) (a : Action) (acts : List Action) (qs : Channels) (s : State)
      (e : Option CallError)
      → Advances
          (pool (reading (a ∷ acts)) qs s e)
          (some (inline d x acts (pool (reading (a ∷ acts)) qs s e)))
  inline-Advances (t, none) a acts qs s e = (omega arith, refl)
  inline-Advances (t, some x) a acts qs s e = (omega arith, refl)

  read-Advances :
      (r : Reader) (qs : Channels) (s : State) (e : Option CallError)
      → Advances (pool r qs s e) (read_turn d r (pool r qs s e))
  unfolding read_turn dispatch flush_then
  read-Advances (stopped x) qs s e = tt
  read-Advances (reading []) qs s e = (omega arith, refl)
  read-Advances (reading (skip ∷ acts)) qs s e = (omega arith, refl)
  read-Advances (reading (make_dir name mode ∷ acts)) qs s e =
      inline-Advances (make_directory d name mode s) (make_dir name mode) acts qs s e
  read-Advances (reading (queue_file j whole ∷ acts)) qs s (some x) = (omega arith, refl)
  read-Advances (reading (queue_file j false ∷ acts)) qs s none = (omega arith, refl)
  read-Advances (reading (queue_file j true ∷ acts)) qs s none =
      by_room (has_room (shard_of (length qs) j.name) qs)
    where
      by_room :
          (b : Bool)
          → Advances (pool (reading (queue_file j true ∷ acts)) qs s none) (
              if b
              then some (pool (reading acts) (push (shard_of (length qs) j.name) j qs) s none)
              else none)
      by_room false = tt
      by_room true = (
        omega (arith, queued-push-le (shard_of (length qs) j.name) j qs),
        length-push (shard_of (length qs) j.name) j qs,
      )
  read-Advances (reading (ordered o ∷ acts)) qs s (some x) = by_idle (is_idle qs)
    where
      by_idle :
          (b : Bool)
          → Advances (pool (reading (ordered o ∷ acts)) qs s (some x)) (
              if b
              then some (halt d (some x) (pool (reading (ordered o ∷ acts)) qs s (some x)))
              else none)
      by_idle false = tt
      by_idle true = (omega arith, refl)
  read-Advances (reading (ordered o ∷ acts)) qs s none = by_idle (is_idle qs)
    where
      by_idle :
          (b : Bool)
          → Advances (pool (reading (ordered o ∷ acts)) qs s none) (
              if b
              then some
                  (inline d (do_ordered d o s) acts (pool (reading (ordered o ∷ acts)) qs s none))
              else none)
      by_idle false = tt
      by_idle true = inline-Advances (do_ordered d o s) (ordered o) acts qs s none
  read-Advances (reading (fail_read ∷ acts)) qs s e = (omega arith, refl)

  work-Advances :
      (o : Option (WriteJob × Channels)) (i : ℕ) (r : Reader) (qs : Channels) (s : State)
      (e : Option CallError)
      → pop i qs ≡ o
      → Advances (pool r qs s e) (work d o e (pool r qs s e))
  unfolding work
  work-Advances none i r qs s e h = tt
  work-Advances (some (j, rest)) i r qs s (some x) h =
      (omega (arith, queued-pop i j qs rest h), length-pop i j qs rest h)
  work-Advances (some (j, rest)) i r qs s none h =
      (omega (arith, queued-pop i j qs rest h), length-pop i j qs rest h)

  pub turn-Advances : (t : Turn) (p : Pool State) → Advances p (turn d t p)
  unfolding turn
  turn-Advances read_next p = read-Advances p.reader p.channels p.disk p.first_error
  turn-Advances (worker i) p =
      work-Advances (pop i p.channels) i p.reader p.channels p.disk p.first_error refl

  pub turns-length :
      (ts : List Turn) (p : Pool State) → length (run_turns d ts p).channels ≡ length p.channels
  unfolding run_turns
  turns-length [] p = refl
  turns-length (t ∷ ts) p =
      turns-length ts (or_same d p (turn d t p)) ∙ by_turn (turn d t p) (turn-Advances t p)
    where
      by_turn :
          (o : Option (Pool State))
          → Advances p o
          → length (or_same d p o).channels ≡ length p.channels
      by_turn none a = refl
      by_turn (some q) a = a.1
