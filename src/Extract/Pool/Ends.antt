-- ===== src/Extract/Pool/Ends.antt =====
-- The pool ends: until the end there is a turn that can be made, and each one leaves less to do.
use kernelbuild_buildkit.Common.{
  ℕ, zero, suc, ◌<◌, ◌≤◌, Bool, true, false, List, [], ◌∷◌, ◌≡◌, refl, subst, Option, none, some,
  ◌⊎◌, inl, inr, length, arith, Bytes,
}
use kernelbuild_buildkit.Extract.{
  WriteJob, Action, skip, make_dir, queue_file, ordered, fail_read, do_ordered,
}
use kernelbuild_buildkit.Extract.Disk.{Root, CallError}
use kernelbuild_buildkit.Extract.Pool.{
  Channels, push, pop, has_room, is_idle, shard_of, Reader, reading, stopped, Pool, Turn, read_next,
  worker, start, pool_size, dispatch, flush_then, read_turn, work, turn, run_turns, inline,
  is_final,
}
use kernelbuild_buildkit.Extract.Pool.Work.{
  work_left, Advances, pool, turn-Advances, turns-length, length-empty, pool_size-pos,
}

module _ (d : Root) where
  open d use {State}

  -- Some turn is made.
  abbrev pub CanGo : Pool State → Type 0
  CanGo p = (t : Turn) × (q : Pool State) × (turn d t p ≡ some q)

  worker-CanGo :
      (qs : Channels)
      → is_idle qs ≡ false
      → (i : ℕ) × (j : WriteJob) × (rest : Channels) × (pop i qs ≡ some (j, rest))
  worker-CanGo [] h = cc
  worker-CanGo ([] ∷ qs) h =
      let (i, j, rest, e) = worker-CanGo qs h in (suc i, j, [] ∷ rest, rw e refl)
  worker-CanGo ((j ∷ q) ∷ qs) h = (0, j, q ∷ qs, refl)

  idle-has_room : (i : ℕ) (qs : Channels) → is_idle qs ≡ true → i < length qs → has_room i qs ≡ true
  idle-has_room i [] h lt = absurd (omega arith)
  idle-has_room zero ([] ∷ qs) h lt = refl
  idle-has_room (suc i) ([] ∷ qs) h lt = idle-has_room i qs h (omega arith)
  idle-has_room i ((j ∷ q) ∷ qs) h lt = cc

  shard-lt : (name : Bytes) (n : ℕ) → 0 < n → shard_of n name < n
  unfolding shard_of
  shard-lt name n h = grind arith

  abbrev Reads : Reader → Pool State → Type 0
  Reads r p = (q : Pool State) × (read_turn d r p ≡ some q)

  -- With nothing in the channels the reader does not wait.
  reader-CanGo :
      (acts : List Action) (qs : Channels) (s : State) (e : Option CallError)
      → 0 < length qs
      → is_idle qs ≡ true
      → Reads (reading acts) (pool d (reading acts) qs s e)
  unfolding read_turn dispatch flush_then
  reader-CanGo [] qs s e pos h = (_, refl)
  reader-CanGo (skip ∷ acts) qs s e pos h = (_, refl)
  reader-CanGo (make_dir name mode ∷ acts) qs s e pos h = (_, refl)
  reader-CanGo (queue_file j whole ∷ acts) qs s (some x) pos h = (_, refl)
  reader-CanGo (queue_file j false ∷ acts) qs s none pos h = (_, refl)
  reader-CanGo (queue_file j true ∷ acts) qs s none pos h = (
    pool d (reading acts) (push (shard_of (length qs) j.name) j qs) s none,
    rw (idle-has_room (shard_of (length qs) j.name) qs h (shard-lt j.name (length qs) pos)) refl,
  )
  reader-CanGo (ordered o ∷ acts) qs s (some x) pos h =
      (pool d (stopped (some x)) qs s (some x), rw h refl)
  reader-CanGo (ordered o ∷ acts) qs s none pos h =
      (inline d (do_ordered d o s) acts (pool d (reading (ordered o ∷ acts)) qs s none), rw h refl)
  reader-CanGo (fail_read ∷ acts) qs s e pos h = (_, refl)

  final-or-CanGo :
      (r : Reader) (qs : Channels) (s : State) (e : Option CallError)
      → 0 < length qs
      → (is_final d (pool d r qs s e) ≡ true) ⊎ CanGo (pool d r qs s e)
  unfolding turn
  final-or-CanGo r qs s e pos = by_idle (is_idle qs) refl
    where
      by_reader :
          (r : Reader)
          → is_idle qs ≡ true
          → (is_final d (pool d r qs s e) ≡ true) ⊎ CanGo (pool d r qs s e)
      by_reader (stopped x) h = inl h
      by_reader (reading acts) h =
          let (q, g) = reader-CanGo acts qs s e pos h in inr (read_next, q, g)

      working :
          (f : Option CallError) (j : WriteJob) (rest : Channels)
          → (q : Pool State) × (work d (some (j, rest)) f (pool d r qs s e) ≡ some q)
      working none j rest = (_, unfold work in refl)
      working (some x) j rest = (_, unfold work in refl)

      by_idle :
          (b : Bool)
          → is_idle qs ≡ b
          → (is_final d (pool d r qs s e) ≡ true) ⊎ CanGo (pool d r qs s e)
      by_idle true h = by_reader r h
      by_idle false h =
          let (i, j, rest, g) = worker-CanGo qs h in
          let (q, w) = working e j rest in inr (worker i, q, rw g w)

  is_final-cons :
      (t : Turn) (ts : List Turn) (p q : Pool State)
      → turn d t p ≡ some q
      → is_final d (run_turns d ts q) ≡ true
      → is_final d (run_turns d (t ∷ ts) p) ≡ true
  unfolding run_turns
  is_final-cons t ts p q e h = rw (e, run_turns) h

  -- Some turns bring a pool d to its end, no more than it has left to do.
  finish :
      (fuel : ℕ) (p : Pool State)
      → 0 < length p.channels
      → work_left p ≤ fuel
      → (ts : List Turn) × (is_final d (run_turns d ts p) ≡ true) × (length ts ≤ work_left p)
  finish zero p pos h = elim (final-or-CanGo p.reader p.channels p.disk p.first_error pos) [
    | inl done ↦ ([], unfold run_turns in done, omega arith)
    | inr (t, q, e) ↦ let a = subst (Advances d p) e (turn-Advances d t p) in absurd (omega arith)
  ]
  finish (suc fuel) p pos h = elim (final-or-CanGo p.reader p.channels p.disk p.first_error pos) [
    | inl done ↦ ([], unfold run_turns in done, omega arith)
    | inr (t, q, e) ↦
        let a = subst (Advances d p) e (turn-Advances d t p) in
        let (ts, done, short) = finish fuel q (omega arith) (omega arith) in
        (t ∷ ts, is_final-cons t ts p q e done, omega arith)
  ]

  start-length :
      (procs : ℕ) (acts : List Action) (s : State) → 0 < length (start procs acts s).channels
  unfolding start
  start-length procs acts s = omega (arith, length-empty (pool_size procs), pool_size-pos procs)

  -- The extraction ends, however the turns of the reader and of the workers fall: after any of them, a
  -- turn that is made leaves less to do, and as long as the extraction is not done there is one
  -- that can be made; some go on from there to the end, no more than there is left to do.
  pub untar-ends :
      (procs : ℕ) (acts : List Action) (s : State) (ts : List Turn)
      → ((t : Turn) (q : Pool State)
          → turn d t (run_turns d ts (start procs acts s)) ≡ some q
          → work_left q < work_left (run_turns d ts (start procs acts s)))
        × ((is_final d (run_turns d ts (start procs acts s)) ≡ true)
            ⊎ CanGo (run_turns d ts (start procs acts s)))
        × ((us : List Turn) × (is_final d (run_turns d us (run_turns d ts (start procs acts s)))
              ≡ true)
            × (length us ≤ work_left (run_turns d ts (start procs acts s))))
  untar-ends procs acts s ts =
      let p = run_turns d ts (start procs acts s) in
      let pos : 0 < length p.channels =
        omega (arith, turns-length d ts (start procs acts s), start-length procs acts s) in
      (
        λ t q e. (subst (Advances d p) e (turn-Advances d t p)).0,
        final-or-CanGo p.reader p.channels p.disk p.first_error pos,
        finish (work_left p) p pos (omega arith),
      )
