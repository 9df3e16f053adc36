-- ===== src/Extract/Pool/Serial/Turns.antt =====
-- The turns of a schedule keep what the extraction will come to, where an error has stopped it, too.
use kernelbuild_buildkit.Common.{
  ℕ, ◌<◌, Bool, true, false, List, [], ◌∷◌, ◌≡◌, ◌∙◌, refl, sym, if◌then◌else◌, Option, none, some,
  inl, inr,
}
use kernelbuild_buildkit.Extract.{
  WriteJob, Action, skip, make_dir, queue_file, ordered, fail_read, write_file_bytes,
}
use kernelbuild_buildkit.Extract.Disk.{Root, CallError, ok_state}
use kernelbuild_buildkit.Extract.Pool.{
  Channels, pop, is_idle, Reader, reading, stopped, Pool, Turn, read_next, worker, dispatch,
  flush_then, read_turn, work, turn, or_same, run_turns, halt, is_final, untar_result,
}
use kernelbuild_buildkit.Extract.Pool.Serial.Filed.{Orderly, drain-idle}
use kernelbuild_buildkit.Extract.Pool.Serial.Outlook.{outlook_of, outlook, Inv, Goes, pool}
use kernelbuild_buildkit.Extract.Pool.Serial.Rounds.{read-Goes, work-Goes}

module _ (d : Root) (Known : Action → Type 0) (Fine : d.State → Type 0)
    (orderly : Orderly d Known Fine) (n : ℕ) (positive : 0 < n) where
  open d use {State}

  lost_read-Goes :
      (r : Reader) (qs : Channels) (s : State) (e : CallError)
      → Goes d Known Fine orderly n positive none
          (read_turn d r (pool d Known Fine orderly n positive r qs s (some e)))
  unfolding read_turn dispatch flush_then
  lost_read-Goes (stopped x) qs s e = tt
  lost_read-Goes (reading []) qs s e = (inr (inl (e, refl)), refl)
  lost_read-Goes (reading (skip ∷ acts)) qs s e = (inr (inl (e, refl)), refl)
  lost_read-Goes (reading (make_dir name mode ∷ acts)) qs s e = (inr (inl (e, refl)), refl)
  lost_read-Goes (reading (queue_file j whole ∷ acts)) qs s e = (inr (inl (e, refl)), refl)
  lost_read-Goes (reading (ordered o ∷ acts)) qs s e = by_idle (is_idle qs)
    where
      by_idle :
          (b : Bool)
          → Goes d Known Fine orderly n positive none (
              if b
              then some (
                  halt d (some e) (
                    pool d Known Fine orderly n positive
                      (reading (ordered o ∷ acts))
                      qs
                      s
                      (some e)))
              else none)
      by_idle true = (inr (inl (e, refl)), refl)
      by_idle false = tt
  lost_read-Goes (reading (fail_read ∷ acts)) qs s e = (inr (inl (e, refl)), refl)

  lost_work-Goes :
      (o : Option (WriteJob × Channels)) (r : Reader) (qs : Channels) (s : State) (e : CallError)
      → Goes d Known Fine orderly n positive none
          (work d o (some e) (pool d Known Fine orderly n positive r qs s (some e)))
  unfolding work
  lost_work-Goes none r qs s e = tt
  lost_work-Goes (some (j, rest)) r qs s e = (inr (inl (e, refl)), refl)

  stopped-none :
      (f : Option CallError) (qs : Channels) (s : State) (e : CallError)
      → outlook_of d Known Fine orderly n positive f (stopped (some e)) qs s ≡ none
  stopped-none none qs s e = refl
  stopped-none (some x) qs s e = refl

  stopped_work-Goes :
      (o : Option (WriteJob × Channels)) (f : Option CallError) (qs : Channels) (s : State)
      (e : CallError)
      → Goes d Known Fine orderly n positive none
          (work d o f (pool d Known Fine orderly n positive (stopped (some e)) qs s f))
  unfolding work
  stopped_work-Goes none f qs s e = tt
  stopped_work-Goes (some (j, rest)) (some x) qs s e = (inr (inl (x, refl)), refl)
  stopped_work-Goes (some (j, rest)) none qs s e = (
    inr (inr (e, refl)),
    stopped-none (write_file_bytes d j s).1 rest (write_file_bytes d j s).0 e,
  )

  -- By the fields of the pool d Known Fine orderly n positive.
  fields-Goes :
      (t : Turn) (r : Reader) (qs : Channels) (s : State) (f : Option CallError)
      → Inv d Known Fine orderly n positive (pool d Known Fine orderly n positive r qs s f)
      → Goes d Known Fine orderly n positive
          (outlook d Known Fine orderly n positive (pool d Known Fine orderly n positive r qs s f))
          (turn d t (pool d Known Fine orderly n positive r qs s f))
  unfolding turn
  fields-Goes read_next r qs s (some e) h = lost_read-Goes r qs s e
  fields-Goes (worker i) r qs s (some e) h = lost_work-Goes (pop i qs) r qs s e
  fields-Goes read_next r qs s none (inl l) =
      read-Goes d Known Fine orderly n positive r qs s (l.count, l.filed, l.fine) l.known
  fields-Goes (worker i) r qs s none (inl l) =
      work-Goes d Known Fine orderly n positive i r qs s (l.count, l.filed, l.fine) l.known
  fields-Goes t r qs s none (inr (inl (e, h))) = cc
  fields-Goes read_next r qs s none (inr (inr (e, h))) = rw h (unfold read_turn in tt)
  fields-Goes (worker i) r qs s none (inr (inr (e, h))) =
      rw h (stopped_work-Goes (pop i qs) none qs s e)

  turn-Goes :
      (t : Turn) (p : Pool State)
      → Inv d Known Fine orderly n positive p
      → Goes d Known Fine orderly n positive
          (outlook d Known Fine orderly n positive p)
          (turn d t p)
  turn-Goes t p h = fields-Goes t p.reader p.channels p.disk p.first_error h

  turns-Inv :
      (ts : List Turn) (p : Pool State)
      → Inv d Known Fine orderly n positive p
      → Inv d Known Fine orderly n positive (run_turns d ts p)
        × (outlook d Known Fine orderly n positive (run_turns d ts p)
            ≡ outlook d Known Fine orderly n positive p)
  unfolding run_turns
  turns-Inv [] p h = (h, refl)
  turns-Inv (t ∷ ts) p h = by_turn (turn d t p) (turn-Goes t p h) (λ q g. turns-Inv ts q g)
    where
      by_turn :
          (o : Option (Pool State))
          → Goes d Known Fine orderly n positive (outlook d Known Fine orderly n positive p) o
          → ((q : Pool State)
              → Inv d Known Fine orderly n positive q
              → Inv d Known Fine orderly n positive (run_turns d ts q)
                × (outlook d Known Fine orderly n positive (run_turns d ts q)
                    ≡ outlook d Known Fine orderly n positive q))
          → Inv d Known Fine orderly n positive (run_turns d ts (or_same d p o))
            × (outlook d Known Fine orderly n positive (run_turns d ts (or_same d p o))
                ≡ outlook d Known Fine orderly n positive p)
      by_turn none g ih = ih p h
      by_turn (some q) (g, e) ih = let (i, e') = ih q g in (i, e' ∙ e)

  -- A pool d Known Fine orderly n positive that is done has come to what it was going to.
  final-outlook :
      (r : Reader) (qs : Channels) (s : State) (f : Option CallError)
      → is_final d (pool d Known Fine orderly n positive r qs s f) ≡ true
      → ok_state (untar_result d (pool d Known Fine orderly n positive r qs s f))
        ≡ outlook d Known Fine orderly n positive (pool d Known Fine orderly n positive r qs s f)
  final-outlook (reading acts) qs s f h = cc
  final-outlook (stopped none) qs s none h = sym (drain-idle d Fine qs s h)
  final-outlook (stopped none) qs s (some e) h = refl
  final-outlook (stopped (some e)) qs s none h = refl
  final-outlook (stopped (some e)) qs s (some x) h = refl

  pub turns-result :
      (ts : List Turn) (p : Pool State)
      → Inv d Known Fine orderly n positive p
      → is_final d (run_turns d ts p) ≡ true
      → ok_state (untar_result d (run_turns d ts p)) ≡ outlook d Known Fine orderly n positive p
  turns-result ts p h done =
      let q = run_turns d ts p in
      final-outlook q.reader q.channels q.disk q.first_error done ∙ (turns-Inv ts p h).1
