-- ===== src/Extract/Pool/Serial/Rounds.antt =====
-- A round of the reader and a job of a worker keep what the extraction will come to.
use kernelbuild_buildkit.Common.{
  ℕ, ◌<◌, Bool, true, false, List, [], ◌∷◌, ◌≡◌, ◌∙◌, refl, sym, ap, fun_ext, if◌then◌else◌, ◌+◌,
  arith, Option, none, some, inl, inr, All, length,
}
use kernelbuild_buildkit.Extract.{
  WriteJob, Ordered, Action, skip, make_dir, queue_file, ordered, fail_read, write_file_bytes,
  make_directory, do_ordered,
}
use kernelbuild_buildkit.Extract.Disk.{
  Root, CallError, bad_stream, ok_state, ◌and_then◌, and_then_assoc, and_then-some,
}
use kernelbuild_buildkit.Extract.Pool.{
  Channels, push, pop, has_room, is_idle, shard_of, Reader, reading, stopped, dispatch, flush_then,
  read_turn, work, inline, written,
}
use kernelbuild_buildkit.Extract.Pool.Laws.{drain-Commute, drain-push, drain-pop}
use kernelbuild_buildkit.Extract.Pool.Serial.Filed.{
  save, add_dir, act_state, serial, Orderly, InChannel, Filed, Filed-keeps, Filed-dirs,
  Filed-others, Filed-push, Filed-pop, length-push, drain-idle,
}
use kernelbuild_buildkit.Extract.Pool.Serial.Outlook.{
  and_then-none, drained, ahead, ReaderKnown, Goes, pool, Here, live, inline-Goes, shard-lt,
  rest-nil, rest-cons, ahead-eq, ahead-none,
}

module _ (d : Root) (Known : Action → Type 0) (Fine : d.State → Type 0)
    (orderly : Orderly d Known Fine) (n : ℕ) (positive : 0 < n) where
  open d use {State}

  dispatch-Goes :
      (j : WriteJob) (whole : Bool) (acts : List Action) (qs : Channels) (s : State) (r : Reader)
      → Here d Known Fine orderly n positive qs s
      → Known (queue_file j whole)
      → All Known acts
      → Goes d Known Fine orderly n positive
          (drained d Known Fine orderly n positive qs s and_then λ t.
            (act_state d (queue_file j whole) t and_then serial d acts))
          (dispatch d j whole acts none (pool d Known Fine orderly n positive r qs s none))
  unfolding dispatch
  dispatch-Goes j false acts qs s r h k ks = (
    inr (inr (bad_stream, refl)),
    sym (and_then-none {T = State} (drained d Known Fine orderly n positive qs s)),
  )
  dispatch-Goes j true acts qs s r (c, f, fine) k ks =
      by_room (has_room (shard_of (length qs) j.name) qs)
    where
      in_channel : InChannel d Known Fine orderly n (0 + shard_of n j.name) j
      in_channel = (k, omega arith)

      pushed : Channels
      pushed = push (shard_of (length qs) j.name) j qs

      filed : Filed d Known Fine orderly n 0 pushed
      filed = rw c (Filed-push d Known Fine orderly n (shard_of n j.name) 0 j qs in_channel f)

      written_last :
          drained d Known Fine orderly n positive pushed s
          ≡ (drained d Known Fine orderly n positive qs s and_then save d j)
      written_last = rw c (
          drain-push (save d) Fine (shard_of n j.name) j qs
            (shard-lt d Known Fine orderly n positive j.name qs c)
            (Filed-keeps d Known Fine orderly n 0 qs f)
            (Filed-others d Known Fine orderly n (shard_of n j.name) 0 j qs in_channel f) s fine)

      by_room :
          (b : Bool)
          → Goes d Known Fine orderly n positive
              (drained d Known Fine orderly n positive qs s and_then λ t.
                (save d j t and_then serial d acts))
              (if b
                then some (pool d Known Fine orderly n positive (reading acts) pushed s none)
                else none)
      by_room false = tt
      by_room true = (
        inl (
            live d Known Fine orderly n positive
              (length-push d (shard_of (length qs) j.name) j qs ∙ c, filed, fine) ks),
        ap (λ o. o and_then serial d acts) written_last
            ∙ and_then_assoc (drained d Known Fine orderly n positive qs s) (save d j)
                (serial d acts),
      )

  flush-Goes :
      (o : Ordered) (acts : List Action) (qs : Channels) (s : State) (r : Reader)
      → Here d Known Fine orderly n positive qs s
      → Known (ordered o)
      → All Known acts
      → Goes d Known Fine orderly n positive
          (drained d Known Fine orderly n positive qs s and_then λ t.
            (act_state d (ordered o) t and_then serial d acts))
          (flush_then d o acts none (pool d Known Fine orderly n positive r qs s none))
  unfolding flush_then
  flush-Goes o acts qs s r h k ks = by_idle (is_idle qs) refl
    where
      by_idle :
          (b : Bool)
          → is_idle qs ≡ b
          → Goes d Known Fine orderly n positive
              (drained d Known Fine orderly n positive qs s and_then λ t.
                (act_state d (ordered o) t and_then serial d acts))
              (if b
                then some (
                    inline d
                      (do_ordered d o s)
                      acts
                      (pool d Known Fine orderly n positive r qs s none))
                else none)
      by_idle false e = tt
      by_idle true e =
          inline-Goes d Known Fine orderly n positive (do_ordered d o) qs s acts h ks
            (orderly.keeps (ordered o) k)
            (ap (λ (x : Option State). x and_then λ t. ok_state (do_ordered d o t))
                (drain-idle d Fine qs s e)
              ∙ sym (
                  ap (λ (g : State → Option State). ok_state (do_ordered d o s) and_then g)
                    (fun_ext (λ t. drain-idle d Fine qs t e))
                  ∙ and_then-some (ok_state (do_ordered d o s))))
            r

  pub read-Goes :
      (r : Reader) (qs : Channels) (s : State)
      → Here d Known Fine orderly n positive qs s
      → ReaderKnown d Known Fine orderly n positive r
      → Goes d Known Fine orderly n positive
          (ahead d Known Fine orderly n positive r qs s)
          (read_turn d r (pool d Known Fine orderly n positive r qs s none))
  unfolding read_turn
  read-Goes (stopped e) qs s h k = tt
  read-Goes (reading []) qs s h k = (
    inl (live d Known Fine orderly n positive h tt),
    sym (rest-nil d Known Fine orderly n positive qs s),
  )
  read-Goes (reading (skip ∷ acts)) qs s h (k, ks) =
      rw (rest-cons d Known Fine orderly n positive skip acts qs s)
        (inl (live d Known Fine orderly n positive h ks), refl)
  read-Goes (reading (make_dir name mode ∷ acts)) qs s h (k, ks) =
      rw (rest-cons d Known Fine orderly n positive (make_dir name mode) acts qs s) (
        inline-Goes d Known Fine orderly n positive (make_directory d name mode) qs s acts h ks
          (orderly.keeps (make_dir name mode) k)
          (sym (
            drain-Commute (save d) Fine (add_dir d name mode) qs
              (Filed-dirs d Known Fine orderly n 0 name mode qs k h.1) s h.2))
          (reading (make_dir name mode ∷ acts)))
  read-Goes (reading (queue_file j whole ∷ acts)) qs s h (k, ks) =
      rw (rest-cons d Known Fine orderly n positive (queue_file j whole) acts qs s)
        (dispatch-Goes j whole acts qs s (reading (queue_file j whole ∷ acts)) h k ks)
  read-Goes (reading (ordered o ∷ acts)) qs s h (k, ks) =
      rw (rest-cons d Known Fine orderly n positive (ordered o) acts qs s)
        (flush-Goes o acts qs s (reading (ordered o ∷ acts)) h k ks)
  read-Goes (reading (fail_read ∷ acts)) qs s h (k, ks) = (
    inr (inr (bad_stream, refl)),
    sym (
        rest-cons d Known Fine orderly n positive fail_read acts qs s
        ∙ and_then-none {T = State} (drained d Known Fine orderly n positive qs s)),
  )

  pub work-Goes :
      (i : ℕ) (r : Reader) (qs : Channels) (s : State)
      → Here d Known Fine orderly n positive qs s
      → ReaderKnown d Known Fine orderly n positive r
      → Goes d Known Fine orderly n positive
          (ahead d Known Fine orderly n positive r qs s)
          (work d (pop i qs) none (pool d Known Fine orderly n positive r qs s none))
  unfolding work
  work-Goes i r qs s (c, f, fine) k = by_job (pop i qs) refl
    where
      by_result :
          (j : WriteJob) (rest : Channels) (x : State × Option CallError)
          → write_file_bytes d j s ≡ x
          → Here d Known Fine orderly n positive rest s
          → Known (queue_file j true)
          → drained d Known Fine orderly n positive qs s
            ≡ (save d j s and_then drained d Known Fine orderly n positive rest)
          → Goes d Known Fine orderly n positive
              (ahead d Known Fine orderly n positive r qs s)
              (some (written d x (pool d Known Fine orderly n positive r rest s none)))
      by_result j rest (t, none) g (c', f', _) known e = (
        inl (
            live d Known Fine orderly n positive
              (c', f', orderly.keeps (queue_file j true) known s t fine (ap ok_state g)) k),
        ahead-eq d Known Fine orderly n positive r qs rest s t
            (e ∙ ap (λ x. ok_state x and_then drained d Known Fine orderly n positive rest) g),
      )
      by_result j rest (t, some e') g h known e = (
        inr (inl (e', refl)),
        sym (
            ahead-none d Known Fine orderly n positive r qs s
              (e ∙ ap (λ x. ok_state x and_then drained d Known Fine orderly n positive rest) g)),
      )

      by_job :
          (o : Option (WriteJob × Channels))
          → pop i qs ≡ o
          → Goes d Known Fine orderly n positive
              (ahead d Known Fine orderly n positive r qs s)
              (work d o none (pool d Known Fine orderly n positive r qs s none))
      by_job none e = tt
      by_job (some (j, rest)) e =
          let (h, g, l) = Filed-pop d Known Fine orderly n i 0 j qs rest e f in
          by_result j rest (write_file_bytes d j s) refl (l ∙ c, g, fine) h.0
            (drain-pop (save d) Fine i qs rest j e
              (Filed-others d Known Fine orderly n i 0 j qs h f) s fine)
