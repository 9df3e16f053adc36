-- ===== src/Extract/Pool/Serial/Filed.antt =====
-- What is asked of an archive and its file system, and how the jobs lie in the channels.
use kernelbuild_buildkit.Common.{
  ℕ, zero, suc, ◌+◌, ◌<◌, true, false, List, [], ◌∷◌, ◌++◌, ◌≡◌, ◌≢◌, refl, ap, sym, ◌∙◌, arith,
  Option, none, some, All, Bytes, length,
}
use kernelbuild_buildkit.Extract.{
  WriteJob, Action, skip, make_dir, queue_file, ordered, fail_read, write_file_bytes,
  make_directory, do_ordered, untar_serial,
}
use kernelbuild_buildkit.Extract.Disk.{Root, ok_state, ◌and_then◌, ok_state-carry}
use kernelbuild_buildkit.Extract.Pool.{Channels, push, pop, is_idle, shard_of, empty_channels}
use kernelbuild_buildkit.Extract.Pool.Laws.{
  Commute, Passes, AllBut, KeepsFine, drain, behind-eq-some,
}

module _ (d : Root) where
  open d use {State}

  abbrev pub save : WriteJob → State → Option State
  save j s = ok_state (write_file_bytes d j s)

  abbrev pub add_dir : Bytes → ℕ → State → Option State
  add_dir name mode s = ok_state (make_directory d name mode s)

  -- The state after a round of the serial loop, if it succeeds.
  abbrev pub act_state : Action → State → Option State
  act_state skip s = some s
  act_state (make_dir name mode) s = add_dir name mode s
  act_state (queue_file j true) s = save j s
  act_state (queue_file j false) s = none
  act_state (ordered o) s = ok_state (do_ordered d o s)
  act_state fail_read s = none

  abbrev pub serial : List Action → State → Option State
  serial acts s = ok_state (untar_serial d acts s)

  pub serial-cons :
      (a : Action) (acts : List Action) (s : State)
      → serial (a ∷ acts) s ≡ (act_state a s and_then serial acts)
  unfolding untar_serial
  serial-cons skip acts s = refl
  serial-cons (make_dir name mode) acts s =
      ok_state-carry (make_directory d name mode s) (untar_serial d acts)
  serial-cons (queue_file j true) acts s =
      ok_state-carry (write_file_bytes d j s) (untar_serial d acts)
  serial-cons (queue_file j false) acts s = refl
  serial-cons (ordered o) acts s = ok_state-carry (do_ordered d o s) (untar_serial d acts)
  serial-cons fail_read acts s = refl

  -- `Known` are the rounds of an archive, and `Fine` the states in which its names are different files
  -- where they differ. Every round keeps the state fine; two files of different names can be written in
  -- either order, and so can a directory and a file.
  pub record Orderly (Known : Action → Type 0) (Fine : State → Type 0) : Type 0 where
    pub keeps : (a : Action) → Known a → KeepsFine save Fine (act_state a)
    pub files :
        (j k : WriteJob)
        → Known (queue_file j true)
        → Known (queue_file k true)
        → j.name ≢ k.name
        → (s : State) → Fine s
        → Commute (save j) (save k) s
    pub dirs :
        (name : Bytes) (mode : ℕ) (k : WriteJob)
        → Known (make_dir name mode)
        → Known (queue_file k true)
        → (s : State) → Fine s
        → Commute (add_dir name mode) (save k) s

  module _ (Known : Action → Type 0) (Fine : State → Type 0) (orderly : Orderly Known Fine)
      (n : ℕ) where
    -- A job of the archive in the channel of its name.
    abbrev pub InChannel : ℕ → WriteJob → Type 0
    InChannel i k = Known (queue_file k true) × (shard_of n k.name ≡ i)

    -- Every job is in its channel; the first channel has the number `b`.
    abbrev pub Filed : ℕ → Channels → Type 0
    Filed b [] = Unit
    Filed b (q ∷ qs) = All (InChannel b) q × Filed (suc b) qs

    All-Passes :
        (b : ℕ) (f : State → Option State) (q : List WriteJob)
        → ((k : WriteJob) → InChannel b k → (s : State) → Fine s → Commute f (save k) s)
        → All (InChannel b) q
        → All (Passes save Fine f) q
    All-Passes b f [] c h = tt
    All-Passes b f (k ∷ q) c (h, hs) = (
      record { commute = c k h; keeps = orderly.keeps (queue_file k true) h.0 },
      All-Passes b f q c hs,
    )

    All-keeps :
        (b : ℕ) (q : List WriteJob)
        → All (InChannel b) q
        → All (λ k. KeepsFine save Fine (save k)) q
    All-keeps b [] h = tt
    All-keeps b (k ∷ q) (h, hs) = (orderly.keeps (queue_file k true) h.0, All-keeps b q hs)

    pub Filed-keeps :
        (b : ℕ) (qs : Channels) → Filed b qs → All (All (λ k. KeepsFine save Fine (save k))) qs
    Filed-keeps b [] h = tt
    Filed-keeps b (q ∷ qs) (h, hs) = (All-keeps b q h, Filed-keeps (suc b) qs hs)

    pub Filed-dirs :
        (b : ℕ) (name : Bytes) (mode : ℕ) (qs : Channels)
        → Known (make_dir name mode)
        → Filed b qs
        → All (All (Passes save Fine (add_dir name mode))) qs
    Filed-dirs b name mode [] a h = tt
    Filed-dirs b name mode (q ∷ qs) a (h, hs) = (
      All-Passes b (add_dir name mode) q (λ k i. orderly.dirs name mode k a i.0) h,
      Filed-dirs (suc b) name mode qs a hs,
    )

    -- Jobs of different channels have different names.
    apart :
        (i b : ℕ) (j : WriteJob)
        → InChannel i j
        → i ≢ b
        → (k : WriteJob) → InChannel b k
        → (s : State) → Fine s
        → Commute (save j) (save k) s
    apart i b j h ne k g = orderly.files j k h.0 g.0 (λ e. ne (sym h.1 ∙ (ap (shard_of n) e ∙ g.1)))

    Filed-later :
        (i b : ℕ) (j : WriteJob) (qs : Channels)
        → InChannel i j
        → i < b
        → Filed b qs
        → All (All (Passes save Fine (save j))) qs
    Filed-later i b j [] h lt f = tt
    Filed-later i b j (q ∷ qs) h lt (f, fs) = (
      All-Passes b (save j) q (apart i b j h (λ e. omega arith)) f,
      Filed-later i (suc b) j qs h (omega arith) fs,
    )

    pub Filed-others :
        (i b : ℕ) (j : WriteJob) (qs : Channels)
        → InChannel (b + i) j
        → Filed b qs
        → AllBut save Fine (Passes save Fine (save j)) i qs
    Filed-others i b j [] h f = tt
    Filed-others zero b j (q ∷ qs) h (f, fs) = Filed-later (b + 0) (suc b) j qs h (omega arith) fs
    Filed-others (suc i) b j (q ∷ qs) h (f, fs) = (
      All-Passes b (save j) q (apart (b + suc i) b j h (λ e. omega arith)) f,
      Filed-others i (suc b) j qs (h.0, h.1 ∙ omega arith) fs,
    )

    All-snoc :
        (b : ℕ) (j : WriteJob) (q : List WriteJob)
        → InChannel b j
        → All (InChannel b) q
        → All (InChannel b) (q ++ (j ∷ []))
    All-snoc b j [] h f = (h, tt)
    All-snoc b j (k ∷ q) h (f, fs) = (f, All-snoc b j q h fs)

    pub Filed-push :
        (i b : ℕ) (j : WriteJob) (qs : Channels)
        → InChannel (b + i) j
        → Filed b qs
        → Filed b (push i j qs)
    Filed-push i b j [] h f = tt
    Filed-push zero b j (q ∷ qs) h (f, fs) = (All-snoc b j q (h.0, h.1 ∙ omega arith) f, fs)
    Filed-push (suc i) b j (q ∷ qs) h (f, fs) =
        (f, Filed-push i (suc b) j qs (h.0, h.1 ∙ omega arith) fs)

    pub Filed-pop :
        (i b : ℕ) (j : WriteJob) (qs rest : Channels)
        → pop i qs ≡ some (j, rest)
        → Filed b qs
        → InChannel (b + i) j × Filed b rest × (length rest ≡ length qs)
    Filed-pop i b j [] rest e f = cc
    Filed-pop zero b j ([] ∷ qs) rest e f = cc
    Filed-pop zero b j ((k ∷ q) ∷ qs) rest e ((f, g), fs) =
        let e₁ : k ≡ j = cc in
        let e₂ : q ∷ qs ≡ rest = cc in rw (← e₁, ← e₂) ((f.0, f.1 ∙ omega arith), (g, fs), refl)
    Filed-pop (suc i) b j (q ∷ qs) rest e (f, fs) =
        let (r, e₁, e₂) = behind-eq-some q (pop i qs) e in
        let (h, g, l) = Filed-pop i (suc b) j qs r e₁ fs in
        rw e₂ ((h.0, h.1 ∙ omega arith), (f, g), omega arith)

    pub Filed-empty : (b m : ℕ) → Filed b (empty_channels m) × (length (empty_channels m) ≡ m)
    Filed-empty b zero = (tt, refl)
    Filed-empty b (suc m) = let h = Filed-empty (suc b) m in ((tt, h.0), omega arith)

  pub length-push : (i : ℕ) (j : WriteJob) (qs : Channels) → length (push i j qs) ≡ length qs
  length-push i j [] = refl
  length-push zero j (q ∷ qs) = refl
  length-push (suc i) j (q ∷ qs) = omega (arith, length-push i j qs)

  pub drain-idle :
      (Fine : State → Type 0) (qs : Channels) (s : State)
      → is_idle qs ≡ true
      → drain save Fine qs s ≡ some s
  drain-idle Fine [] s h = refl
  drain-idle Fine ([] ∷ qs) s h = drain-idle Fine qs s h
  drain-idle Fine ((j ∷ q) ∷ qs) s h = cc
