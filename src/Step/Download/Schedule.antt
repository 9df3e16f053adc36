-- ===== src/Step/Download/Schedule.antt =====
-- How often a download asks, and how long it waits.
use kernelbuild_buildkit.Common.{
  ℕ, zero, suc, ◌+◌, ◌*◌, ◌≤◌, ◌==◌, leb, ltb, max, Bool, true, false, ◌&&◌, ◌||◌, ◌++◌, every, ◌≡◌,
  refl, arith, Option, none, some, Bytes, trim_space, length, if◌then◌else◌, Result, err,
  Bool-cases, inl, inr,
}
use kernelbuild_buildkit.Spec.Timestamp.{ℤ, pos, negsuc, parse_int}
use kernelbuild_buildkit.Step.Download.{
  DownloadError, Answer, broken, response, capped, parse_retry_after, Next, stop, again, bytes_of,
  copied, take_answer, Download, asked, waited, attempts, download, ended, follow, with_wait,
  cancelled,
}

capped_le : (o : Option ℤ) → capped o ≤ 30
capped_le none = omega arith
capped_le (some (pos n)) = ground arith
capped_le (some (negsuc n)) = omega arith

parse_retry_after_le : (v : Bytes) → parse_retry_after v ≤ 30
unfolding parse_retry_after
parse_retry_after_le v = ground (arith, capped_le (parse_int (trim_space v)))

-- The wait that the server asks for is bounded.
abbrev IsModest : Next → Type 0
IsModest (stop r p) = Unit
IsModest (again p after e) = after ≤ 30

copied-IsModest : (q : Bytes) (c : Bool) → IsModest (copied q c)
copied-IsModest q true = tt
copied-IsModest q false = omega arith

take_answer-IsModest : (part : Option Bytes) (a : Answer) → IsModest (take_answer part a)
unfolding take_answer
take_answer-IsModest part (broken true) = tt
take_answer-IsModest part (broken false) = omega arith
take_answer-IsModest part (response status after body c) = elim (Bool-cases (status == 200)) [
  | inl e ↦ rw e (copied-IsModest body c)
  | inr e ↦ elim (Bool-cases (status == 206)) [
    | inl f ↦ rw (e, f) (copied-IsModest (bytes_of part ++ body) c)
    | inr f ↦ elim (Bool-cases (status == 416 && ltb 0 (length (bytes_of part)))) [
      | inl g ↦ rw (e, f, g) (omega arith)
      | inr g ↦ elim (Bool-cases (status == 429 || leb 500 status)) [
        | inl k ↦ rw (e, f, g, k) (parse_retry_after_le after)
        | inr k ↦ rw (e, f, g, k) tt
      ]
    ]
  ]
]

-- At most `requests` requests and `pauses` waits, each of them of 30 seconds at most.
pub record Fits (requests pauses : ℕ) (d : Download) : Type 0 where
  pub few_requests : length d.offsets ≤ requests
  pub few_waits : length d.waits ≤ pauses
  pub short_waits : every (λ s. leb s 30) d.waits ≡ true

ended-Fits :
    (n k : ℕ) (r : Result DownloadError (Unit {0})) (p : Option Bytes) → Fits n k (ended r p)
ended-Fits n k r p = record {
  few_requests = omega arith;
  few_waits = omega arith;
  short_waits = refl;
}

with_wait-Fits :
    (n k attempt : ℕ) (cut : Bool) (wait : ℕ) (part : Option Bytes) (d : Download)
    → wait ≤ 30
    → Fits n k d
    → Fits n (suc k) (with_wait attempt cut wait part d)
with_wait-Fits n k attempt cut wait part d w f = elim (Bool-cases (ltb 1 attempt)) [
  | inl e ↦ rw e (by_cut cut)
  | inr e ↦ rw e (record {
    few_requests = f.few_requests;
    few_waits = let h = f.few_waits in omega arith;
    short_waits = f.short_waits;
  })
]
  where
    by_cut :
        (cut : Bool)
        → Fits n (suc k) (if cut then waited wait (ended (err cancelled) part) else waited wait d)
    by_cut true = record {
      few_requests = omega arith;
      few_waits = omega arith;
      short_waits = ground arith;
    }
    by_cut false = record {
      few_requests = f.few_requests;
      few_waits = let h = f.few_waits in omega arith;
      short_waits = let h = f.short_waits in ground arith;
    }

follow-Fits :
    (n k have : ℕ) (retry : Option Bytes → ℕ → DownloadError → Download) (x : Next)
    → ((p : Option Bytes) (after : ℕ) (e : DownloadError) → after ≤ 30 → Fits n k (retry p after e))
    → IsModest x
    → Fits (suc n) k (asked have (follow retry x))
follow-Fits n k have retry (stop r p) rec h = record {
  few_requests = omega arith;
  few_waits = omega arith;
  short_waits = refl;
}
follow-Fits n k have retry (again p after e) rec h =
    let f = rec p after e h in
    record {
      few_requests = let h = f.few_requests in omega arith;
      few_waits = f.few_waits;
      short_waits = f.short_waits;
    }

module _ (serve : ℕ → ℕ → Answer) (cut_short : ℕ → Bool) where
  attempts-Fits :
      (left attempt : ℕ) (part : Option Bytes) (after : ℕ) (last : DownloadError)
      → attempt + left ≤ 10
      → after ≤ 30
      → Fits left left (attempts serve cut_short left attempt part after last)
  unfolding attempts
  attempts-Fits zero attempt part after last b w = ended-Fits 0 0 _ part
  attempts-Fits (suc left) attempt part after last b w =
      let have = length (bytes_of part) in
      with_wait-Fits (suc left) left attempt (cut_short attempt) (max after (attempt * 2)) part _
        (ground arith)
        (follow-Fits left left have _ (take_answer part (serve attempt have))
          (λ q a e i. attempts-Fits left (suc attempt) q a e (omega arith) i)
          (take_answer-IsModest part (serve attempt have)))

  -- A download asks at most five times and waits at most four times, each time for at most 30 seconds,
  -- whatever the server answers and however long it asks to wait.
  pub download-Fits : Fits 5 4 (download serve cut_short)
  unfolding download attempts
  download-Fits =
      follow-Fits 4 4 0 _ (take_answer none (serve 1 0))
        (λ q a e i. attempts-Fits 4 2 q a e (omega arith) i) (take_answer-IsModest none (serve 1 0))
