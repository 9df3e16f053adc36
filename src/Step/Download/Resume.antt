-- ===== src/Step/Download/Resume.antt =====
-- A resumed transfer gives the whole file.
use kernelbuild_buildkit.Common.{
  ℕ, zero, suc, ◌*◌, ◌==◌, ==_iff, leb, ltb, max, Bool, true, false, ◌&&◌, ◌||◌, [], ◌++◌,
  append-nil, append_assoc, ◌≡◌, refl, sym, ap, ◌∙◌, Option, none, some, Bytes, length,
  if◌then◌else◌, ok, err, Bool-cases, inl, inr,
}
use mathlib.Core.Path.{subst}
use kernelbuild_buildkit.Step.Download.{
  DownloadError, Answer, broken, response, Next, stop, again, bytes_of, copied, take_answer,
  Download, asked, waited, attempts, download, ended, follow, with_wait, cancelled, transient,
}

abbrev IsPrefix : Bytes → Bytes → Type 0
IsPrefix file p = (r : Bytes) × (file ≡ p ++ r)

-- The bytes that arrived begin what was asked for, and are all of it if the body came to its end.
abbrev pub Begins : Bytes → Bytes → Bool → Type 0
Begins asked body complete = (r : Bytes) × ((asked ≡ body ++ r) × (complete ≡ true → r ≡ []))

-- A server of one file: a 200 has the file from its first byte, a 206 what follows the bytes that the
-- client has, if these are the first of the file.
pub record IsFaithful (file : Bytes) (serve : ℕ → ℕ → Answer) : Type 0 where
  pub from_start :
      (attempt have : ℕ) (after body : Bytes) (complete : Bool)
      → serve attempt have ≡ response 200 after body complete
      → Begins file body complete
  pub from_offset :
      (attempt : ℕ) (first rest after body : Bytes) (complete : Bool)
      → file ≡ first ++ rest
      → serve attempt (length first) ≡ response 206 after body complete
      → Begins rest body complete

module _ (file : Bytes) where
  abbrev IsSound : Next → Type 0
  IsSound (stop (ok u) p) = p ≡ some file
  IsSound (stop (err e) p) = Unit
  IsSound (again p after e) = IsPrefix file (bytes_of p)

  copied-IsSound : (q : Bytes) (c : Bool) → Begins file q c → IsSound (copied q c)
  copied-IsSound q true (r, (e, h)) = ap some (sym (e ∙ (ap (λ x. q ++ x) (h refl) ∙ append-nil q)))
  copied-IsSound q false (r, (e, h)) = (r, e)

  module _ (serve : ℕ → ℕ → Answer) (faithful : IsFaithful file serve) where
    appended :
        (attempt : ℕ) (p after body : Bytes) (c : Bool)
        → IsPrefix file p
        → serve attempt (length p) ≡ response 206 after body c
        → Begins file (p ++ body) c
    appended attempt p after body c (r, e) h =
        let (s, (f, k)) = faithful.from_offset attempt p r after body c e h in
        (s, (e ∙ (ap (λ x. p ++ x) f ∙ sym (append_assoc p body s)), k))

    response-IsSound :
        (attempt status : ℕ) (part : Option Bytes) (after body : Bytes) (c : Bool)
        → IsPrefix file (bytes_of part)
        → serve attempt (length (bytes_of part)) ≡ response status after body c
        → IsSound (take_answer part (response status after body c))
    unfolding take_answer
    response-IsSound attempt status part after body c p h = elim (Bool-cases (status == 200)) [
      | inl e ↦
          let full =
            subst (λ n. serve attempt (length (bytes_of part)) ≡ response n after body c)
              ((==_iff status 200).0 e) h in
          rw e (
            copied-IsSound body c
              (faithful.from_start attempt (length (bytes_of part)) after body c full))
      | inr e ↦ elim (Bool-cases (status == 206)) [
        | inl f ↦
            let rest =
              subst (λ n. serve attempt (length (bytes_of part)) ≡ response n after body c)
                ((==_iff status 206).0 f) h in
            rw (e, f)
              (copied-IsSound (bytes_of part ++ body) c
                (appended attempt (bytes_of part) after body c p rest))
        | inr f ↦ elim (Bool-cases (status == 416 && ltb 0 (length (bytes_of part)))) [
          | inl g ↦ rw (e, f, g) (file, refl)
          | inr g ↦ elim (Bool-cases (status == 429 || leb 500 status)) [
            | inl k ↦ rw (e, f, g, k) p
            | inr k ↦ rw (e, f, g, k) tt
          ]
        ]
      ]
    ]

    answer-IsSound :
        (attempt : ℕ) (part : Option Bytes) (a : Answer)
        → IsPrefix file (bytes_of part)
        → serve attempt (length (bytes_of part)) ≡ a
        → IsSound (take_answer part a)
    unfolding take_answer
    answer-IsSound attempt part (broken true) p h = tt
    answer-IsSound attempt part (broken false) p h = p
    answer-IsSound attempt part (response status after body c) p h =
        response-IsSound attempt status part after body c p h

    abbrev IsWhole : Download → Type 0
    IsWhole d = d.result ≡ ok tt → d.part ≡ some file

    with_wait-IsWhole :
        (attempt : ℕ) (cut : Bool) (wait : ℕ) (part : Option Bytes) (d : Download)
        → IsWhole d
        → IsWhole (with_wait attempt cut wait part d)
    with_wait-IsWhole attempt cut wait part d h = elim (Bool-cases (ltb 1 attempt)) [
      | inl e ↦ rw e (by_cut cut)
      | inr e ↦ rw e h
    ]
      where
        by_cut :
            (cut : Bool)
            → IsWhole (if cut then waited wait (ended (err cancelled) part) else waited wait d)
        by_cut true k = cc
        by_cut false k = h k

    follow-IsWhole :
        (retry : Option Bytes → ℕ → DownloadError → Download) (n : Next)
        → ((p : Option Bytes) (after : ℕ) (e : DownloadError)
            → IsPrefix file (bytes_of p)
            → IsWhole (retry p after e))
        → IsSound n
        → IsWhole (follow retry n)
    follow-IsWhole retry (stop (ok u) p) rec h k = h
    follow-IsWhole retry (stop (err e) p) rec h k = cc
    follow-IsWhole retry (again p after e) rec h k = rec p after e h k

    attempts-IsWhole :
        (cut_short : ℕ → Bool) (left attempt : ℕ) (part : Option Bytes) (after : ℕ)
        (last : DownloadError)
        → IsPrefix file (bytes_of part)
        → IsWhole (attempts serve cut_short left attempt part after last)
    unfolding attempts
    attempts-IsWhole cut_short zero attempt part after last p = λ h. cc
    attempts-IsWhole cut_short (suc left) attempt part after last p =
        let have = length (bytes_of part) in
        with_wait-IsWhole attempt (cut_short attempt) (max after (attempt * 2)) part _ (
          follow-IsWhole _ (take_answer part (serve attempt have))
            (λ q a e i. attempts-IsWhole cut_short left (suc attempt) q a e i)
            (answer-IsSound attempt part (serve attempt have) p refl))

-- A download that succeeds leaves exactly the file that the server has, however often it was
-- interrupted, resumed and restarted. The server is faithful: a 200 carries the file from its start,
-- a 206 what follows the bytes that the client holds.
pub download-whole :
    (file : Bytes) (serve : ℕ → ℕ → Answer) (cut_short : ℕ → Bool)
    → IsFaithful file serve
    → (download serve cut_short).result ≡ ok tt
    → (download serve cut_short).part ≡ some file
unfolding download
download-whole file serve cut_short faithful h =
    attempts-IsWhole file serve faithful cut_short 5 1 none 0 transient (file, refl) h
