-- ===== src/Step/Download.antt =====
-- `download` (cmd/kbuild-step/main.go): the transfer of the tarball, resumed and retried. What the
-- server answers to each attempt is a parameter, and so is whether a wait is cut short.
pub mod Resume
pub mod Schedule
use kernelbuild_buildkit.Common.{
  ℕ, zero, suc, ◌+◌, ◌*◌, ◌==◌, leb, ltb, max, Bool, true, false, not, ◌&&◌, ◌||◌, List, [], ◌∷◌,
  ◌++◌, Option, none, some, Bytes, is_empty, trim_space, length, if◌then◌else◌, Result, ok, err,
}
use kernelbuild_buildkit.Spec.Timestamp.{ℤ, pos, negsuc, parse_int}

pub data DownloadError : Type 0 where
  -- a refusal of the client's own, or a name that does not exist: `isPermanent`
  permanent : DownloadError
  transient : DownloadError
  http_status : ℕ → DownloadError
  interrupted : DownloadError
  cancelled : DownloadError
  gave_up : DownloadError → DownloadError

-- What one request comes to: an error of the transport, permanent or not, or a response, with the
-- bytes of its body that arrived and whether they are all.
pub data Answer : Type 0 where
  broken : Bool → Answer
  response : ℕ → Bytes → Bytes → Bool → Answer

abbrev capped : Option ℤ → ℕ
capped none = 0
capped (some (pos n)) = if ltb 30 n then 30 else n
capped (some (negsuc n)) = 0

-- `parseRetryAfter`, in seconds.
unfoldable pub parse_retry_after : Bytes → ℕ
unfolding parse_int trim_space
parse_retry_after v = if is_empty v then 0 else capped (parse_int (trim_space v))

-- What an attempt leads to: an end, or another attempt with the part file, the server's wish for the
-- wait, and the error so far.
pub data Next : Type 0 where
  stop : Result DownloadError (Unit {0}) → Option Bytes → Next
  again : Option Bytes → ℕ → DownloadError → Next

abbrev pub bytes_of : Option Bytes → Bytes
bytes_of none = []
bytes_of (some b) = b

abbrev pub copied : Bytes → Bool → Next
copied file complete =
    if complete then stop (ok tt) (some file) else again (some file) 0 interrupted

-- The switch on the status, and the copy of the body.
unfoldable pub take_answer : Option Bytes → Answer → Next
unfolding parse_retry_after
take_answer part (broken is_permanent) =
    if is_permanent then stop (err permanent) part else again part 0 transient
take_answer part (response status retry_after body complete) =
    if status == 200
    then copied body complete
    else if status == 206
    then copied (bytes_of part ++ body) complete
    else if status == 416 && ltb 0 (length (bytes_of part))
    then again none 0 (http_status status)
    else if status == 429 || leb 500 status
    then again part (parse_retry_after retry_after) (http_status status)
    else stop (err (http_status status)) part

-- How a download ends, the part file it leaves, the waits and the offsets of its requests.
pub record Download : Type 0 where
  pub result : Result DownloadError (Unit {0})
  pub part : Option Bytes
  pub waits : List ℕ
  pub offsets : List ℕ

abbrev pub asked : ℕ → Download → Download
asked offset d = record d { offsets = offset ∷ d.offsets }

abbrev pub waited : ℕ → Download → Download
waited wait d = record d { waits = wait ∷ d.waits }

abbrev pub ended : Result DownloadError (Unit {0}) → Option Bytes → Download
ended r p = record { result = r; part = p; waits = []; offsets = [] }

-- The end of the round, or the next one.
abbrev pub follow : (Option Bytes → ℕ → DownloadError → Download) → Next → Download
follow retry (stop r p) = ended r p
follow retry (again p after e) = retry p after e

-- Every attempt but the first waits; a wait that is cut short ends the download.
abbrev pub with_wait : ℕ → Bool → ℕ → Option Bytes → Download → Download
with_wait attempt cut wait part request =
    if ltb 1 attempt
    then (if cut then waited wait (ended (err cancelled) part) else waited wait request)
    else request

module _ (serve : ℕ → ℕ → Answer) (cut_short : ℕ → Bool) where
  -- The loop: `left` attempts from the given one on.
  unfoldable pub attempts : ℕ → ℕ → Option Bytes → ℕ → DownloadError → Download
  unfolding take_answer
  attempts zero attempt part retry_after last = ended (err (gave_up last)) part
  attempts (suc left) attempt part retry_after last =
      let have = length (bytes_of part) in
      with_wait attempt (cut_short attempt) (max retry_after (attempt * 2)) part (
        asked have (
          follow (λ p after e. attempts left (suc attempt) p after e)
            (take_answer part (serve attempt have))))

  -- `download`: five attempts, starting clean.
  unfoldable pub download : Download
  unfolding attempts
  download = attempts 5 1 none 0 transient
