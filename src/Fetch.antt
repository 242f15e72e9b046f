-- ===== src/Fetch.antt =====
-- pkgx.go: one file over HTTP, with another attempt after an answer that may be a hiccup.
pub mod Attempts
use Prim.Native.Nat.{zero, suc, ◌*◌}
use bottle.Common.{ℕ, ◌+◌, List, [], ◌∷◌, ◌&&◌, ◌||◌, not, Bool, true, false, Option, none, some}
use bottle.Common.Result.{Result, ok, err}
use bottle.Common.Tests.{leb, ◌==◌, if◌then◌else◌}
use bottle.Common.Text.{Bytes}

abbrev pub http_get_attempts : ℕ
http_get_attempts = 4

-- In nanoseconds.
abbrev pub http_retry_delay : ℕ
http_retry_delay = 250000000

-- `retriable`.
abbrev pub retriable : ℕ → Bool
retriable status = status == 429 || leb 500 status

-- What `HTTPClient.Get` answers with: an error, or a status with what reading the body gives.
pub data Response : Type 0 where
  unreached : (error : Bytes) → Response
  answer : (status : ℕ) → (body : Result Bytes Bytes) → Response

-- The error that `httpGet` returns: one of the transport or of the body, or an `httpStatusError`.
pub data GetError : Type 0 where
  transport : Bytes → GetError
  http_status : (url : Bytes) → (status : ℕ) → GetError

-- `isNotFound`.
abbrev pub is_not_found : GetError → Bool
is_not_found (transport e) = false
is_not_found (http_status url status) = status == 404

-- `httpGetOnce`: the body, the status and the error.
abbrev pub http_get_once : Response → Bytes × ℕ × Option Bytes
http_get_once (unreached e) = ([], 0, some e)
http_get_once (answer status (ok body)) =
    if status == 200 then (body, status, none) else ([], status, none)
http_get_once (answer status (err e)) =
    if status == 200 then ([], status, some e) else ([], status, none)

-- The `switch` of `httpGet`: it returns, or it goes on with this as `lastErr`.
pub data Turn : Type 0 where
  returns : Result GetError Bytes → Turn
  again : GetError → Turn

unfoldable pub take_turn : (url : Bytes) → Bytes × ℕ × Option Bytes → Turn
take_turn url (body, status, some e) = again (transport e)
take_turn url (body, status, none) =
    if status == 200
    then returns (ok body)
    else if retriable status
    then again (http_status url status)
    else returns (err (http_status url status))

-- What `httpGet` returns, how many requests it made and how long it slept. Without an attempt
-- `lastErr` is nil.
pub record Fetched : Type 0 where
  pub reply : Result (Option GetError) Bytes
  pub requests : ℕ
  pub slept : ℕ

abbrev pub reply_of : Result GetError Bytes → Result (Option GetError) Bytes
reply_of (ok body) = ok body
reply_of (err e) = err (some e)

-- The pause before an attempt.
abbrev pub pause : ℕ → ℕ
pause attempt = if attempt == 0 then 0 else attempt * http_retry_delay

module _ (get : ℕ → Response) (url : Bytes) where
  -- The loop, with `left` attempts left; `get` says what each request meets.
  unfoldable pub get_loop : (left attempt slept : ℕ) → (last_err : Option GetError) → Fetched
  get_loop zero attempt slept last_err = record {
    reply = err last_err;
    requests = attempt;
    slept = slept;
  }
  get_loop (suc left) attempt slept last_err = elim (take_turn url (http_get_once (get attempt))) [
    | returns r ↦ record {
      reply = reply_of r;
      requests = attempt + 1;
      slept = slept + pause attempt;
    }
    | again e ↦ get_loop left (attempt + 1) (slept + pause attempt) (some e)
  ]

  -- `httpGet`.
  unfoldable pub http_get : Fetched
  unfolding get_loop
  http_get = get_loop http_get_attempts 0 0 none
