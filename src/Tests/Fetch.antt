-- ===== src/Tests/Fetch.antt =====
-- A server that answers at the second attempt.
use Prim.Native.Nat.{zero, suc}
use bottle.Common.{ℕ, ◌≤◌, [], ◌⊎◌}
use bottle.Common.Result.{ok}
use bottle.Common.Text.{codes}
use bottle.Fetch.{Response, answer}
use bottle.Fetch.Attempts.{Settles, GivesUp, http_get-Settles}

abbrev busy_once : ℕ → Response
busy_once zero = answer 503 (ok [])
busy_once (suc n) = answer 200 (ok (codes "versions"))

http_get-Settles_example :
    ((k : ℕ) × (k ≤ 3) × Settles busy_once (codes "https://example.org") k)
    ⊎ GivesUp busy_once (codes "https://example.org")
http_get-Settles_example = http_get-Settles busy_once (codes "https://example.org")
