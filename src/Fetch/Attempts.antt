-- ===== src/Fetch/Attempts.antt =====
-- pkgx.go: which attempt of `httpGet` settles it.
use Prim.Native.Nat.{zero, suc, ◌*◌}
use bottle.Common.{
  ℕ, ◌+◌, ◌≤◌, ◌≡◌, ◌⊎◌, inl, inr, refl, ◌∙◌, ◌&&◌, ◌||◌, not, Bool, true, false, Option, none,
  some, arith,
}
use bottle.Common.Result.{Result, ok, err}
use bottle.Common.Tests.{Bool-cases, ◌==◌, if◌then◌else◌}
use bottle.Common.Text.{Bytes}
use bottle.Fetch.{
  Response, unreached, answer, GetError, returns, again, http_get_once, http_retry_delay, retriable,
  take_turn, pause, reply_of, get_loop, http_get,
}

-- A request that is worth another: it is not answered, its body breaks off, or its status says that
-- the trouble may pass.
abbrev pub is_transient : Response → Bool
is_transient (unreached e) = true
is_transient (answer status (ok body)) = not (status == 200) && retriable status
is_transient (answer status (err e)) = status == 200 || retriable status

-- What an answer that is not transient comes to.
abbrev pub settled : Bytes → Response → Result (Option GetError) Bytes
settled url (unreached e) = err none
settled url (answer status body) =
    if status == 200
    then elim body [ ok text ↦ ok text | err e ↦ err none ]
    else err (some (GetError.http_status url status))

-- The error that is kept of a transient one.
abbrev pub kept : Bytes → Response → GetError
kept url (unreached e) = GetError.transport e
kept url (answer status (ok body)) = GetError.http_status url status
kept url (answer status (err e)) =
    if status == 200 then GetError.transport e else GetError.http_status url status

take_turn-again :
    (url : Bytes) (r : Response)
    → is_transient r ≡ true
    → take_turn url (http_get_once r) ≡ again (kept url r)
unfolding take_turn
take_turn-again url (unreached e) h = refl
take_turn-again url (answer status (ok body)) h = ground arith
take_turn-again url (answer status (err e)) h = ground arith

take_turn-returns :
    (url : Bytes) (r : Response)
    → is_transient r ≡ false
    → (v : Result GetError Bytes) × (take_turn url (http_get_once r) ≡ returns v)
      × (reply_of v ≡ settled url r)
unfolding take_turn
take_turn-returns url (unreached e) h = absurd cc
take_turn-returns url (answer status (ok body)) h = elim (Bool-cases (status == 200)) [
  | inl good ↦ (ok body, ground arith, ground arith)
  | inr bad ↦ (err (GetError.http_status url status), ground arith, ground arith)
]
take_turn-returns url (answer status (err e)) h =
    (err (GetError.http_status url status), ground arith, ground arith)

-- The pauses before the attempts from `attempt` on, `more` of them and one.
abbrev pub pauses : (attempt more : ℕ) → ℕ
pauses attempt zero = pause attempt
pauses attempt (suc more) = pause attempt + pauses (attempt + 1) more

module _ (get : ℕ → Response) (url : Bytes) where
  loop_returns :
      (left attempt slept : ℕ) (last_err : Option GetError)
      → is_transient (get attempt) ≡ false
      → get_loop get url (suc left) attempt slept last_err ≡ record {
        reply = settled url (get attempt);
        requests = attempt + 1;
        slept = slept + pause attempt;
      }
  unfolding get_loop
  loop_returns left attempt slept last_err h =
      let (v, turn, same) = take_turn-returns url (get attempt) h in ground arith

  loop_again :
      (left attempt slept : ℕ) (last_err : Option GetError)
      → is_transient (get attempt) ≡ true
      → get_loop get url (suc left) attempt slept last_err
        ≡ get_loop get url left
            (attempt + 1)
            (slept + pause attempt)
            (some (kept url (get attempt)))
  unfolding get_loop
  loop_again left attempt slept last_err h =
      let turn = take_turn-again url (get attempt) h in ground arith

  loop_end :
      (attempt slept : ℕ) (last_err : Option GetError)
      → get_loop get url zero attempt slept last_err
        ≡ record { reply = err last_err; requests = attempt; slept = slept }
  unfolding get_loop
  loop_end attempt slept last_err = refl

  -- The first requests are transient.
  abbrev pub AreTransient : ℕ → Type 0
  AreTransient zero = Unit
  AreTransient (suc n) = AreTransient n × (is_transient (get n) ≡ true)

  -- Request `k` settles it, and it is the first that does.
  abbrev pub Settles : ℕ → Type 0
  Settles k =
      AreTransient k
      × (is_transient (get k) ≡ false)
      × (http_get get url
          ≡ record { reply = settled url (get k); requests = k + 1; slept = pauses 0 k })

  -- No request settles it.
  abbrev pub GivesUp : Type 0
  GivesUp =
      AreTransient 4
      × (http_get get url ≡ record {
        reply = err (some (kept url (get 3)));
        requests = 4;
        slept = 6 * http_retry_delay;
      })

  third :
      (t : AreTransient 2)
      → http_get get url ≡ get_loop get url 2 2 http_retry_delay (some (kept url (get 1)))
  unfolding http_get
  third ((_, t0), t1) = loop_again 3 0 0 none t0 ∙ loop_again 2 1 0 (some (kept url (get 0))) t1

  fourth :
      (t : AreTransient 3)
      → http_get get url ≡ get_loop get url 1 3 (3 * http_retry_delay) (some (kept url (get 2)))
  fourth (t, t2) = third t ∙ loop_again 1 2 http_retry_delay (some (kept url (get 1))) t2

  -- Whatever the server does, `httpGet` ends after four requests at most, and one of two things holds.
  -- One request is the first that is not transient: `httpGet` returns what it comes to, the body of a 200
  -- or the error of its status, with one request more than there were transient ones, after the pauses
  -- that stand between them. Or all four are transient, and it returns the error of the last.
  pub http_get-Settles : ((k : ℕ) × (k ≤ 3) × Settles k) ⊎ GivesUp
  unfolding http_get
  http_get-Settles = elim (Bool-cases (is_transient (get 0))) [
    | inr f0 ↦ inl (0, (omega arith), (tt, f0, loop_returns 3 0 0 none f0))
    | inl t0 ↦ elim (Bool-cases (is_transient (get 1))) [
      | inr f1 ↦ inl (
        1,
        (omega arith),
        ((tt, t0), f1, loop_again 3 0 0 none t0 ∙ loop_returns 2 1 0 (some (kept url (get 0))) f1),
      )
      | inl t1 ↦ elim (Bool-cases (is_transient (get 2))) [
        | inr f2 ↦ inl (
          2,
          (omega arith),
          (
            ((tt, t0), t1),
            f2,
            third ((tt, t0), t1) ∙ loop_returns 1 2 http_retry_delay (some (kept url (get 1))) f2,
          ),
        )
        | inl t2 ↦ elim (Bool-cases (is_transient (get 3))) [
          | inr f3 ↦ inl (
            3,
            (omega arith),
            (
              (((tt, t0), t1), t2),
              f3,
              fourth (((tt, t0), t1), t2)
                  ∙ loop_returns 0 3 (3 * http_retry_delay) (some (kept url (get 2))) f3,
            ),
          )
          | inl t3 ↦ inr (
            ((((tt, t0), t1), t2), t3),
            fourth (((tt, t0), t1), t2)
                ∙ loop_again 0 3 (3 * http_retry_delay) (some (kept url (get 2))) t3
                ∙ loop_end 4 (6 * http_retry_delay) (some (kept url (get 3))),
          )
        ]
      ]
    ]
  ]
