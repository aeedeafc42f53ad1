-- ===== src/RateLimit/Bound.antt =====
-- What the limiter promises: no window of time holds more accepted requests of a key than the limit.
use optimus_os.Base.{
  ℕ, ◌+◌, ◌≤◌, ◌<◌, ◌≡◌, refl, ◌∙◌, sym, ap, String, Bool, true, List, [], ◌∷◌, ◌++◌, ltb, leb,
  length, filter, arith, if◌then◌else◌, ◌&&◌, Bool-cases, inl, inr,
}
use mathlib.Core.Path.{subst}
use mathlib.Core.List.{append-nil, append_assoc}
use optimus_os.RateLimit.{new_window, put, same_key}
use optimus_os.RateLimit.Window.{
  Request, run, recent, Logs, admits, described, InOrder, run-described, same_key-eq,
}

-- The times of the accepted requests of a key, from the requests and the answers.
abbrev pub accepted_times : String → List Request → List Bool → List ℕ
accepted_times key [] answers = []
accepted_times key (r ∷ rs) [] = []
accepted_times key (r ∷ rs) (b ∷ bs) =
    let rest = accepted_times key rs bs in if b && same_key key r.key then r.time ∷ rest else rest

-- Those of them after `until - window` and up to `until`.
abbrev pub within : ℕ → ℕ → List ℕ → List ℕ
within window until times = filter (λ e. ltb until (e + window) && leb e until) times

within-append :
    (window until now : ℕ) (log : List ℕ)
    → length (within window until (log ++ now ∷ []))
      ≡ length (within window until log) + length (within window until (now ∷ []))
within-append window until now [] = omega arith
within-append window until now (e ∷ log) = ground (arith, within-append window until now log)

-- What is in a later window of old events is in the window now.
within_recent :
    (window until now : ℕ) (log : List ℕ)
    → now ≤ until
    → length (within window until log) ≤ length (recent window now log)
within_recent window until now [] h = omega arith
within_recent window until now (e ∷ log) h = ground (arith, within_recent window until now log h, h)

abbrev Bounded : ℕ → ℕ → List ℕ → Type 0
Bounded limit window log = (until : ℕ) → length (within window until log) ≤ limit

add-Bounded :
    (limit window now : ℕ) (log : List ℕ)
    → Bounded limit window log
    → ltb (length (recent window now log)) limit ≡ true
    → Bounded limit window (log ++ now ∷ [])
add-Bounded limit window now log bounded room until = elim (Bool-cases (leb now until)) [
  | inl e ↦
      let late : now ≤ until = ground (arith, e) in
      ground (
        arith,
        within-append window until now log,
        within_recent window until now log late,
        room,
        e,
      )
  | inr e ↦ ground (arith, within-append window until now log, bounded until, e)
]

-- The logs of the description hold what was accepted, and are bounded.
described-logs :
    (limit window : ℕ) (requests : List Request) (logs : Logs) (key : String)
    → (described limit window requests logs).1 key
      ≡ logs key ++ accepted_times key requests (described limit window requests logs).0
unfolding described
described-logs limit window [] logs key = sym (append-nil (logs key))
described-logs limit window (r ∷ rs) logs key = elim (Bool-cases (admits limit window r logs)) [
  | inl e ↦
      let after : Logs = put r.key (logs r.key ++ r.time ∷ []) logs in
      let rest = described-logs limit window rs after key in
      let more : List ℕ = accepted_times key rs (described limit window rs after).0 in
      elim (Bool-cases (same_key key r.key)) [
        | inl s ↦
            let same : key ≡ r.key = same_key-eq key r.key s in
            rw (e, s)
              (rest
                ∙ rw s (
                    append_assoc (logs r.key) (r.time ∷ []) more
                    ∙ ap (λ k. logs k ++ r.time ∷ more) (sym same)))
        | inr s ↦ rw (e, s) (rest ∙ rw s refl)
      ]
  | inr e ↦ rw e (described-logs limit window rs logs key)
]

described-Bounded :
    (limit window : ℕ) (requests : List Request) (logs : Logs) (key : String)
    → ((k : String) → Bounded limit window (logs k))
    → Bounded limit window ((described limit window requests logs).1 key)
unfolding described
described-Bounded limit window [] logs key bounded = bounded key
described-Bounded limit window (r ∷ rs) logs key bounded =
    elim (Bool-cases (admits limit window r logs)) [
      | inl e ↦ rw e (
          described-Bounded limit window rs (put r.key (logs r.key ++ r.time ∷ []) logs) key (λ k.
            elim (Bool-cases (same_key k r.key)) [
              | inl s ↦ rw s (add-Bounded limit window r.time (logs r.key) (bounded r.key) e)
              | inr s ↦ rw s (bounded k)
            ]))
      | inr e ↦ rw e (described-Bounded limit window rs logs key bounded)
    ]

-- Whatever is asked of a new limiter, of any keys and at times that do not go back: of each key, in
-- each window of time, at most the limit of requests was accepted. The window is asked to be
-- positive.
pub run-bounded :
    (limit window : ℕ) (requests : List Request) (key : String) (until : ℕ)
    → 0 < window
    → InOrder 0 requests
    → length (
        within window until
          (accepted_times key requests (run requests (new_window limit window)).0))
      ≤ limit
run-bounded limit window requests key until positive ordered =
    rw (run-described limit window requests positive ordered) (
      subst (λ log. length (within window until log) ≤ limit)
        (described-logs limit window requests (λ k. []) key)
        (described-Bounded limit window requests (λ k. []) key (λ k u. omega arith) until))
