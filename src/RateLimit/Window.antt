-- ===== src/RateLimit/Window.antt =====
-- The limiter against its description: a log of all accepted requests of each key, where a request
-- is accepted when fewer than `limit` of its key were accepted within the window.
use optimus_os.Base.{
  ℕ, ◌+◌, ◌≤◌, ◌<◌, ◌≡◌, refl, ◌∙◌, sym, ap, String, Bool, true, false, List, [], ◌∷◌, ◌++◌, ltb,
  leb, length, filter, arith, if◌then◌else◌, All, All-append, Bool-cases, inl, inr,
}
use Prim.Native.Nat.{Ordering}
use Prim.Native.String.{compare}
use mathlib.Core.Path.{subst}
use text.Mathlib.TextEquality.{path_by_compare}
use optimus_os.Base.Result.{Result, ok, err}
use optimus_os.RateLimit.{SlidingWindow, new_window, drop_old, put, check, same_key}

-- One request: its time and its key.
pub record Request : Type 0 where
  pub time : ℕ
  pub key : String

abbrev accepted : {A : Type 0} {E : Type 0} → Result E A → Bool
accepted (ok a) = true
accepted (err e) = false

-- The answers of the limiter to a sequence of requests, and its state after them.
unfoldable pub run : List Request → SlidingWindow → List Bool × SlidingWindow
run [] l = ([], l)
run (r ∷ rs) l =
    let step = check r.time r.key l in
    let rest = run rs step.1 in (accepted step.0 ∷ rest.0, rest.1)

-- The accepted times of a key that are still in the window.
abbrev pub recent : ℕ → ℕ → List ℕ → List ℕ
recent window now log = filter (λ e. ltb now (e + window)) log

abbrev pub Logs : Type 0
Logs = String → List ℕ

abbrev pub admits : ℕ → ℕ → Request → Logs → Bool
admits limit window r logs = ltb (length (recent window r.time (logs r.key))) limit

-- The description: nothing is ever forgotten.
unfoldable pub described : ℕ → ℕ → List Request → Logs → List Bool × Logs
described limit window [] logs = ([], logs)
described limit window (r ∷ rs) logs =
    let admitted = admits limit window r logs in
    let rest =
      described limit window rs
        (if admitted then put r.key (logs r.key ++ r.time ∷ []) logs else logs) in
    (admitted ∷ rest.0, rest.1)

-- Times do not go back.
unfoldable pub InOrder : ℕ → List Request → Type 0
InOrder last [] = Unit
InOrder last (r ∷ rs) = (last ≤ r.time) × InOrder r.time rs

-- A log is in order, and not of the future.
pub Sorted : List ℕ → ℕ → Type 0
Sorted [] now = Unit
Sorted (e ∷ es) now = (e ≤ now) × All (λ f. e ≤ f) es × Sorted es now

recent_self :
    (window e now : ℕ) (es : List ℕ)
    → All (λ f. e ≤ f) es
    → ltb now (e + window) ≡ true
    → recent window now es ≡ es
recent_self window e now [] h k = refl
recent_self window e now (f ∷ es) h k = ground (arith, recent_self window e now es h.1 k, h.0, k)

-- Of what was kept at an earlier time, the loop keeps what is in the window now.
drop_old-recent :
    (window before now bound : ℕ) (log : List ℕ)
    → before ≤ now
    → Sorted log bound
    → drop_old window now (recent window before log) ≡ recent window now log
unfolding drop_old Sorted
drop_old-recent window before now bound [] h s = refl
drop_old-recent window before now bound (e ∷ es) h s =
    let rest = drop_old-recent window before now bound es h s.2 in
    elim (Bool-cases (ltb now (e + window))) [
      | inl k ↦
          let was : ltb before (e + window) ≡ true = ground (arith, h, k) in
          let fresh : leb (e + window) now ≡ false = ground (arith, k) in
          rw (was, k, fresh)
            (ap (λ l. e ∷ l)
              (recent_self window e before es s.1 was ∙ sym (recent_self window e now es s.1 k)))
      | inr k ↦
          let old : leb (e + window) now ≡ true = ground (arith, k) in
          elim (Bool-cases (ltb before (e + window))) [
            | inl was ↦ rw (was, k, old) rest
            | inr gone ↦ rw (gone, k) rest
          ]
    ]

Sorted-later : (log : List ℕ) (before now : ℕ) → before ≤ now → Sorted log before → Sorted log now
unfolding Sorted
Sorted-later [] before now h s = tt
Sorted-later (e ∷ es) before now h s =
    (omega (arith, h, s.0), s.1, Sorted-later es before now h s.2)

Sorted-append :
    (log : List ℕ) (before now : ℕ)
    → before ≤ now
    → Sorted log before
    → Sorted (log ++ now ∷ []) now
unfolding Sorted
Sorted-append [] before now h s = (omega arith, tt, tt)
Sorted-append (e ∷ es) before now h s = (
  omega (arith, h, s.0),
  All-append (λ f. e ≤ f) es (now ∷ []) s.1 (omega (arith, h, s.0), tt),
  Sorted-append es before now h s.2,
)

recent-append :
    (window now : ℕ) (log : List ℕ)
    → 0 < window
    → recent window now (log ++ now ∷ []) ≡ recent window now log ++ now ∷ []
recent-append window now [] h = ground (arith, h)
recent-append window now (e ∷ log) h = ground (arith, recent-append window now log h)

-- The events of a key are what was in the window of its log at some time up to now.
pub record Follows (window now : ℕ) (events log : List ℕ) : Type 0 where
  pub before : ℕ
  pub past : before ≤ now
  pub kept : events ≡ recent window before log
  pub sorted : Sorted log now

check-Follows :
    (window limit last : ℕ) (r : Request) (events log : List ℕ)
    → 0 < window
    → last ≤ r.time
    → Follows window last events log
    → (drop_old window r.time events ≡ recent window r.time log)
      × Follows window r.time (drop_old window r.time events) log
      × Follows window r.time (drop_old window r.time events ++ r.time ∷ []) (log ++ r.time ∷ [])
check-Follows window limit last r events log positive later f =
    let same : drop_old window r.time events ≡ recent window r.time log =
      rw f.kept
        (drop_old-recent window f.before r.time last log (omega (arith, f.past, later)) f.sorted) in
    (
      same,
      record {
        before = r.time;
        past = omega arith;
        kept = same;
        sorted = Sorted-later log last r.time later f.sorted;
      },
      record {
        before = r.time;
        past = omega arith;
        kept = rw same (sym (recent-append window r.time log positive));
        sorted = Sorted-append log last r.time later f.sorted;
      },
    )

keep-Follows :
    (window last now : ℕ) (events log : List ℕ)
    → last ≤ now
    → Follows window last events log
    → Follows window now events log
keep-Follows window last now events log later f = record {
  before = f.before;
  past = omega (arith, f.past, later);
  kept = f.kept;
  sorted = Sorted-later log last now later f.sorted;
}

is_eq-eq : (o : Ordering) → elim o [ Ordering.eq ↦ true | _ ↦ false ] ≡ true → o ≡ Ordering.eq
is_eq-eq Ordering.lt h = cc
is_eq-eq Ordering.eq h = refl
is_eq-eq Ordering.gt h = cc

pub same_key-eq : (a b : String) → same_key a b ≡ true → a ≡ b
same_key-eq a b h = path_by_compare a b (is_eq-eq (compare a b) h)

-- The logs after a request.
abbrev next_logs : ℕ → ℕ → Request → Logs → Logs
next_logs limit window r logs =
    if admits limit window r logs then put r.key (logs r.key ++ r.time ∷ []) logs else logs

check-answer :
    (last : ℕ) (r : Request) (l : SlidingWindow) (logs : Logs)
    → 0 < l.window
    → last ≤ r.time
    → ((k : String) → Follows l.window last (l.events k) (logs k))
    → (accepted (check r.time r.key l).0 ≡ admits l.limit l.window r logs)
      × ((check r.time r.key l).1.limit ≡ l.limit)
      × ((check r.time r.key l).1.window ≡ l.window)
      × ((k : String)
          → Follows l.window r.time
              ((check r.time r.key l).1.events k)
              (next_logs l.limit l.window r logs k))
unfolding check
check-answer last r l logs positive later f =
    let (same, dropped, added) =
      check-Follows l.window l.limit last r (l.events r.key) (logs r.key) positive later
        (f r.key) in
    elim (Bool-cases (leb l.limit (length (drop_old l.window r.time (l.events r.key))))) [
      | inl full ↦
          let refused : admits l.limit l.window r logs ≡ false = ground (arith, full, same) in
          rw (full, refused)
            (
              refl,
              refl,
              refl,
              λ k. elim (Bool-cases (same_key k r.key)) [
                | inl e ↦ rw e (
                    subst
                      (λ j.
                        Follows l.window r.time (drop_old l.window r.time (l.events r.key))
                          (logs j))
                      (sym (same_key-eq k r.key e)) dropped)
                | inr e ↦ rw e (keep-Follows l.window last r.time (l.events k) (logs k) later (f k))
              ],
            )
      | inr room ↦
          let let_in : admits l.limit l.window r logs ≡ true = ground (arith, room, same) in
          rw (room, let_in)
            (
              refl,
              refl,
              refl,
              λ k. elim (Bool-cases (same_key k r.key)) [
                | inl e ↦ rw e added
                | inr e ↦ rw e (keep-Follows l.window last r.time (l.events k) (logs k) later (f k))
              ],
            )
    ]

run-described_from :
    (last : ℕ) (requests : List Request) (l : SlidingWindow) (logs : Logs)
    → 0 < l.window
    → InOrder last requests
    → ((k : String) → Follows l.window last (l.events k) (logs k))
    → (run requests l).0 ≡ (described l.limit l.window requests logs).0
unfolding run described InOrder
run-described_from last [] l logs positive ordered f = refl
run-described_from last (r ∷ rs) l logs positive ordered f =
    let (answer, same_limit, same_window, follows) =
      check-answer last r l logs positive ordered.0 f in
    let l' : SlidingWindow = (check r.time r.key l).1 in
    let rest =
      run-described_from r.time rs l' (next_logs l.limit l.window r logs) (rw same_window positive)
        ordered.1 (λ k. rw same_window (follows k)) in
    rw (answer, rest, same_limit, same_window) refl

Follows-none : (window : ℕ) → Follows window 0 [] []
unfolding Sorted
Follows-none window = record { before = 0; past = omega arith; kept = refl; sorted = tt }

-- To every sequence of requests, of any keys and with times that do not go back, a new limiter with
-- a positive window answers as the description that forgets nothing: a request is accepted exactly
-- when fewer than the limit of its key were accepted within the window.
pub run-described :
    (limit window : ℕ) (requests : List Request)
    → 0 < window
    → InOrder 0 requests
    → (run requests (new_window limit window)).0 ≡ (described limit window requests (λ k. [])).0
run-described limit window requests positive ordered =
    run-described_from 0 requests (new_window limit window) (λ k. []) positive ordered
      (λ k. Follows-none window)
