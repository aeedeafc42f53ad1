-- ===== src/Tests/Limits.antt =====
-- The theorems on the rate limiter, with a limit of two in sixty ticks.
use optimus_os.Base.{◌≤◌, ◌≡◌, refl, true, false, List, [], ◌∷◌, length, arith}
use optimus_os.RateLimit.{new_window, check, drop_old}
use optimus_os.RateLimit.Window.{Request, run, described, run-described, InOrder}
use optimus_os.RateLimit.Bound.{accepted_times, within, run-bounded}

abbrev requests : List Request
requests =
    record { time = 1; key = "a" }
    ∷ record { time = 5; key = "a" }
    ∷ record { time = 6; key = "b" }
    ∷ record { time = 7; key = "a" }
    ∷ record { time = 61; key = "a" }
    ∷ []

requests-InOrder : InOrder 0 requests
unfolding InOrder
requests-InOrder = (omega arith, (omega arith, (omega arith, (omega arith, (omega arith, tt)))))

-- The fourth request is the third of its key; at 61 the first one is out of the window.
run-requests : (run requests (new_window 2 60)).0 ≡ true ∷ true ∷ true ∷ false ∷ true ∷ []
unfolding run check drop_old
run-requests = refl

run-described_example : (run requests (new_window 2 60)).0 ≡ (described 2 60 requests (λ k. [])).0
run-described_example = run-described 2 60 requests (omega arith) requests-InOrder

run-bounded_example :
    length (within 60 7 (accepted_times "a" requests (run requests (new_window 2 60)).0)) ≤ 2
run-bounded_example = run-bounded 2 60 requests "a" 7 (omega arith) requests-InOrder
