-- ===== src/RateLimit.antt =====
-- app/rate_limit.py: the sliding window in the process, the one on Redis with its fallback, and the
-- registry. A time is a number of ticks of the clock; `events[0] <= now - window` is written
-- without the subtraction. What Redis answers is an argument.
pub mod Window
pub mod Bound
use optimus_os.Base.{
  ℕ, ◌+◌, ◌≡◌, refl, String, Bool, true, false, List, [], ◌∷◌, ◌++◌, Option, none, some, ltb, leb,
  length, if◌then◌else◌, ◌==◌, ◌&&◌,
}
use optimus_os.Base.Result.{ok, err}
use optimus_os.Errors.{Outcome, rate_limit_exceeded}
use Prim.Native.Nat.{Ordering}
use Prim.Native.String.{compare}

abbrev pub same_key : String → String → Bool
same_key a b = elim (compare a b) [ Ordering.eq ↦ true | _ ↦ false ]

-- `SlidingWindowRateLimiter`; a key that was never seen has no events.
pub record SlidingWindow : Type 0 where
  pub limit : ℕ
  pub window : ℕ
  pub events : String → List ℕ

abbrev pub new_window : ℕ → ℕ → SlidingWindow
new_window limit window = record { limit = limit; window = window; events = λ k. [] }

-- `while events and events[0] <= cutoff: events.popleft()`
unfoldable pub drop_old : ℕ → ℕ → List ℕ → List ℕ
drop_old window now [] = []
drop_old window now (e ∷ es) =
    let rest = drop_old window now es in if leb (e + window) now then rest else e ∷ es

abbrev pub put : String → List ℕ → (String → List ℕ) → String → List ℕ
put k es events j = if same_key j k then es else events j

-- `SlidingWindowRateLimiter.check`. The old events are gone also when it raises.
unfoldable pub check : ℕ → String → SlidingWindow → Outcome (Unit {0}) × SlidingWindow
check now key l =
    let kept : List ℕ = drop_old l.window now (l.events key) in
    if leb l.limit (length kept)
    then (err rate_limit_exceeded, record l { events = put key kept l.events })
    else (ok tt, record l { events = put key (kept ++ now ∷ []) l.events })

-- `RedisSlidingWindowRateLimiter`, but for the client.
pub record RedisWindow : Type 0 where
  pub limit : ℕ
  pub window : ℕ
  pub fallback : SlidingWindow

abbrev pub new_redis : ℕ → ℕ → RedisWindow
new_redis limit window = record {
  limit = limit;
  window = window;
  fallback = new_window limit window;
}

-- `RedisSlidingWindowRateLimiter.check`: `count` is what the pipeline counted with this request in
-- it, `none` when Redis raised. The last component says whether the member is removed again.
unfoldable pub check_redis :
    Option ℕ → ℕ → String → RedisWindow → Outcome (Unit {0}) × RedisWindow × Bool
check_redis none now key r =
    let done : Outcome (Unit {0}) × SlidingWindow = check now key r.fallback in
    (done.0, record r { fallback = done.1 }, false)
check_redis (some count) now key r =
    if ltb r.limit count then (err rate_limit_exceeded, r, true) else (ok tt, r, false)

-- `RateLimiterRegistry`: a limiter and the URL it was built with, for each name.
pub record Registry : Type 0 where
  pub limiters : String → Option (RedisWindow × String)

-- `RateLimiterRegistry.get`, the limiter and the registry after it.
unfoldable pub registry_get : String → String → ℕ → ℕ → Registry → RedisWindow × Registry
registry_get name redis_url limit window g =
    let fresh : RedisWindow = new_redis limit window in
    let built : RedisWindow × Registry = (
      fresh,
      record g {
        limiters = λ n. if same_key n name then some (fresh, redis_url) else g.limiters n;
      },
    ) in
    elim (g.limiters name) [
      | none ↦ built
      | some (r, url) ↦ if r.limit == limit && same_key url redis_url then (r, g) else built
    ]

-- `RateLimiterRegistry.clear`
abbrev pub registry_clear : Registry → Registry
registry_clear g = record { limiters = λ n. none }
