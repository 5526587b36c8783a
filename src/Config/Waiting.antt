-- ===== src/Config/Waiting.antt =====
-- `wait_for_redis`: the start of a service waits for its database. The ping, the disconnection of the pool
-- and the wait are parameters, and `none` of a ping is its success.
use dds.Base.{ℕ, ◌+◌, ◌<◌, String, ◌≡◌, Option, none}
use dds.Base.Retry.{Attempted, attempts, after, AllFail, attempts-ready}

module _ {W : Type 0} (ping : W → Option String × W) (disconnect : W → W) (sleep : ℕ → W → W) where
  -- the pool is disconnected, whether or not that fails, and then there is a wait
  abbrev pub reset : ℕ → W → W
  reset delay w = sleep delay (disconnect w)

  -- wait_for_redis
  unfoldable pub wait_for_redis : ℕ → ℕ → W → Attempted × W
  wait_for_redis retries delay w = attempts ping (reset delay) retries 1 w

  -- If a number of pings below `retries` fails and the next one is answered, the wait ends there, and the
  -- pool was disconnected and the delay was waited for exactly between the pings.
  pub starts_when_redis_answers :
      (retries delay n : ℕ) (w : W)
      → n < retries
      → AllFail ping (reset delay) n w
      → (ping (after ping (reset delay) n w)).0 ≡ none
      → wait_for_redis retries delay w
        ≡ (Attempted.ready (1 + n), (ping (after ping (reset delay) n w)).1)
  unfolding wait_for_redis
  starts_when_redis_answers retries delay n w = attempts-ready ping (reset delay) retries n 1 w
