-- ===== src/Nats.antt =====
-- common/nats_transport.py, class NatsOrchestratorTransport. `request` of NatsTransport and the wait are
-- parameters; times are whole milliseconds.
pub mod Requests
pub mod Connection
use Prim.Native.String.{◌++◌ as concat}
use dds.Base.{
  ℕ, zero, suc, ◌+◌, ◌*◌, String, ◌==◌, Bool, true, false, ◌&&◌, ◌||◌, none, some, List, [], ◌∷◌,
  leb, map, if◌then◌else◌,
}
use dds.Orchestrator.Value.{Context, Value}
use dds.Base.Dict.{insert}
use dds.Base.Text.{codes}
use dds.Orchestrator.Transport.{Reply, fields, Response, returned, timed_out, raised}

-- `lower`, for the letters of ASCII; the texts that are searched for have no other
abbrev lower_code : ℕ → ℕ
lower_code n = if leb 65 n && leb n 90 then n + 32 else n

unfoldable pub is_prefix : List ℕ → List ℕ → Bool
is_prefix [] ys = true
is_prefix (x ∷ xs) [] = false
is_prefix (x ∷ xs) (y ∷ ys) = (leb x y && leb y x) && is_prefix xs ys

unfoldable pub occurs : List ℕ → List ℕ → Bool
occurs xs [] = is_prefix xs []
occurs xs (y ∷ ys) = is_prefix xs (y ∷ ys) || occurs xs ys

-- "no responders" in err.lower() or "disconnected" in err.lower() or "connection" in err.lower()
unfoldable pub is_transient : String → Bool
is_transient err =
    let text = map lower_code (codes err) in
    occurs (codes "no responders") text
    || occurs (codes "disconnected") text
    || occurs (codes "connection") text

-- TRANSIENT_RETRIES, INITIAL_BACKOFF and MAX_BACKOFF
abbrev pub transient_retries : ℕ
transient_retries = 6

abbrev pub initial_backoff : ℕ
initial_backoff = 500

abbrev pub capped : ℕ → ℕ
capped backoff = if leb backoff 4000 then backoff else 4000

-- a mutation is not tried again
abbrev pub max_retries : String → ℕ
max_retries action = if action == "prepare" || action == "execute" then 1 else transient_retries

abbrev pub failed_reply : String → Reply
failed_reply reason = fields (some "failed") (some reason)

-- What the loop does after an attempt: it returns, or goes on with an error.
pub data Verdict : Type 0 where
  done : Reply → Verdict
  retry : String → Verdict

unfoldable pub judge : Response → Verdict
judge (returned reply) = Verdict.done reply
judge timed_out = Verdict.retry "timeout"
judge (raised err) = if is_transient err then Verdict.retry err else Verdict.done (failed_reply err)

module _ {W : Type 0} (request : String → Context → W → Response × W) (sleep : ℕ → W → W) where
  -- if attempt < max_retries: await asyncio.sleep(min(backoff, MAX_BACKOFF))
  abbrev pub wait : ℕ → ℕ → W → W
  wait zero backoff w = w
  wait (suc left) backoff w = sleep (capped backoff) w

  -- the loop, with the attempts that are left, the backoff and the last error
  unfoldable pub attempts : ℕ → ℕ → String → String → Context → W → Reply × W
  attempts zero backoff last_error subject msg w = (failed_reply last_error, w)
  attempts (suc left) backoff last_error subject msg w =
      let (response, w') = request subject msg w in
      elim (judge response) [
        | Verdict.done reply ↦ (reply, w')
        | Verdict.retry err ↦ attempts left (2 * backoff) err subject msg (wait left backoff w')
      ]

  -- send_and_wait
  unfoldable pub send_and_wait : String → String → Context → W → Reply × W
  send_and_wait service action payload w =
      attempts (max_retries action) initial_backoff ""
        (concat (concat (concat "svc." service) ".") action)
        (insert "action" (Value.text action) payload) w
