-- ===== src/Nats/Requests.antt =====
-- How often `send_and_wait` sends a command.
use Prim.Native.String.{◌++◌ as concat}
use dds.Base.{
  ℕ, zero, suc, ◌+◌, ◌*◌, ◌≤◌, String, ◌==◌, ◌≡◌, refl, true, ◌||◌, ◌⊎◌, arith, Bool-cases, inl,
  inr,
}
use dds.Base.Dict.{insert}
use dds.Orchestrator.Value.{Context, Value}
use dds.Orchestrator.Transport.{Reply, Response}
use dds.Nats.{Verdict, judge, attempts, failed_reply, send_and_wait, capped, transient_retries}

abbrev pub conclude : Verdict → Reply
conclude (Verdict.done reply) = reply
conclude (Verdict.retry err) = failed_reply err

Verdict-cases :
    (v : Verdict) → ((r : Reply) × (v ≡ Verdict.done r)) ⊎ ((e : String) × (v ≡ Verdict.retry e))
Verdict-cases (Verdict.done r) = inl (r, refl)
Verdict-cases (Verdict.retry e) = inr (e, refl)

module _ {W : Type 0} (request : String → Context → W → Response × W) (sleep : ℕ → W → W) where
  attempts_once :
      (backoff : ℕ) (last_error subject : String) (msg : Context) (w : W)
      → let (response, w') = request subject msg w in
        attempts request sleep 1 backoff last_error subject msg w ≡ (conclude (judge response), w')
  unfolding attempts
  attempts_once backoff last_error subject msg w =
      elim (Verdict-cases (judge (request subject msg w).0)) [
        | inl (reply, e) ↦ rw (e, attempts) refl
        | inr (err, e) ↦ rw (e, attempts) refl
      ]

  -- A mutation, prepare or execute, is requested exactly once, whatever comes of it, and without a wait: a
  -- timeout and every error become a failed reply.
  pub mutations_are_sent_once :
      (service action : String) (payload : Context) (w : W)
      → (action == "prepare") || (action == "execute") ≡ true
      → let (response, w') =
          request
            (concat (concat (concat "svc." service) ".") action)
            (insert "action" (Value.text action) payload)
            w in
        send_and_wait request sleep service action payload w ≡ (conclude (judge response), w')
  unfolding send_and_wait
  mutations_are_sent_once service action payload w mutates = rw mutates (attempts_once 500 "" _ _ w)

  -- the same requests and waits over a world that counts the requests
  abbrev pub counted : String → Context → W × ℕ → Response × (W × ℕ)
  counted subject msg (w, n) = let (response, w') = request subject msg w in (response, (w', n + 1))

  abbrev pub waits : ℕ → W × ℕ → W × ℕ
  waits ms (w, n) = (sleep ms w, n)

  attempts_bound :
      (left backoff : ℕ) (last_error subject : String) (msg : Context) (w : W) (n : ℕ)
      → (attempts counted waits left backoff last_error subject msg (w, n)).1.1 ≤ n + left
  unfolding attempts
  attempts_bound zero backoff last_error subject msg w n = omega arith
  attempts_bound (suc zero) backoff last_error subject msg w n =
      elim (Verdict-cases (judge (request subject msg w).0)) [
        | inl (reply, e) ↦ rw (e, attempts) (omega arith)
        | inr (err, e) ↦ rw (e, attempts) (omega arith)
      ]
  attempts_bound (suc (suc left)) backoff last_error subject msg w n =
      elim (Verdict-cases (judge (request subject msg w).0)) [
        | inl (reply, e) ↦ rw (e, attempts) (omega arith)
        | inr (err, e) ↦
            let later = sleep (capped backoff) (request subject msg w).1 in
            rw (e, attempts)
              (omega (arith, attempts_bound (suc left) (2 * backoff) err subject msg later (n + 1)))
      ]

  -- No command is requested more than six times, whatever comes of the requests.
  pub requests_bound :
      (service action : String) (payload : Context) (w : W) (n : ℕ)
      → (send_and_wait counted waits service action payload (w, n)).1.1 ≤ n + transient_retries
  unfolding send_and_wait
  requests_bound service action payload w n =
      elim (Bool-cases ((action == "prepare") || (action == "execute"))) [
        | inl mutates ↦ rw mutates (
            omega (
              arith,
              attempts_bound 1 500 "" (concat (concat (concat "svc." service) ".") action)
                  (insert "action" (Value.text action) payload) w n,
            ))
        | inr again ↦ rw again (
            attempts_bound 6 500 "" (concat (concat (concat "svc." service) ".") action)
              (insert "action" (Value.text action) payload) w n)
      ]
