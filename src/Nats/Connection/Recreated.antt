-- ===== src/Nats/Connection/Recreated.antt =====
-- What a reconnection leaves of the subscriptions, and which commands carry a message id.
use Prim.Native.String.{◌++◌ as concat, ◌∷◌ as char_then}
use dds.Base.{
  String, ◌==◌, ◌≡◌, refl, sym, ap, ◌∙◌, ◌||◌, Option, none, some, List, [], ◌∷◌, ◌++◌, Bool-cases,
  inl, inr, if◌then◌else◌,
}
use mathlib.Core.List.{append-nil, append_assoc}
use dds.Base.Dict.{lookup}
use dds.Base.Split.{Lacks, rsplit_once-append}
use dds.Orchestrator.Value.{Context, get_text}
use dds.Nats.Connection.{
  Transport, new_transport, Server, js_subscribe, subscribe, subscribe_all, subscribed, reconnect,
  request_headers,
}

-- calls of `subscribe`, one after another, whether or not they raise
unfoldable pub subscribe_each : Server → List (String × String) → Transport → Transport
subscribe_each server [] t = t
subscribe_each server (params ∷ rest) t = subscribe_each server rest (subscribe server params t).1

params-subscribed :
    (e : Option String) (params : String × String) (t : Transport)
    → (subscribed e params t).1.sub_params ≡ t.sub_params
params-subscribed none params t = refl
params-subscribed (some e) params t = refl

params-subscribe_each :
    (server : Server) (all : List (String × String)) (t : Transport)
    → (subscribe_each server all t).sub_params ≡ t.sub_params ++ all
unfolding subscribe_each subscribe js_subscribe
params-subscribe_each server [] t = sym (append-nil t.sub_params)
params-subscribe_each server (params ∷ rest) t =
    params-subscribe_each server rest (subscribe server params t).1
    ∙ ap (λ l. l ++ rest) (params-subscribed (server params) params _)
    ∙ append_assoc t.sub_params (params ∷ []) rest

all_subscribed :
    (server : Server) (all : List (String × String)) (t : Transport)
    → ((params : String × String) → server params ≡ none)
    → subscribe_all server all t ≡ (none, record t { subs = t.subs ++ all })
unfolding subscribe_all
all_subscribed server [] t up = ap (λ l. (none, record t { subs = l })) (sym (append-nil t.subs))
all_subscribed server (params ∷ rest) t up =
    rw (subscribe_all, up params)
      (all_subscribed server rest (record t { subs = t.subs ++ params ∷ [] }) up
        ∙ ap (λ l. (none, record t { subs = l })) (append_assoc t.subs (params ∷ []) rest))

-- After a reconnection in which the server raises nothing, a transport has exactly one subscription for each
-- that was ever asked for, in that order, whatever became of the calls that asked for them.
pub reconnection_restores_all :
    (first later : Server) (all : List (String × String))
    → ((params : String × String) → later params ≡ none)
    → let (error, t) = reconnect none later (subscribe_each first all new_transport) in
      (error ≡ none) × (t.subs ≡ all)
unfolding reconnect
reconnection_restores_all first later all up =
    let t = subscribe_each first all new_transport in
    let done = all_subscribed later t.sub_params (record t { subs = [] }) up in
    (ap (λ r. r.0) done, ap (λ r. r.1.subs) done ∙ params-subscribe_each first all new_transport)

abbrev pub subject_of : String → String → String
subject_of service action = concat (concat "svc." service) (char_then "." action)

-- A request carries a message id, made of the saga and the subject, exactly if its action is a prepare or
-- an execute: so the server drops a repetition of these and of no other command. The action has no dot.
pub mutations_are_deduplicated :
    (inbox service action : String) (payload : Context)
    → Lacks "." action
    → lookup "Nats-Msg-Id" (request_headers inbox (subject_of service action) payload) ≡ (
        if action == "prepare" || action == "execute"
        then some (concat (concat (get_text "saga_id" "" payload) "-") (subject_of service action))
        else none)
unfolding request_headers lookup
mutations_are_deduplicated inbox service action payload h =
    rw (rsplit_once-append "." (concat "svc." service) action h)
      (elim (Bool-cases (action == "prepare" || action == "execute")) [
        | inl once ↦ rw once refl
        | inr more ↦ rw more refl
      ])
