-- ===== src/Runtime/Gateway/Rollback.antt =====
-- An error of the storing of a provider's call leaves the stores as they were.
use layeros.Base.{String, ◌≡◌, refl, ap, Option, none, some, List, ◌==◌}
use layeros.Types.Control.{GatewayCall}
use layeros.Stores.Control.{create_gateway_record}
use layeros.Json.{Fields}
use layeros.Env.{Env, Domain}
use layeros.State.{Service, Saved}
use layeros.Persist.{Outcome, and_then}
use layeros.Runtime.{on_error}
use layeros.Runtime.Intact.{
  Intact, Intact-refl, Between, Between-trans, checked-Intact, chain-Intact, guarded-back,
  finish-error, log-Between, on_error-Between, restore_events-same, Undoes,
}
use layeros.Runtime.Room.{auto_open_some, restored_room}
use layeros.Runtime.Room.Opened.{auto_open_some-Between}
use layeros.Runtime.Intact.Steps.{if_step-Between}
use layeros.Runtime.Gateway.{
  Adapter, gateway_sent, gateway_failed, gateway_room, gateway_more, suggestion_for_gateway,
  undo_gateway, store_gateway_call, prepared_call, create_gateway_call,
}

pub gateway_sent-Between :
    (env : Env) (item : GatewayCall) (s : Service) → Between s (gateway_sent env item s).0
unfolding gateway_sent
gateway_sent-Between env item s = if_step-Between (item.status == "sent") s _ (log-Between _ s)

pub gateway_failed-Between :
    (env : Env) (item : GatewayCall) (s : Service) → Between s (gateway_failed env item s).0
unfolding gateway_failed
gateway_failed-Between env item s = if_step-Between (item.status == "failed") s _ (log-Between _ s)

pub gateway_room-Between :
    (env : Env) (item : GatewayCall) (s : Service) → Between s (gateway_room env item s).0
unfolding gateway_room
gateway_room-Between env item s =
    if_step-Between (item.status == "failed") s
      (auto_open_some env (suggestion_for_gateway env.now item) s) (auto_open_some-Between env _ s)

then-Between :
    (u : Service) (r : Outcome) (f : Service → Outcome)
    → (r.1 ≡ none → Between u r.0)
    → ((v : Service) → (f v).1 ≡ none → Between v (f v).0)
    → (and_then r f).1 ≡ none
    → Between u (and_then r f).0
then-Between u (v, none) f h k p = Between-trans u v (f v).0 (h refl) (k v p)
then-Between u (v, some e) f h k p = cc

module _ (env : Env) (item : GatewayCall) (s : Service) where
  undo_gateway-Undoes :
      (calls : List GatewayCall)
      → Undoes s (record s { gateway_calls = calls }) (undo_gateway env s)
  undo_gateway-Undoes calls v h = record {
    stores = ap (undo_gateway env s) h.same;
    evidence = restore_events-same env.event_retention s.events;
  }

  undo_gateway_room-Undoes :
      (calls : List GatewayCall)
      → Undoes s
          (record s { gateway_calls = calls })
          (λ t. restored_room env s (undo_gateway env s t))
  undo_gateway_room-Undoes calls v h = record {
    stores = ap (λ t. restored_room env s (undo_gateway env s t)) h.same;
    evidence = restore_events-same env.event_retention s.events;
  }

  after_sent : Service → Outcome
  after_sent v =
      and_then (on_error (gateway_failed env item v) (undo_gateway env s))
        (λ w. on_error (gateway_room env item w) (λ t. restored_room env s (undo_gateway env s t)))

  after_sent-Intact :
      (calls : List GatewayCall) (e : String) (v : Service)
      → Between (record s { gateway_calls = calls }) v
      → (after_sent v).1 ≡ some e
      → Intact s (after_sent v).0
  unfolding after_sent
  after_sent-Intact calls e v h =
      let t : Service = record s { gateway_calls = calls } in
      let failed = on_error (gateway_failed env item v) (undo_gateway env s) in
      chain-Intact s failed _ e
        (guarded-back s t (gateway_failed env item) (undo_gateway env s) e
          (gateway_failed-Between env item) (undo_gateway-Undoes calls) v h)
        (λ done.
          guarded-back s t (gateway_room env item) _ e (gateway_room-Between env item)
            (undo_gateway_room-Undoes calls) failed.0
            (Between-trans t v failed.0 h (
              on_error-Between v (gateway_failed env item v) (undo_gateway env s)
                (gateway_failed-Between env item v) done)))

  gateway_more-Intact :
      (calls : List GatewayCall) (e : String) (u : Service)
      → Between (record s { gateway_calls = calls }) u
      → (gateway_more env item s u).1 ≡ some e
      → Intact s (gateway_more env item s u).0
  unfolding gateway_more after_sent
  gateway_more-Intact calls e u h =
      let t : Service = record s { gateway_calls = calls } in
      let sent = on_error (gateway_sent env item u) (undo_gateway env s) in
      chain-Intact s sent after_sent e
        (guarded-back s t (gateway_sent env item) (undo_gateway env s) e
          (gateway_sent-Between env item) (undo_gateway-Undoes calls) u h)
        (λ done. after_sent-Intact calls e sent.0 (
          Between-trans t u sent.0 h (
            on_error-Between u (gateway_sent env item u) (undo_gateway env s)
              (gateway_sent-Between env item u) done)))

  pub gateway_more-Between :
      (u : Service) → (gateway_more env item s u).1 ≡ none → Between u (gateway_more env item s u).0
  unfolding gateway_more after_sent
  gateway_more-Between u =
      let sent = on_error (gateway_sent env item u) (undo_gateway env s) in
      then-Between u sent after_sent
        (on_error-Between u (gateway_sent env item u) (undo_gateway env s)
          (gateway_sent-Between env item u))
        (λ v.
          then-Between v (on_error (gateway_failed env item v) (undo_gateway env s)) _
            (on_error-Between v (gateway_failed env item v) (undo_gateway env s)
              (gateway_failed-Between env item v))
            (λ w. on_error-Between w (gateway_room env item w) _ (gateway_room-Between env item w)))

module _ (encode : (d : Domain) → Saved d → String) (env : Env) (s : Service) (e : String) where
  -- An error of the storing of a call leaves every store in memory as it was.
  pub store_gateway_call-atomic :
      (item : GatewayCall)
      → (store_gateway_call encode env item s).1 ≡ some e
      → Intact s (store_gateway_call encode env item s).0
  unfolding store_gateway_call
  store_gateway_call-atomic item =
      checked-Intact s (create_gateway_record item s.gateway_calls) _ e (λ calls _.
        finish-error encode env s (record s { gateway_calls = calls }) _ (gateway_more env item s)
          (λ t. record t { gateway_calls = s.gateway_calls }) _ e (λ _. Intact-refl s)
          (gateway_more-Intact env item s calls e) (gateway_more-Between env item s)
          (undo_gateway_room-Undoes env item s calls))

  -- An error of CreateGatewayCall, of its adapter too, leaves every store in memory, but
  -- for the room, as it was at the second lock.
  pub create_gateway_call-atomic :
      (adapter : Adapter) (item : GatewayCall) (payload : Option Fields) (before : Service)
      → (create_gateway_call encode env adapter item payload before s).1 ≡ some e
      → Intact s (create_gateway_call encode env adapter item payload before s).0
  unfolding create_gateway_call
  create_gateway_call-atomic adapter item payload before =
      checked-Intact s (prepared_call adapter item payload before.policies) _ e
        (λ prepared _. store_gateway_call-atomic prepared)
