-- ===== src/Store.antt =====
-- The class `SfStablecoinStore` of packages/lib-base/src/SfStablecoinStore.ts as a state machine: the
-- fields of the object, the timers that the runtime holds for it, and the calls that it has made.
pub mod Timers
pub mod Derived
pub mod Listeners
pub mod Preserve
pub mod Updating
pub mod Reachable
use stablecoin_sdk.Base.{
  ℕ, suc, Bool, true, false, not, Option, none, some, List, [], ◌∷◌, ◌++◌, ◌==◌, if◌then◌else◌,
}
use stablecoin_sdk.Base.Result.{Result, ok, err, assertion_failed}
use stablecoin_sdk.BigNumber.{BigNumber}
use stablecoin_sdk.StoreState.{BaseState, BaseUpdate, DerivedState, reduce, derive, reduce_derived}

-- What `get state()` assembles; `T` is the type of the extra state.
pub record Snapshot (T : Type 0) : Type 0 where
  pub base : Option BaseState
  pub derived : Option DerivedState
  pub extra : Option T

-- A call that the store makes: of `onLoaded`, or of a listener with the new and the old state.
pub data Call (T : Type 0) : Type 0 where
  loaded_call : Call T
  notified : ℕ → Snapshot T → Snapshot T → Call T

-- `listeners` is the set `_listeners`, in the order of insertion, by the identities of the wrapped
-- functions; `next_listener` is the next one. `pending` are the timers that were set and not cleared.
pub record Store (T : Type 0) : Type 0 where
  pub has_on_loaded : Bool
  pub loaded : Bool
  pub base_state : Option BaseState
  pub derived_state : Option DerivedState
  pub extra_state : Option T
  pub update_timeout_id : Option ℕ
  pub listeners : List ℕ
  pub next_listener : ℕ
  pub pending : List ℕ
  pub next_timer : ℕ
  pub calls : List (Call T)

abbrev pub new_store : {T : Type 0} → Bool → Store T
new_store has_on_loaded = record {
  has_on_loaded = has_on_loaded;
  loaded = false;
  base_state = none;
  derived_state = none;
  extra_state = none;
  update_timeout_id = none;
  listeners = [];
  next_listener = 0;
  pending = [];
  next_timer = 0;
  calls = [];
}

-- `set.delete(id)` and `clearTimeout(id)`: all but the given one.
unfoldable pub without : ℕ → List ℕ → List ℕ
without id [] = []
without id (x ∷ xs) = if x == id then without id xs else x ∷ without id xs

-- `set.has(id)`.
unfoldable pub has : List ℕ → ℕ → Bool
has [] id = false
has (x ∷ xs) id = if x == id then true else has xs id

-- What a listener does when it is called.
pub data Command : Type 0 where
  subscribe_new : Command
  unsubscribe_id : ℕ → Command

module _ {T : Type 0} where
  unfoldable pub snapshot : Store T → Snapshot T
  snapshot s = record { base = s.base_state; derived = s.derived_state; extra = s.extra_state }

  -- `_cancelUpdateIfScheduled`.
  unfoldable pub cancel_update_if_scheduled : Store T → Store T
  cancel_update_if_scheduled s = elim s.update_timeout_id [
    | none ↦ s
    | some id ↦ record s { pending = without id s.pending }
  ]

  abbrev set_timeout : Store T → Store T
  set_timeout s = record s {
    pending = s.pending ++ s.next_timer ∷ [];
    update_timeout_id = some s.next_timer;
    next_timer = suc s.next_timer;
  }

  -- `_scheduleUpdate`.
  unfoldable pub schedule_update : Store T → Store T
  schedule_update s = set_timeout (cancel_update_if_scheduled s)

  -- The function that `start` returns, after `doStop`.
  unfoldable pub stop : Store T → Store T
  stop s = cancel_update_if_scheduled s

  -- `subscribe`: the wrapped listener is a new function.
  unfoldable pub subscribe : Store T → Store T
  subscribe s = record s {
    listeners = s.listeners ++ s.next_listener ∷ [];
    next_listener = suc s.next_listener;
  }

  -- The function that `subscribe` returns.
  unfoldable pub unsubscribe : ℕ → Store T → Store T
  unsubscribe id s = record s { listeners = without id s.listeners }

  unfoldable pub run_commands : List Command → Store T → Store T
  run_commands [] s = s
  run_commands (subscribe_new ∷ cs) s = run_commands cs (subscribe s)
  run_commands (unsubscribe_id id ∷ cs) s = run_commands cs (unsubscribe id s)

  abbrev pub log_call : Call T → Store T → Store T
  log_call c s = record s { calls = s.calls ++ c ∷ [] }

  -- `if (this.onLoaded) this.onLoaded()`.
  abbrev pub call_on_loaded : Store T → Store T
  call_on_loaded s = if s.has_on_loaded then log_call loaded_call s else s

  -- What the listeners do when they are called is a parameter.
  module _ (react : ℕ → List Command) where
    -- The loop of `_notify`, over the copy of the listeners.
    unfoldable pub notify_each : List ℕ → Snapshot T → Snapshot T → Store T → Store T
    notify_each [] new old s = s
    notify_each (l ∷ ls) new old s =
        notify_each ls new old (
          if has s.listeners l then run_commands (react l) (log_call (notified l new old) s) else s)

    unfoldable pub notify : Snapshot T → Snapshot T → Store T → Store T
    notify new old s = notify_each s.listeners new old s

-- `X` is `Partial<T>`, and `reduce_extra` the abstract method `_reduceExtra`.
module _ {T X : Type 0} ⦃bn : BigNumber⦄ (reduce_extra : T → X → T) (react : ℕ → List Command) where
  -- `_load`.
  unfoldable pub load : BaseState → Option T → Store T → Result (Unit {0}) × Store T
  load base extra s =
      if s.loaded
      then (err assertion_failed, s)
      else (let s1 : Store T = record s { base_state = some base } in
          elim (derive base) [
            | err e ↦ (err e, s1)
            | ok d ↦ (
              ok tt,
              call_on_loaded (
                  schedule_update
                    (record s1 { derived_state = some d; extra_state = extra; loaded = true })),
            )
          ])

  abbrev pub reduce_base : BaseState → Option BaseUpdate → BaseState
  reduce_base base none = base
  reduce_base base (some u) = reduce base u

  abbrev pub update_extra : Option T → Option X → Result (Option T)
  update_extra extra none = ok extra
  update_extra none (some u) = err assertion_failed
  update_extra (some x) (some u) = ok (some (reduce_extra x u))

  abbrev pub finish_with : Snapshot T → Store T → Result (Option T) → Result (Unit {0}) × Store T
  finish_with old s (err e) = (err e, s)
  finish_with old s (ok extra) =
      let s' : Store T = schedule_update (record s { extra_state = extra }) in
      (ok tt, notify react (snapshot s') old s')

  -- The end of `_update`, from the extra state on; `old` is the state at its beginning.
  unfoldable pub finish_update : Option X → Snapshot T → Store T → Result (Unit {0}) × Store T
  finish_update extra_update old s = finish_with old s (update_extra s.extra_state extra_update)

  abbrev pub update_derived :
      Option X
      → Snapshot T
      → DerivedState
      → Store T
      → Result DerivedState
      → Result (Unit {0}) × Store T
  update_derived extra_update old derived s (err e) = (err e, s)
  update_derived extra_update old derived s (ok d) =
      finish_update extra_update old (record s { derived_state = some (reduce_derived derived d) })

  abbrev pub update_states :
      Option BaseUpdate
      → Option X
      → Store T
      → Option BaseState
      → Option DerivedState
      → Result (Unit {0}) × Store T
  update_states bu extra_update s none derived = (err assertion_failed, s)
  update_states bu extra_update s (some base) none = (err assertion_failed, s)
  update_states bu extra_update s (some base) (some derived) =
      update_derived extra_update (snapshot s) derived
        (record s { base_state = some (reduce_base base bu) }) (derive (reduce_base base bu))

  -- `_update`.
  unfoldable pub update : Option BaseUpdate → Option X → Store T → Result (Unit {0}) × Store T
  update base_update extra_update s =
      update_states base_update extra_update s s.base_state s.derived_state

  -- The function that `_scheduleUpdate` gives to `setTimeout`, when the timer `id` runs out.
  unfoldable pub fire : ℕ → Store T → Result (Unit {0}) × Store T
  unfolding update
  fire id s =
      update none none (record s { pending = without id s.pending; update_timeout_id = none })
