-- ===== src/Store/Updating.antt =====
-- What `_update` does to a loaded store.
use stablecoin_sdk.Base.{ℕ, ◌≡◌, ◌∙◌, refl, ap, arith, none, some, List, [], ◌∷◌}
use stablecoin_sdk.Base.Result.{ok}
use stablecoin_sdk.BigNumber.{BigNumber}
use stablecoin_sdk.StoreState.{BaseState, BaseUpdate, DerivedState, reduce, derive}
use stablecoin_sdk.StoreState.Reduce.{overwrite, reduce-overwrite}
use stablecoin_sdk.Store.{
  Store, Command, snapshot, cancel_update_if_scheduled, schedule_update, notify, update,
}
use stablecoin_sdk.Store.Derived.{IsValidUpdate, reduce-IsValidBase, derive_total}
use stablecoin_sdk.Store.Timers.{IsTimely, schedule-one_pending}
use stablecoin_sdk.Store.Preserve.{
  IsCurrent, schedule-states, schedule-extra, finish_ok, update_current,
}

module _ {T X : Type 0} ⦃bn : BigNumber⦄ (reduce_extra : T → X → T) (react : ℕ → List Command) where
  schedule-rest :
      (s : Store T)
      → ((schedule_update s).listeners ≡ s.listeners)
        × ((schedule_update s).next_listener ≡ s.next_listener)
        × ((schedule_update s).calls ≡ s.calls)
        × ((schedule_update s).loaded ≡ s.loaded)
  unfolding schedule_update cancel_update_if_scheduled
  schedule-rest s = ground arith

  -- On a loaded store with a valid base state and the state derived from it, and with no timer pending but
  -- the one that it remembers, a valid update of the base state returns. It puts the values of the update in,
  -- derives the derived state anew, keeps the extra state, the listeners and the calls made so far, leaves exactly one timer pending and
  -- notifies the listeners with the new and the old state.
  pub update-loaded :
      (u : BaseUpdate) (s : Store T)
      → IsValidUpdate u
      → IsTimely s
      → IsCurrent s
      → (b : BaseState) × (d : DerivedState) × (s' : Store T) × (id : ℕ) × (s.base_state ≡ some b)
        × (derive (overwrite b u) ≡ ok d)
        × (s'.base_state ≡ some (overwrite b u))
        × (s'.derived_state ≡ some d)
        × (s'.extra_state ≡ s.extra_state)
        × (s'.listeners ≡ s.listeners)
        × (s'.next_listener ≡ s.next_listener)
        × (s'.calls ≡ s.calls)
        × (s'.loaded ≡ s.loaded)
        × (s'.pending ≡ id ∷ [])
        × (s'.update_timeout_id ≡ some id)
        × (update reduce_extra react (some u) none s
            ≡ (ok tt, notify react (snapshot s') (snapshot s) s'))
  update-loaded u s fresh timely (b, d, on, eb, ed, valid, found) =
      let (d', found') = derive_total (reduce b u) (reduce-IsValidBase b u valid fresh) in
      let s1 : Store T = record s { base_state = some (reduce b u); derived_state = some d' } in
      let one_left = schedule-one_pending s1 timely in
      let states = schedule-states s1 in
      let same = reduce-overwrite b u in
      let rest = schedule-rest s1 in
      (
        b,
        d',
        schedule_update s1,
        (cancel_update_if_scheduled s1).next_timer,
        eb,
        rw (← same) found',
        states.1 ∙ ap some same,
        states.2,
        schedule-extra s1,
        rest.0,
        rest.1,
        rest.2,
        rest.3,
        one_left.0,
        one_left.1,
        update_current reduce_extra react (some u) none s b d d' eb ed found'
            ∙ finish_ok reduce_extra react none (snapshot s) s1 s.extra_state refl,
      )
