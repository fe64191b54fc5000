-- ===== src/Store/Preserve.antt =====
-- Every operation of the store keeps its timers, and its derived state with its base state.
use stablecoin_sdk.Base.{
  ℕ, ◌≡◌, ◌⊎◌, ◌∙◌, inl, inr, refl, true, false, Option, none, some, List, arith,
}
use stablecoin_sdk.Base.Result.{Failure, ok, err, assertion_failed, Result-cases}
use stablecoin_sdk.BigNumber.{BigNumber}
use stablecoin_sdk.StoreState.{BaseState, BaseUpdate, DerivedState, derive}
use stablecoin_sdk.StoreState.Reduce.{reduce_derived-new}
use stablecoin_sdk.Store.{
  Snapshot, Store, without, has, Command, snapshot, cancel_update_if_scheduled, schedule_update,
  stop, notify, load, reduce_base, update_extra, finish_update, call_on_loaded, update, fire,
}
use stablecoin_sdk.Store.Derived.{IsValidBase, IsValidUpdate, reduce-IsValidBase, derive_total}
use stablecoin_sdk.Store.Timers.{
  IsTimely, SameCore, notify-SameCore, schedule-one_pending, fired-nothing_pending,
}

abbrev pub IsValidIfAny : Option BaseUpdate → Type 0
IsValidIfAny none = Unit
IsValidIfAny (some u) = IsValidUpdate u

module _ {T : Type 0} ⦃bn : BigNumber⦄ where
  -- The loaded store has a valid base state, and its derived state is the one derived from that.
  abbrev pub IsCurrent : Store T → Type 0
  IsCurrent s =
      (base : BaseState) × (d : DerivedState) × (s.loaded ≡ true)
      × (s.base_state ≡ some base)
      × (s.derived_state ≡ some d)
      × IsValidBase base
      × (derive base ≡ ok d)

  -- Before it is loaded the store has neither state.
  abbrev pub IsUnloaded : Store T → Type 0
  IsUnloaded s = (s.loaded ≡ false) × (s.base_state ≡ none) × (s.derived_state ≡ none)

  abbrev pub IsGood : Store T → Type 0
  IsGood s = IsTimely s × (IsUnloaded s ⊎ IsCurrent s)

  SameCore-IsGood : (s t : Store T) → SameCore s t → IsGood s → IsGood t
  SameCore-IsGood s t same (timely, state) = (
    elim timely [
      | inl e ↦ inl (same.5 ∙ e)
      | inr (id, timeout, e) ↦ inr (id, same.4 ∙ timeout, same.5 ∙ e)
    ],
    elim state [
      | inl (l, b, d) ↦ inl (same.0 ∙ l, same.1 ∙ b, same.2 ∙ d)
      | inr (base, der, l, b, d, valid, e) ↦
          inr (base, der, same.0 ∙ l, same.1 ∙ b, same.2 ∙ d, valid, e)
    ],
  )

  pub schedule-IsTimely : (s : Store T) → IsTimely s → IsTimely (schedule_update s)
  schedule-IsTimely s timely =
      let one_left = schedule-one_pending s timely in inr (_, one_left.1, one_left.0)

  -- Scheduling leaves the two states alone.
  pub schedule-states :
      (s : Store T)
      → ((schedule_update s).loaded ≡ s.loaded)
        × ((schedule_update s).base_state ≡ s.base_state)
        × ((schedule_update s).derived_state ≡ s.derived_state)
  unfolding schedule_update cancel_update_if_scheduled
  schedule-states s = ground arith

  stop-states :
      (s : Store T)
      → ((stop s).loaded ≡ s.loaded)
        × ((stop s).base_state ≡ s.base_state)
        × ((stop s).derived_state ≡ s.derived_state)
  unfolding stop cancel_update_if_scheduled
  stop-states s = ground arith

  pub schedule-extra : (s : Store T) → (schedule_update s).extra_state ≡ s.extra_state
  unfolding schedule_update cancel_update_if_scheduled
  schedule-extra s = ground arith

  schedule-IsGood : (s : Store T) → IsGood s → IsGood (schedule_update s)
  schedule-IsGood s (timely, state) =
      let same = schedule-states s in
      (
        schedule-IsTimely s timely,
        elim state [
          | inl (l, b, d) ↦ inl (same.0 ∙ l, same.1 ∙ b, same.2 ∙ d)
          | inr (base, der, l, b, d, valid, e) ↦
              inr (base, der, same.0 ∙ l, same.1 ∙ b, same.2 ∙ d, valid, e)
        ],
      )

  pub stop-IsGood : (s : Store T) → IsGood s → IsGood (stop s)
  stop-IsGood s (timely, state) =
      let same = stop-states s in
      (
        inl (schedule-one_pending s timely).2,
        elim state [
          | inl (l, b, d) ↦ inl (same.0 ∙ l, same.1 ∙ b, same.2 ∙ d)
          | inr (base, der, l, b, d, valid, e) ↦
              inr (base, der, same.0 ∙ l, same.1 ∙ b, same.2 ∙ d, valid, e)
        ],
      )

  call_on_loaded-SameCore : (s : Store T) → SameCore s (call_on_loaded s)
  call_on_loaded-SameCore s = ground arith

module _ {T : Type 0} ⦃bn : BigNumber⦄ where
  -- The store after a successful `_load`.
  abbrev loaded_store : BaseState → Option T → DerivedState → Store T → Store T
  loaded_store base extra d s = call_on_loaded (
      schedule_update (record s {
        base_state = some base;
        derived_state = some d;
        extra_state = extra;
        loaded = true;
      }))

  loaded-IsGood :
      (base : BaseState) (extra : Option T) (d : DerivedState) (s : Store T)
      → IsValidBase base
      → derive base ≡ ok d
      → IsTimely s
      → IsGood (loaded_store base extra d s)
  loaded-IsGood base extra d s valid found timely =
      let s1 : Store T = record s {
        base_state = some base;
        derived_state = some d;
        extra_state = extra;
        loaded = true;
      } in
      SameCore-IsGood (schedule_update s1) (call_on_loaded (schedule_update s1))
        (call_on_loaded-SameCore (schedule_update s1))
        (schedule-IsGood s1 (timely, inr (base, d, refl, refl, refl, valid, found)))

module _ {T X : Type 0} ⦃bn : BigNumber⦄ (reduce_extra : T → X → T) (react : ℕ → List Command) where
  -- A loaded store refuses to be loaded.
  load_again :
      (base : BaseState) (extra : Option T) (s : Store T)
      → s.loaded ≡ true
      → load reduce_extra react base extra s ≡ (err assertion_failed, s)
  unfolding load
  load_again base extra s e = simp e

  load_first :
      (base : BaseState) (extra : Option T) (s : Store T) (d : DerivedState)
      → s.loaded ≡ false
      → derive base ≡ ok d
      → load reduce_extra react base extra s ≡ (ok tt, loaded_store base extra d s)
  unfolding load
  load_first base extra s d e found = simp (e, found)

  pub load-IsGood :
      (base : BaseState) (extra : Option T) (s : Store T)
      → IsValidBase base
      → IsGood s
      → IsGood (load reduce_extra react base extra s).1
  load-IsGood base extra s valid (timely, inr current) =
      rw (load_again base extra s current.2) (timely, inr current)
  load-IsGood base extra s valid (timely, inl unloaded) =
      let (d, found) = derive_total base valid in
      rw (load_first base extra s d unloaded.0 found)
        (loaded-IsGood base extra d s valid found timely)

  pub finish_ok :
      (xu : Option X) (old : Snapshot T) (s : Store T) (extra : Option T)
      → update_extra reduce_extra react s.extra_state xu ≡ ok extra
      → finish_update reduce_extra react xu old s ≡ (
        ok tt,
        notify react
            (snapshot (schedule_update (record s { extra_state = extra })))
            old
            (schedule_update (record s { extra_state = extra })),
      )
  unfolding finish_update
  finish_ok xu old s extra e = simp e

  finish_err :
      (xu : Option X) (old : Snapshot T) (s : Store T) (e : Failure)
      → update_extra reduce_extra react s.extra_state xu ≡ err e
      → finish_update reduce_extra react xu old s ≡ (err e, s)
  unfolding finish_update
  finish_err xu old s e h = simp h

  finish-IsGood :
      (xu : Option X) (old : Snapshot T) (s : Store T)
      → IsGood s
      → IsGood (finish_update reduce_extra react xu old s).1
  finish-IsGood xu old s good =
      elim (Result-cases (update_extra reduce_extra react s.extra_state xu)) [
        | inl (extra, found) ↦
            let s' : Store T = schedule_update (record s { extra_state = extra }) in
            rw (finish_ok xu old s extra found) (
              SameCore-IsGood s' (notify react (snapshot s') old s')
                (notify-SameCore react (snapshot s') old s')
                (schedule-IsGood (record s { extra_state = extra }) good))
        | inr (e, thrown) ↦ rw (finish_err xu old s e thrown) good
      ]

  pub reduced-IsValidBase :
      (b : BaseState) (bu : Option BaseUpdate)
      → IsValidBase b
      → IsValidIfAny bu
      → IsValidBase (reduce_base reduce_extra react b bu)
  reduced-IsValidBase b none valid fresh = valid
  reduced-IsValidBase b (some u) valid fresh = reduce-IsValidBase b u valid fresh

  update_unloaded :
      (bu : Option BaseUpdate) (xu : Option X) (s : Store T)
      → s.base_state ≡ none
      → update reduce_extra react bu xu s ≡ (err assertion_failed, s)
  unfolding update
  update_unloaded bu xu s e = simp e

  pub update_current :
      (bu : Option BaseUpdate) (xu : Option X) (s : Store T) (b : BaseState) (d d' : DerivedState)
      → s.base_state ≡ some b
      → s.derived_state ≡ some d
      → derive (reduce_base reduce_extra react b bu) ≡ ok d'
      → update reduce_extra react bu xu s
        ≡ finish_update reduce_extra react xu (snapshot s) (record s {
          base_state = some (reduce_base reduce_extra react b bu);
          derived_state = some d';
        })
  unfolding update
  update_current bu xu s b d d' eb ed found = simp (eb, ed, found, reduce_derived-new)

  pub update-IsGood :
      (bu : Option BaseUpdate) (xu : Option X) (s : Store T)
      → IsValidIfAny bu
      → IsGood s
      → IsGood (update reduce_extra react bu xu s).1
  update-IsGood bu xu s fresh (timely, inl unloaded) =
      rw (update_unloaded bu xu s unloaded.1) (timely, inl unloaded)
  update-IsGood bu xu s fresh (timely, inr (b, d, on, eb, ed, valid, found)) =
      let valid' = reduced-IsValidBase b bu valid fresh in
      let (d', found') = derive_total (reduce_base reduce_extra react b bu) valid' in
      rw (update_current bu xu s b d d' eb ed found') (
        finish-IsGood xu (snapshot s)
          (record s {
            base_state = some (reduce_base reduce_extra react b bu);
            derived_state = some d';
          })
          (timely, inr (reduce_base reduce_extra react b bu, d', on, refl, refl, valid', found')))

  pub fire-IsGood :
      (id : ℕ) (s : Store T)
      → has s.pending id ≡ true
      → IsGood s
      → IsGood (fire reduce_extra react id s).1
  unfolding fire
  fire-IsGood id s waiting (timely, state) =
      update-IsGood none none
        (record s { pending = without id s.pending; update_timeout_id = none }) tt
        (inl (fired-nothing_pending s id timely waiting), state)
