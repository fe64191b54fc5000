-- ===== src/Store/Reachable.antt =====
-- The states that a store can reach, and what holds of all of them.
use stablecoin_sdk.Base.{ℕ, ◌≡◌, inl, refl, Bool, true, Option, List}
use stablecoin_sdk.BigNumber.{BigNumber}
use stablecoin_sdk.StoreState.{BaseState, BaseUpdate}
use stablecoin_sdk.Store.{
  Store, new_store, has, Command, stop, subscribe, unsubscribe, load, update, fire,
}
use stablecoin_sdk.Store.Derived.{IsValidBase}
use stablecoin_sdk.Store.Preserve.{
  IsValidIfAny, IsGood, load-IsGood, update-IsGood, fire-IsGood, stop-IsGood,
}

module _ {T X : Type 0} ⦃bn : BigNumber⦄ (reduce_extra : T → X → T) (react : ℕ → List Command) where
  -- The steps of a store: its methods with valid arguments, and a pending timer that runs out.
  pub data Step : Store T → Store T → Type 0 where
    loads :
        (s : Store T) (base : BaseState) (extra : Option T)
        → IsValidBase base
        → Step s (load reduce_extra react base extra s).1
    updates :
        (s : Store T) (bu : Option BaseUpdate) (xu : Option X)
        → IsValidIfAny bu
        → Step s (update reduce_extra react bu xu s).1
    fires :
        (s : Store T) (id : ℕ) → has s.pending id ≡ true → Step s (fire reduce_extra react id s).1
    stops : (s : Store T) → Step s (stop s)
    subscribes : (s : Store T) → Step s (subscribe s)
    unsubscribes : (s : Store T) (id : ℕ) → Step s (unsubscribe id s)

  pub data Reach (s : Store T) : Store T → Type 0 where
    here : Reach s s
    next : {t u : Store T} → Reach s t → Step t u → Reach s u

  Step-IsGood : {s t : Store T} → Step s t → IsGood s → IsGood t
  unfolding subscribe unsubscribe
  Step-IsGood (loads s base extra valid) good =
      load-IsGood reduce_extra react base extra s valid good
  Step-IsGood (updates s bu xu fresh) good = update-IsGood reduce_extra react bu xu s fresh good
  Step-IsGood (fires s id waiting) good = fire-IsGood reduce_extra react id s waiting good
  Step-IsGood (stops s) good = stop-IsGood s good
  Step-IsGood (subscribes s) good = good
  Step-IsGood (unsubscribes s id) good = good

  Reach-from : {s t : Store T} → IsGood s → Reach s t → IsGood t
  Reach-from good here = good
  Reach-from good (next r step) = Step-IsGood step (Reach-from good r)

  -- In every state that a new store can reach by its methods, with valid base states and updates, and by
  -- its timers, at most one timer is pending, and that one is the timer that the store remembers; and the
  -- store is either not loaded and has no state, or it is loaded with
  -- a base state from which its derived state is exactly the derived one.
  pub Reach-IsGood :
      (has_on_loaded : Bool) {s : Store T} → Reach (new_store has_on_loaded) s → IsGood s
  Reach-IsGood has_on_loaded r = Reach-from (inl refl, inl (refl, refl, refl)) r
