-- ===== src/Store/Timers.antt =====
-- The timers of the store, and what the calls of listeners leave alone.
use stablecoin_sdk.Base.{
  ℕ, ◌≡◌, ◌⊎◌, ◌∙◌, inl, inr, refl, true, some, List, [], ◌∷◌, arith, Bool-cases,
}
use stablecoin_sdk.Store.{
  Snapshot, notified, log_call, Store, without, has, Command, subscribe_new, unsubscribe_id,
  cancel_update_if_scheduled, schedule_update, stop, subscribe, unsubscribe, run_commands,
  notify_each, notify,
}

pub without_self : (id : ℕ) → without id (id ∷ []) ≡ []
unfolding without
without_self id = ground arith

module _ {T : Type 0} where
  -- No timer is pending, or one, which is the one that the store remembers.
  abbrev pub IsTimely : Store T → Type 0
  IsTimely s =
      (s.pending ≡ []) ⊎ ((id : ℕ) × (s.update_timeout_id ≡ some id) × (s.pending ≡ id ∷ []))

  -- What calls of listeners leave alone.
  abbrev pub SameCore : Store T → Store T → Type 0
  SameCore s t =
      (t.loaded ≡ s.loaded)
      × (t.base_state ≡ s.base_state)
      × (t.derived_state ≡ s.derived_state)
      × (t.extra_state ≡ s.extra_state)
      × (t.update_timeout_id ≡ s.update_timeout_id)
      × (t.pending ≡ s.pending)

  SameCore-trans : (s t u : Store T) → SameCore s t → SameCore t u → SameCore s u
  SameCore-trans s t u p q = (q.0 ∙ p.0, q.1 ∙ p.1, q.2 ∙ p.2, q.3 ∙ p.3, q.4 ∙ p.4, q.5 ∙ p.5)

  run_commands-SameCore : (cs : List Command) (s : Store T) → SameCore s (run_commands cs s)
  unfolding run_commands subscribe unsubscribe
  run_commands-SameCore [] s = (refl, refl, refl, refl, refl, refl)
  run_commands-SameCore (subscribe_new ∷ cs) s = run_commands-SameCore cs (subscribe s)
  run_commands-SameCore (unsubscribe_id id ∷ cs) s = run_commands-SameCore cs (unsubscribe id s)

  module _ (react : ℕ → List Command) where
    notify_each-SameCore :
        (ls : List ℕ) (new old : Snapshot T) (s : Store T)
        → SameCore s (notify_each react ls new old s)
    unfolding notify_each
    notify_each-SameCore [] new old s = (refl, refl, refl, refl, refl, refl)
    notify_each-SameCore (l ∷ ls) new old s = elim (Bool-cases (has s.listeners l)) [
      | inl listens ↦
          let called = log_call (notified l new old) s in
          rw (listens, notify_each)
            (SameCore-trans s (run_commands (react l) called)
              (notify_each react ls new old (run_commands (react l) called))
              (run_commands-SameCore (react l) called)
              (notify_each-SameCore ls new old (run_commands (react l) called)))
      | inr gone ↦ rw (gone, notify_each) (notify_each-SameCore ls new old s)
    ]

    pub notify-SameCore : (new old : Snapshot T) (s : Store T) → SameCore s (notify react new old s)
    unfolding notify
    notify-SameCore new old s = notify_each-SameCore s.listeners new old s

  pub cancel-nothing_pending :
      (s : Store T) → IsTimely s → (cancel_update_if_scheduled s).pending ≡ []
  unfolding cancel_update_if_scheduled without
  cancel-nothing_pending s (inl e) = ground arith
  cancel-nothing_pending s (inr (id, timeout, e)) = ground (arith, without_self id)

  -- The timer that runs out is the one that was pending.
  pub fired-nothing_pending :
      (s : Store T) (id : ℕ) → IsTimely s → has s.pending id ≡ true → without id s.pending ≡ []
  unfolding has without
  fired-nothing_pending s id (inl e) h = ground arith
  fired-nothing_pending s id (inr (id', timeout, e)) h = ground arith

  -- Where no timer is pending but the one that the store remembers, scheduling an update leaves exactly one timer pending, the new one, and stopping the store leaves
  -- none: an earlier timer is always cleared.
  pub schedule-one_pending :
      (s : Store T)
      → IsTimely s
      → ((schedule_update s).pending ≡ (cancel_update_if_scheduled s).next_timer ∷ [])
        × ((schedule_update s).update_timeout_id ≡ some (cancel_update_if_scheduled s).next_timer)
        × ((stop s).pending ≡ [])
  unfolding schedule_update stop
  schedule-one_pending s timely =
      (rw (cancel-nothing_pending s timely) refl, refl, cancel-nothing_pending s timely)
