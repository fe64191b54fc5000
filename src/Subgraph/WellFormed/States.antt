-- ===== src/Subgraph/WellFormed/States.antt =====
-- The states of the system, entities/SystemState.ts: what is read as the current one, and what a new one
-- has to hold.
use stablecoin_sdk.Base.{inl, Bool-cases, inr, none, Option, ℕ, ◌≡◌, ◌∙◌, refl, sym, some}
use stablecoin_sdk.Subgraph.Numbers.{GraphNumbers, increment}
use stablecoin_sdk.Subgraph.Dict.{load-save, Dict, number_key, save, load-save_same, AreKeyed-save}
use stablecoin_sdk.Subgraph.Entities.{Global, StakeEntity, User, EntityStore, SystemState}
use stablecoin_sdk.Subgraph.Handler.{
  Keeps-reads, Keeps-bind, Keeps-saves, Keeps-pure, Keeps, reads, saves, ◌>>=◌,
}
use stablecoin_sdk.Subgraph.Global.{
  global_or_new, get_global, save_global, get_system_state_sequence_number,
}
use stablecoin_sdk.Subgraph.SystemState.{
  or_create, get_current_system_state, load_current, new_system_state, create_system_state,
  bump_system_state, save_system_state,
}
use stablecoin_sdk.Subgraph.WellFormed.{HasCurrent, Within}

module _ ⦃num : GraphNumbers⦄ where
  abbrev pub next_id : EntityStore → ℕ
  next_id s = (global_or_new s.global).system_state_count

  -- The store in which `state` is the newest state of the system.
  abbrev pub advanced : SystemState → EntityStore → EntityStore
  advanced state s =
      let g = global_or_new s.global in
      record s {
        global = some (record g {
          system_state_count = increment g.system_state_count;
          current_system_state = some state.sequence_number;
        });
        system_states = save s.system_states state.sequence_number state;
      }

  load_current-save :
      (states : Dict ℕ SystemState) (id : ℕ) (next : SystemState) (o : Option ℕ)
      (state : SystemState)
      → load_current states o ≡ some state
      → (found : SystemState) × (load_current (save states id next) o ≡ some found)
  unfolding load_current
  load_current-save states id next none state e = absurd (cc e)
  load_current-save states id next (some j) state e = elim (Bool-cases (number_key.same id j)) [
    | inl equal ↦ (next, rw (load-save states id j next, equal) refl)
    | inr differ ↦ (state, rw (load-save states id j next, differ) e)
  ]

  HasCurrent-save :
      (states : Dict ℕ SystemState) (id : ℕ) (next : SystemState) (g : Global)
      → HasCurrent states g
      → HasCurrent (save states id next) g
  HasCurrent-save states id next g (inl nothing) = inl nothing
  HasCurrent-save states id next g (inr (state, found)) =
      inr (load_current-save states id next g.current_system_state state found)

  pub create_lem :
      (s : EntityStore)
      → create_system_state s
        ≡ some (new_system_state (next_id s), advanced (new_system_state (next_id s)) s)
  unfolding create_system_state save_system_state get_system_state_sequence_number get_global
      save_global ◌>>=◌ reads saves
  create_lem s = refl

  pub bump_lem :
      (state : SystemState) (s : EntityStore)
      → bump_system_state state s
        ≡ some (tt, advanced (record state { sequence_number = next_id s }) s)
  unfolding bump_system_state save_system_state get_system_state_sequence_number get_global
      save_global ◌>>=◌ reads saves
  bump_lem state s = refl

  module _ {E : Dict ℕ User → Dict ℕ StakeEntity → Type 0} {dt : ℕ → num.BigInt} where
    Within-advanced :
        (state : SystemState) (s : EntityStore) → Within E dt s → Within E dt (advanced state s)
    unfolding load_current
    Within-advanced state s h = record {
      counted = h.counted;
      conserved = h.conserved;
      states_keyed =
          AreKeyed-save (λ x. x.sequence_number) s.system_states state.sequence_number state
            h.states_keyed refl;
      stakes_keyed = h.stakes_keyed;
      linked = h.linked;
      owned = h.owned;
      extra = h.extra;
      current = inr (state, load-save_same s.system_states state.sequence_number state);
    }

    pub Keeps-bump : (state : SystemState) → Keeps (Within E dt) (bump_system_state state)
    Keeps-bump state = record {
      at = λ s a t e h.
          let t≡ : advanced (record state { sequence_number = next_id s }) s ≡ t =
            cc (sym (bump_lem state s) ∙ e) in
          rw (← t≡) (Within-advanced (record state { sequence_number = next_id s }) s h);
    }

    Keeps-create_system_state : Keeps (Within E dt) create_system_state
    Keeps-create_system_state = record {
      at = λ s a t e h.
          let t≡ : advanced (new_system_state (next_id s)) s ≡ t = cc (sym (create_lem s) ∙ e) in
          rw (← t≡) (Within-advanced (new_system_state (next_id s)) s h);
    }

    found_or_created :
        (o : Option SystemState) → Keeps (Within E dt) (or_create create_system_state o)
    found_or_created (some state) = Keeps-pure state
    found_or_created none = Keeps-create_system_state

    pub Keeps-get_current_system_state : Keeps (Within E dt) get_current_system_state
    unfolding get_current_system_state get_global
    Keeps-get_current_system_state =
        Keeps-bind _ _ (Keeps-reads _) λ g. Keeps-bind _ _ (Keeps-reads _) found_or_created

    pub Keeps-save_system_state :
        (next : SystemState) → Keeps (Within E dt) (save_system_state next)
    unfolding save_system_state
    Keeps-save_system_state next = Keeps-saves _ λ s h. record {
      counted = h.counted;
      conserved = h.conserved;
      states_keyed =
          AreKeyed-save (λ x. x.sequence_number) s.system_states next.sequence_number next
            h.states_keyed refl;
      stakes_keyed = h.stakes_keyed;
      linked = h.linked;
      owned = h.owned;
      extra = h.extra;
      current =
          HasCurrent-save s.system_states next.sequence_number next (global_or_new s.global)
            h.current;
    }
