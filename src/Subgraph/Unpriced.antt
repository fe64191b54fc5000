-- ===== src/Subgraph/Unpriced.antt =====
-- Before the first price event no change of a trove can be recorded.
use stablecoin_sdk.Subgraph.Trove.{
  update_trove, new_trove, apply_trove_update, get_trove, create_trove,
}
use stablecoin_sdk.Subgraph.Change.{
  get_transaction, create_change, begin_change, init_change, create_transaction,
}
use stablecoin_sdk.Subgraph.User.{get_user, save_user}
use stablecoin_sdk.Subgraph.Numbers.{decimalize, GraphNumbers, increment}
use stablecoin_sdk.Subgraph.Dict.{number_key, load, load-save_same}
use stablecoin_sdk.Subgraph.WellFormed.{current_state}
use stablecoin_sdk.Subgraph.WellFormed.States.{create_lem, next_id, advanced}
use stablecoin_sdk.Subgraph.SystemState.{
  load_current, get_current_system_state, or_create, new_system_state, get_current_price,
  create_system_state,
}
use stablecoin_sdk.Subgraph.Global.{
  get_change_sequence_number, increase_number_of_open_troves, get_transaction_sequence_number,
  get_global, global_or_new, save_global,
}
use stablecoin_sdk.Subgraph.Handler.{
  Leads-else, pure, Leads-to, Keeps-reads, Keeps-bind, Keeps-value_or_fail, Keeps-saves, Keeps-pure,
  ◌>>◌, ◌>>=◌, Leads-reads, Leads-saves, Handler, Leads-pure, Leads-value_or_fail, Keeps, Leads,
  reads, Leads-bind,
}
use stablecoin_sdk.Subgraph.Entities.{
  TroveOperation, TroveEntity, Event, EntityStore, SystemState, Global,
}
use stablecoin_sdk.Base.{◌&&◌, Bool, ℕ, ◌≡◌, ◌∙◌, refl, sym, ap, true, false, Option, none, some}

module _ ⦃num : GraphNumbers⦄ where
  -- The current state of the system, if there is one, has no price.
  abbrev pub HasNoPrice : EntityStore → Type 0
  HasNoPrice s =
      (state : SystemState)
      → current_state s.system_states (global_or_new s.global) ≡ some state
      → state.price ≡ none

  Unpriced-save_global :
      (f : Global → Global)
      → ((g : Global) → (f g).current_system_state ≡ g.current_system_state)
      → {A : Type 0} (next : Global → Handler A) → ((g : Global) → Keeps HasNoPrice (next g))
      → Keeps HasNoPrice (get_global >>= λ g. save_global (f g) >> next g)
  unfolding get_global save_global
  Unpriced-save_global f tame next keeps =
      Leads-bind {R = λ g s. HasNoPrice s × (g ≡ global_or_new s.global)} get_global
        (λ g. save_global (f g) >> next g)
        (Leads-reads (λ s. global_or_new s.global) λ s h. (h, refl))
        λ g.
          Leads-bind (save_global (f g)) (λ _. next g)
            (Leads-saves (λ s. record s { global = some (f g) })
              λ s (h, e) state found. h state (go s g e ∙ found))
            λ _. keeps g
    where
      go :
          (s : EntityStore) (g : Global)
          → g ≡ global_or_new s.global
          → current_state s.system_states (global_or_new s.global)
            ≡ current_state s.system_states (f g)
      go s g e =
          ap (λ x. load_current s.system_states x.current_system_state) (sym e)
          ∙ ap (load_current s.system_states) (sym (tame g))

  Leads-unpriced_state :
      Leads HasNoPrice get_current_system_state λ state s. HasNoPrice s × (state.price ≡ none)
  unfolding get_current_system_state get_global load_current
  Leads-unpriced_state =
      Leads-bind {R = λ g s. HasNoPrice s × (g ≡ global_or_new s.global)} get_global _
        (Leads-reads (λ s. global_or_new s.global) λ s h. (h, refl))
        λ g.
          Leads-bind
            {R = λ o s. HasNoPrice s × (current_state s.system_states (global_or_new s.global) ≡ o)}
            (reads λ s. current_state s.system_states g) _
            (Leads-reads (λ s. current_state s.system_states g) λ s h. (h.0, rw h.1 refl)) go
    where
      go :
          (o : Option SystemState)
          → Leads
              (λ s. HasNoPrice s × (current_state s.system_states (global_or_new s.global) ≡ o))
              (or_create create_system_state o)
              (λ state s. HasNoPrice s × (state.price ≡ none))
      go (some state) = Leads-pure state λ s (h, found). (h, h state found)
      go none = record {
        at = λ s a t e h.
            let state≡ : new_system_state (next_id s) ≡ a = cc (sym (create_lem s) ∙ e) in
            let t≡ : advanced (new_system_state (next_id s)) s ≡ t = cc (sym (create_lem s) ∙ e) in
            rw (← state≡, ← t≡)
              (
                λ state found.
                    let same : new_system_state (next_id s) ≡ state = cc (
                      sym
                        (load-save_same s.system_states (next_id s) (new_system_state (next_id s)))
                      ∙ found) in
                    ap (λ x. x.price) (sym same),
                refl,
              );
      }

  -- Reading the price fails.
  Fails-get_current_price :
      {Q : num.BigDecimal → EntityStore → Type 0} → Leads HasNoPrice get_current_price Q
  unfolding get_current_price
  Fails-get_current_price =
      Leads-bind _ _ Leads-unpriced_state
        λ state. Leads-value_or_fail state.price λ price found s h. absurd (cc (sym h.1 ∙ found))

  Unpriced-or_create :
      {V : Type 0} (create : Handler V) (o : Option V)
      → Keeps HasNoPrice create
      → Keeps HasNoPrice (or_create create o)
  Unpriced-or_create create none keeps = keeps
  Unpriced-or_create create (some v) keeps = Keeps-pure v

  Unpriced-create_change : (event : Event) → Keeps HasNoPrice (create_change event)
  unfolding create_change begin_change init_change get_transaction create_transaction
      get_change_sequence_number get_transaction_sequence_number
  Unpriced-create_change event =
      Keeps-bind _ _
        (Unpriced-save_global (λ g. record g { change_count = increment g.change_count })
          (λ g. refl) _ λ g. Keeps-pure _)
        λ n.
          Keeps-bind _ _
            (Keeps-bind _ _ (Keeps-reads _) λ o. Unpriced-or_create _ o (
              Keeps-bind _ _
                (Unpriced-save_global
                  (λ g. record g { transaction_count = increment g.transaction_count }) (λ g. refl)
                  _ λ g. Keeps-pure _)
                λ n. Keeps-bind _ _ (Keeps-value_or_fail _) λ b.
                  Keeps-bind _ _ (Keeps-value_or_fail _)
                    λ t. Keeps-bind _ _ (Keeps-saves _ λ s h. h) λ _. Keeps-pure _))
            λ t.
              Leads-bind _ _ (Leads-to (λ state s h. h.0) Leads-unpriced_state)
                λ before. Keeps-pure _

  Unpriced-get_user : (address : ℕ) → Keeps HasNoPrice (get_user address)
  unfolding get_user save_user
  Unpriced-get_user address =
      Keeps-bind _ _ (Keeps-reads _)
        λ o. Unpriced-or_create _ o (Keeps-bind _ _ (Keeps-saves _ λ s h. h) λ _. Keeps-pure _)

  abbrev given : ℕ → Option TroveEntity → TroveEntity
  given borrower none = new_trove borrower
  given borrower (some trove) = trove

  -- The trove that `getTrove` gives: that of the store, or a new one.
  abbrev pub trove_or_new : EntityStore → ℕ → TroveEntity
  trove_or_new s borrower = given borrower (load s.troves borrower)

  Unpriced-open_troves : Keeps HasNoPrice increase_number_of_open_troves
  unfolding increase_number_of_open_troves get_global save_global
  Unpriced-open_troves =
      Leads-bind {R = λ g s. HasNoPrice s × (g ≡ global_or_new s.global)} _ _
        (Leads-reads (λ s. global_or_new s.global) λ s h. (h, refl))
        λ g. Leads-saves _ λ s h state found. h.0 state (go s g h.1 ∙ found)
    where
      go :
          (s : EntityStore) (g : Global)
          → g ≡ global_or_new s.global
          → current_state s.system_states (global_or_new s.global) ≡ current_state s.system_states g
      go s g e = ap (λ x. load_current s.system_states x.current_system_state) (sym e)

  Unpriced-create_trove :
      (borrower : ℕ)
      → Leads HasNoPrice
          (create_trove borrower)
          λ trove s. HasNoPrice s × (trove ≡ new_trove borrower)
  unfolding create_trove save_user
  Unpriced-create_trove borrower = Leads-bind _ _ (Unpriced-get_user borrower) λ owner.
      Leads-bind {R = λ _. HasNoPrice} _ _ Unpriced-open_troves λ _.
        Leads-bind {R = λ _. HasNoPrice} _ _ (Keeps-saves _ λ s h. h)
          λ _. Leads-pure _ λ s h. (h, refl)

  Unpriced-get_trove :
      (borrower : ℕ) (trove : TroveEntity)
      → Leads
          (λ s. HasNoPrice s × (trove_or_new s borrower ≡ trove))
          (get_trove borrower)
          (λ found s. HasNoPrice s × (found ≡ trove))
  unfolding get_trove
  Unpriced-get_trove borrower trove =
      Leads-bind {R = λ o s. HasNoPrice s × (given borrower o ≡ trove)} _ _ (Leads-reads _ λ s h. h)
        go
    where
      go :
          (o : Option TroveEntity)
          → Leads
              (λ s. HasNoPrice s × (given borrower o ≡ trove))
              (or_create (create_trove borrower) o)
              (λ found s. HasNoPrice s × (found ≡ trove))
      go (some found) = Leads-pure found λ s h. h
      go none = record {
        at = λ s a t e h.
            let (kept, new) = (Unpriced-create_trove borrower).at s a t e h.0 in (kept, new ∙ h.1);
      }

  Fails-apply_trove_update :
      {Q : Unit {0} → EntityStore → Type 0} (event : Event) (operation : TroveOperation)
      (global : Global) (trove : TroveEntity) (coll debt stake : num.BigInt)
      → Leads HasNoPrice (apply_trove_update event operation global trove coll debt stake) Q
  unfolding apply_trove_update
  Fails-apply_trove_update event operation global trove coll debt stake =
      Leads-bind _ _ (Unpriced-create_change event) λ change.
        Leads-bind {R = λ _ _. true ≡ false} _ _ Fails-get_current_price
          λ price. record { at = λ s a t e h. absurd (cc h) }

  -- Whether an update has the amounts that the trove has already.
  abbrev pub is_same_trove : TroveEntity → num.BigInt → num.BigInt → Bool
  is_same_trove trove coll debt =
      num.decimal_eq (decimalize coll) trove.collateral
      && num.decimal_eq (decimalize debt) trove.debt

  Leads-unpriced_update :
      (event : Event) (operation : TroveOperation) (borrower : ℕ) (trove : TroveEntity)
      (coll debt stake : num.BigInt)
      → is_same_trove trove coll debt ≡ false
      → Leads
          (λ s. HasNoPrice s × (trove_or_new s borrower ≡ trove))
          (update_trove event operation borrower coll debt stake)
          (λ _ _. true ≡ false)
  unfolding update_trove get_global
  Leads-unpriced_update event operation borrower trove coll debt stake differ =
      Leads-bind {R = λ _ s. HasNoPrice s × (trove_or_new s borrower ≡ trove)} _ _
        (Leads-reads _ λ s h. h)
        λ global. Leads-bind _ _ (Unpriced-get_trove borrower trove) λ found. record {
          at = λ s a t e h.
              (Leads-else {Q = λ _ _. true ≡ false} (is_same_trove found coll debt) (pure tt)
                  (apply_trove_update event operation global found coll debt stake)
                  (ap (λ x. is_same_trove x coll debt) h.1 ∙ differ)
                  (Fails-apply_trove_update event operation global found coll debt stake)).at
                s a t e h.0;
        }

  never :
      (o : Option (Unit {0} × EntityStore))
      → ((a : Unit {0}) (t : EntityStore) → o ≡ some (a, t) → true ≡ false)
      → o ≡ none
  never none h = refl
  never (some (a, t)) h = absurd (cc (h a t refl))

  -- As long as the current system state has no price, an update of a trove fails, whatever its operation, if
  -- its collateral or its debt differs from the stored one, or from zero where no trove is stored.
  pub unpriced_update_fails :
      (event : Event) (operation : TroveOperation) (borrower : ℕ) (coll debt stake : num.BigInt)
      (s : EntityStore)
      → HasNoPrice s
      → is_same_trove (trove_or_new s borrower) coll debt ≡ false
      → update_trove event operation borrower coll debt stake s ≡ none
  unpriced_update_fails event operation borrower coll debt stake s unpriced differ =
      never (update_trove event operation borrower coll debt stake s) λ a t e.
        (Leads-unpriced_update event operation borrower (trove_or_new s borrower) coll debt stake
            differ).at
          s a t e (unpriced, refl)
