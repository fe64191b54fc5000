-- ===== src/Subgraph/WellFormed/Records.antt =====
-- The handlers of users, frontends, liquidations and redemptions: entities/User.ts, Frontend.ts,
-- Liquidation.ts and Redemption.ts.
use stablecoin_sdk.Subgraph.Dict.{number_key, Dict, load}
use stablecoin_sdk.Subgraph.Numbers.{GraphNumbers, decimalize}
use stablecoin_sdk.Subgraph.SystemState.{update_system_state_by_coll_surplus_change}
use stablecoin_sdk.Subgraph.WellFormed.Users.{Leads-resave_user, Leads-get_user}
use stablecoin_sdk.Subgraph.WellFormed.States.{Keeps-get_current_system_state, Keeps-bump}
use stablecoin_sdk.Subgraph.User.{
  coll_surplus_change_of, save_user, assign_frontend_to_depositor, get_user, update_user_claim_coll,
  register_frontend, finish_coll_surplus_change, save_liquidation, record_coll_surplus,
  create_redemption, finish_current_redemption, create_liquidation, get_current_redemption,
  assign_if_registered, get_current_liquidation, save_redemption, finish_current_liquidation,
}
use stablecoin_sdk.Subgraph.WellFormed.Globals.{
  Keeps-get_liquidation_sequence_number, Keeps-change_global, Keeps-get_global,
  Keeps-get_redemption_sequence_number,
}
use stablecoin_sdk.Subgraph.Entities.{StakeEntity, FrontendEntity, CollSurplusChange, User, Event}
use stablecoin_sdk.Subgraph.WellFormed.Changes.{
  Keeps-get_transaction, Keeps-create_change, Keeps-finish_change, Keeps-or_create,
}
use stablecoin_sdk.Subgraph.Handler.{
  Leads-bind, Keeps-saves, Keeps-reads, Keeps-pure, Keeps, Leads, Leads-to, Leads-from, Leads-pure,
  Keeps-bind, Leads-if,
}
use stablecoin_sdk.Subgraph.Change.{create_change}
use stablecoin_sdk.Subgraph.WellFormed.{Within, with_extra}
use stablecoin_sdk.Base.{ℕ, ◌≡◌, refl, Option, none, some, inl}

module _ ⦃num : GraphNumbers⦄ where
  -- Nothing more is known of the users and the stakes.
  abbrev pub AnyUsers : Dict ℕ User → Dict ℕ StakeEntity → Type 0
  AnyUsers users stakes = Unit {0}

  -- A user is remembered between two steps.
  abbrev pub HasUser : ℕ → User → Dict ℕ User → Dict ℕ StakeEntity → Type 0
  HasUser id user users stakes = load users id ≡ some user

  module _ {dt : ℕ → num.BigInt} where
    pub Leads-recall_user :
        (id : ℕ) → Leads (Within AnyUsers dt) (get_user id) λ user. Within (HasUser id user) dt
    Leads-recall_user id =
        Leads-to (λ user s h. with_extra s h.0 h.1) (Leads-get_user id λ users stakes missing e. e)

    pub Keeps-get_user : (id : ℕ) → Keeps (Within AnyUsers dt) (get_user id)
    Keeps-get_user id = Leads-to (λ user s h. h.0) (Leads-get_user id λ users stakes missing e. e)

    pub Leads-resave_recalled :
        (id : ℕ) (old user : User)
        → user.stake ≡ old.stake
        → Leads (Within (HasUser id old) dt) (save_user id user) (λ _. Within AnyUsers dt)
    Leads-resave_recalled id old user link =
        Leads-from (λ s h. (with_extra s h tt, h.extra))
          (Leads-to (λ _ s h. h.0) (Leads-resave_user id old user (inl link) λ users stakes e. e))

    pub Keeps-register_frontend :
        (owner : ℕ) (rate : num.BigInt) → Keeps (Within AnyUsers dt) (register_frontend owner rate)
    unfolding register_frontend
    Keeps-register_frontend owner rate =
        Keeps-bind _ _ (Keeps-get_user owner) λ user. Keeps-saves _ λ s h. h

    pub Keeps-assign_frontend :
        (depositor frontend : ℕ)
        → Keeps (Within AnyUsers dt) (assign_frontend_to_depositor depositor frontend)
    unfolding assign_frontend_to_depositor
    Keeps-assign_frontend depositor frontend = Keeps-bind _ _ (Keeps-reads _) λ o. go o
      where
        go :
            (o : Option FrontendEntity)
            → Keeps (Within AnyUsers dt) (assign_if_registered depositor frontend o)
        go none = Keeps-pure tt
        go (some registered) =
            Leads-bind (get_user depositor) _ (Leads-recall_user depositor) λ user.
              Leads-resave_recalled depositor user (record user { frontend = some frontend }) refl

    Keeps-create_liquidation :
        (event : Event) → Keeps (Within AnyUsers dt) (create_liquidation event)
    unfolding create_liquidation save_liquidation
    Keeps-create_liquidation event = Keeps-bind _ _ Keeps-get_liquidation_sequence_number λ n.
        Keeps-bind _ _ (Keeps-get_transaction event) λ _.
          Keeps-bind _ _ (Keeps-get_user event.transaction_from) λ _.
            Keeps-bind _ _ (Keeps-saves _ λ s h. h)
              λ _. Keeps-bind _ _ (Keeps-change_global _ λ g. (refl, λ h. h)) λ _. Keeps-pure _

    pub Keeps-get_current_liquidation :
        (event : Event) → Keeps (Within AnyUsers dt) (get_current_liquidation event)
    unfolding get_current_liquidation
    Keeps-get_current_liquidation event = Keeps-bind _ _ Keeps-get_global λ g.
        Keeps-bind _ _ (Keeps-reads _) λ o. Keeps-or_create _ o (Keeps-create_liquidation event)

    pub Keeps-finish_current_liquidation :
        (event : Event) (coll debt coll_compensation debt_compensation : num.BigInt)
        → Keeps
            (Within AnyUsers dt)
            (finish_current_liquidation event coll debt coll_compensation debt_compensation)
    unfolding finish_current_liquidation save_liquidation
    Keeps-finish_current_liquidation event coll debt coll_compensation debt_compensation =
        Keeps-bind _ _ (Keeps-get_current_liquidation event) λ liquidation.
          Keeps-bind _ _ (Keeps-saves _ λ s h. h) λ _. Keeps-change_global _ λ g. (refl, λ h. h)

    Keeps-create_redemption : (event : Event) → Keeps (Within AnyUsers dt) (create_redemption event)
    unfolding create_redemption save_redemption
    Keeps-create_redemption event = Keeps-bind _ _ Keeps-get_redemption_sequence_number λ n.
        Keeps-bind _ _ (Keeps-get_transaction event) λ _.
          Keeps-bind _ _ (Keeps-get_user event.transaction_from) λ _.
            Keeps-bind _ _ (Keeps-saves _ λ s h. h)
              λ _. Keeps-bind _ _ (Keeps-change_global _ λ g. (refl, λ h. h)) λ _. Keeps-pure _

    pub Keeps-get_current_redemption :
        (event : Event) → Keeps (Within AnyUsers dt) (get_current_redemption event)
    unfolding get_current_redemption
    Keeps-get_current_redemption event =
        Keeps-bind _ _ Keeps-get_global λ g.
          Keeps-bind _ _ (Keeps-reads _) λ o. Keeps-or_create _ o (Keeps-create_redemption event)

    pub Keeps-finish_current_redemption :
        (event : Event) (attempted actual fil_sent fil_fee : num.BigInt)
        → Keeps
            (Within AnyUsers dt)
            (finish_current_redemption event attempted actual fil_sent fil_fee)
    unfolding finish_current_redemption save_redemption
    Keeps-finish_current_redemption event attempted actual fil_sent fil_fee =
        Keeps-bind _ _ (Keeps-get_current_redemption event) λ redemption.
          Keeps-bind _ _ (Keeps-saves _ λ s h. h) λ _. Keeps-change_global _ λ g. (refl, λ h. h)

    Keeps-finish_coll_surplus_change :
        {E : Dict ℕ User → Dict ℕ StakeEntity → Type 0} (entity : CollSurplusChange)
        → Keeps (Within E dt) (finish_coll_surplus_change entity)
    unfolding finish_coll_surplus_change
    Keeps-finish_coll_surplus_change entity =
        Keeps-bind _ _ (Keeps-finish_change entity.change) λ change. Keeps-saves _ λ s h. h

    Keeps-coll_surplus_state :
        {E : Dict ℕ User → Dict ℕ StakeEntity → Type 0} (change : CollSurplusChange)
        → Keeps (Within E dt) (update_system_state_by_coll_surplus_change change)
    unfolding update_system_state_by_coll_surplus_change
    Keeps-coll_surplus_state change =
        Keeps-bind _ _ Keeps-get_current_system_state λ state. Keeps-bump _

  module _ {dt : ℕ → num.BigInt} where
    Leads-record_coll_surplus :
        (event : Event) (borrower : ℕ) (user : User) (amount : num.BigDecimal)
        → Leads
            (Within (HasUser borrower user) dt)
            (record_coll_surplus event borrower user amount)
            (λ _. Within AnyUsers dt)
    unfolding record_coll_surplus
    Leads-record_coll_surplus event borrower user amount =
        Leads-bind (create_change event) _ (Keeps-create_change event) λ change.
          let entity = coll_surplus_change_of change borrower user amount in
          Leads-bind (update_system_state_by_coll_surplus_change entity) _
            (Keeps-coll_surplus_state entity)
            λ _.
              Leads-bind (finish_coll_surplus_change entity) _
                (Keeps-finish_coll_surplus_change entity)
                λ _.
                  Leads-resave_recalled borrower user (record user { coll_surplus = amount }) refl

    pub Keeps-update_user_claim_coll :
        (event : Event) (borrower : ℕ) (coll_surplus : num.BigInt)
        → Keeps (Within AnyUsers dt) (update_user_claim_coll event borrower coll_surplus)
    unfolding update_user_claim_coll
    Keeps-update_user_claim_coll event borrower coll_surplus =
        Leads-bind (get_user borrower) _ (Leads-recall_user borrower) λ user.
          Leads-if _ _ _ (Leads-pure tt λ s h. with_extra s h tt)
            (Leads-record_coll_surplus event borrower user (decimalize coll_surplus))
