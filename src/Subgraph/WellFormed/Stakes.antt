-- ===== src/Subgraph/WellFormed/Stakes.antt =====
-- The stakes, entities/ProtocolTokenStake.ts.
use stablecoin_sdk.Subgraph.WellFormed.Users.{Leads-resave_user, Leads-get_user}
use stablecoin_sdk.Subgraph.Entities.{User, EntityStore, StakeEntity}
use stablecoin_sdk.Subgraph.Numbers.{GraphNumbers, decimal_zero}
use stablecoin_sdk.Subgraph.User.{save_user, get_user}
use stablecoin_sdk.Subgraph.SystemState.{load_current, or_create}
use stablecoin_sdk.Subgraph.Stake.{create_stake, get_user_stake}
use stablecoin_sdk.Subgraph.Dict.{number_key, save, number_key, Dict, load, load-save}
use stablecoin_sdk.Subgraph.Handler.{
  ◌>>=◌, Leads-pure, Handler, Leads-reads, Leads-bind, Leads, Leads-from,
}
use stablecoin_sdk.Subgraph.WellFormed.{AreLinked, Within, AreOwned, with_extra}
use stablecoin_sdk.Subgraph.WellFormed.Records.{HasUser}
use stablecoin_sdk.Base.{ℕ, ◌≡◌, ◌∙◌, refl, sym, ap, Option, none, some, Bool-cases, inl, inr}

module _ ⦃num : GraphNumbers⦄ where
  -- The stake that a handler holds is that of its user in the store, or a new one of the user.
  abbrev pub IsStake : ℕ → StakeEntity → Dict ℕ User → Dict ℕ StakeEntity → Type 0
  IsStake id stake users stakes =
      ((user : User) × (load users id ≡ some user) × (user.stake ≡ some id)) × (stake.owner ≡ id)

  -- Following the user's link finds the stake of the same id.
  link_lem :
      (id : ℕ) (user : User) (users : Dict ℕ User) (stakes : Dict ℕ StakeEntity)
      → load users id ≡ some user
      → AreLinked users
      → AreOwned users stakes
      → load_current stakes user.stake ≡ load stakes id
  unfolding load_current
  link_lem id user users stakes found linked owned = elim (linked id user found) [
    | inl nothing ↦ rw nothing (go (load stakes id) refl nothing)
    | inr own ↦ rw own refl
  ]
    where
      go : (o : Option StakeEntity) → load stakes id ≡ o → user.stake ≡ none → none ≡ o
      go none e nothing = refl
      go (some stake) e nothing =
          let (owner, found', own) = owned id stake e in
          let same : owner ≡ user = cc in
          absurd (cc (sym nothing ∙ ap (λ u. u.stake) (sym same) ∙ own))

  linked_lem :
      (id : ℕ) (user : User) (users : Dict ℕ User) (stakes : Dict ℕ StakeEntity)
      (stake : StakeEntity)
      → load users id ≡ some user
      → AreLinked users
      → load_current stakes user.stake ≡ some stake
      → user.stake ≡ some id
  unfolding load_current
  linked_lem id user users stakes stake found linked e = elim (linked id user found) [
    | inl nothing ↦
        let missing : load_current stakes user.stake ≡ none = rw nothing refl in
        absurd (cc (sym missing ∙ e))
    | inr own ↦ own
  ]

  pub AreOwned-save_stake :
      (users : Dict ℕ User) (stakes : Dict ℕ StakeEntity) (id : ℕ) (stake : StakeEntity)
      → AreOwned users stakes
      → ((user : User) × (load users id ≡ some user) × (user.stake ≡ some id))
      → AreOwned users (save stakes id stake)
  AreOwned-save_stake users stakes id stake owned own j found e =
      elim (Bool-cases (number_key.same id j)) [
        | inl equal ↦ let id≡j : id ≡ j = (number_key.same_iff id j).0 equal in rw (← id≡j) own
        | inr differ ↦
            let miss : load (save stakes id stake) j ≡ load stakes j =
              rw (load-save stakes id j stake, differ) refl in
            owned j found (sym miss ∙ e)
      ]

  -- What else is known of the stakes.
  abbrev pub Beside :
      (Dict ℕ User → Dict ℕ StakeEntity → Type 0)
      → (Dict ℕ StakeEntity → Type 0)
      → Dict ℕ User
      → Dict ℕ StakeEntity
      → Type 0
  Beside E F users stakes = E users stakes × F stakes

  module _ {dt : ℕ → num.BigInt} {F : Dict ℕ StakeEntity → Type 0} where
    Leads-create_stake :
        (id : ℕ)
        → Leads
            (Within (λ _. F) dt)
            (create_stake id)
            (λ stake. Within (Beside (IsStake id stake) F) dt)
    unfolding create_stake decimal_zero
    Leads-create_stake id =
        Leads-bind (get_user id) _ (Leads-get_user id λ users stakes missing e. e) λ user.
          Leads-bind (save_user id (record user { stake = some id })) _
            (Leads-resave_user id user (record user { stake = some id }) (inr refl)
              λ users stakes e. e)
            λ _.
              Leads-pure (record { owner = id; amount = decimal_zero })
                λ s (h, saved).
                  with_extra s h (((record user { stake = some id }, saved, refl), refl), h.extra)

    found_stake :
        (id : ℕ) (user : User) (o : Option StakeEntity)
        → Leads
            (λ s.
              Within (Beside (HasUser id user) F) dt s
              × (load_current s.protocol_token_stakes user.stake ≡ o))
            (or_create (create_stake id) o)
            (λ stake. Within (Beside (IsStake id stake) F) dt)
    found_stake id user none =
        Leads-from (λ s h. with_extra s h.0 h.0.extra.1) (Leads-create_stake id)
    found_stake id user (some stake) = Leads-pure stake λ s (h, found).
        let own =
          linked_lem id user s.users s.protocol_token_stakes stake h.extra.0 h.linked found in
        let there : load s.protocol_token_stakes id ≡ some stake =
          sym (link_lem id user s.users s.protocol_token_stakes h.extra.0 h.linked h.owned)
          ∙ found in
        with_extra s h (((user, h.extra.0, own), h.stakes_keyed id stake there), h.extra.1)

    -- The stake that both handlers start from.
    pub Leads-get_or_create_stake :
        {B : Type 0} {Q : B → EntityStore → Type 0} (id : ℕ)
        (next : Option StakeEntity → StakeEntity → Handler B)
        → ((o : Option StakeEntity) (stake : StakeEntity)
            → Leads (Within (Beside (IsStake id stake) F) dt) (next o stake) Q)
        → Leads
            (Within (λ _. F) dt)
            (get_user_stake id >>= λ o. or_create (create_stake id) o >>= next o)
            Q
    unfolding get_user_stake
    Leads-get_or_create_stake id next leads =
        Leads-bind
          {R = λ o s.
            (user : User) × Within (Beside (HasUser id user) F) dt s
            × (load_current s.protocol_token_stakes user.stake ≡ o)}
          (get_user_stake id) _
          (Leads-bind (get_user id) _ (Leads-get_user id λ users stakes missing e. e)
            λ user. Leads-reads _ λ s (h, found). (user, with_extra s h (found, h.extra), refl))
          λ o.
            Leads-bind {R = λ stake. Within (Beside (IsStake id stake) F) dt}
              (or_create (create_stake id) o) _
              (record {
                at = λ s a t e (user, h, found). (found_stake id user o).at s a t e (h, found);
              })
              (leads o)
