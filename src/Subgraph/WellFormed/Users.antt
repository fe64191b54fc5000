-- ===== src/Subgraph/WellFormed/Users.antt =====
-- The users, entities/User.ts.
use stablecoin_sdk.Base.{ℕ, ◌≡◌, ◌∙◌, ◌⊎◌, refl, sym, ap, Option, none, some, Bool-cases, inl, inr}
use stablecoin_sdk.Subgraph.Numbers.{GraphNumbers}
use stablecoin_sdk.Subgraph.Dict.{Dict, number_key, load, save, load-save, load-save_same}
use stablecoin_sdk.Subgraph.Entities.{User, StakeEntity}
use stablecoin_sdk.Subgraph.Handler.{
  Leads, Leads-bind, Leads-pure, Leads-reads, Leads-saves, ◌>>◌, reads, pure,
}
use stablecoin_sdk.Subgraph.SystemState.{or_create}
use stablecoin_sdk.Subgraph.User.{get_user, save_user, new_user}
use stablecoin_sdk.Subgraph.WellFormed.{Within, AreLinked, AreOwned}

module _ ⦃num : GraphNumbers⦄ where
  -- A saved user is linked to what the user was linked to, or newly to the stake of the same id.
  abbrev pub IsLink : ℕ → Option User → User → Type 0
  IsLink id none user = user.stake ≡ none
  IsLink id (some old) user = (user.stake ≡ old.stake) ⊎ (user.stake ≡ some id)

  AreLinked-save :
      (users : Dict ℕ User) (id : ℕ) (user : User)
      → AreLinked users
      → IsLink id (load users id) user
      → AreLinked (save users id user)
  AreLinked-save users id user linked link j found e = elim (Bool-cases (number_key.same id j)) [
    | inl equal ↦
        let id≡j : id ≡ j = (number_key.same_iff id j).0 equal in
        let hit : load (save users id user) j ≡ some user =
          rw (load-save users id j user, equal) refl in
        let same : user ≡ found = cc in rw (← same, ← id≡j) (go (load users id) refl link)
    | inr differ ↦
        let miss : load (save users id user) j ≡ load users j =
          rw (load-save users id j user, differ) refl in
        linked j found (sym miss ∙ e)
  ]
    where
      go :
          (o : Option User)
          → load users id ≡ o
          → IsLink id o user
          → (user.stake ≡ none) ⊎ (user.stake ≡ some id)
      go none e link = inl link
      go (some old) e (inr link) = inr link
      go (some old) e (inl link) = elim (linked id old e) [
        | inl nothing ↦ inl (link ∙ nothing)
        | inr own ↦ inr (link ∙ own)
      ]

  AreOwned-save_user :
      (users : Dict ℕ User) (stakes : Dict ℕ StakeEntity) (id : ℕ) (user : User)
      → AreOwned users stakes
      → IsLink id (load users id) user
      → AreOwned (save users id user) stakes
  AreOwned-save_user users stakes id user owned link j stake e =
      let (owner, found, own) = owned j stake e in
      elim (Bool-cases (number_key.same id j)) [
        | inl equal ↦
            let id≡j : id ≡ j = (number_key.same_iff id j).0 equal in
            let hit : load (save users id user) j ≡ some user =
              rw (load-save users id j user, equal) refl in
            (user, hit, go (load users id) link (ap (load users) id≡j ∙ found) id≡j own)
        | inr differ ↦
            let miss : load (save users id user) j ≡ load users j =
              rw (load-save users id j user, differ) refl in
            (owner, miss ∙ found, own)
      ]
    where
      go :
          {owner : User} (o : Option User)
          → IsLink id o user
          → o ≡ some owner
          → id ≡ j
          → owner.stake ≡ some j
          → user.stake ≡ some j
      go none link e same own = absurd (cc e)
      go (some old) (inr link) e same own = link ∙ ap some same
      go {owner} (some old) (inl link) e same own =
          let old≡ : old ≡ owner = cc in link ∙ ap (λ u. u.stake) old≡ ∙ own

  module _ {E : Dict ℕ User → Dict ℕ StakeEntity → Type 0} {dt : ℕ → num.BigInt} where
    pub Leads-resave_user :
        (id : ℕ) (old user : User)
        → IsLink id (some old) user
        → ((users : Dict ℕ User) (stakes : Dict ℕ StakeEntity)
            → E users stakes
            → E (save users id user) stakes)
        → Leads
            (λ s. Within E dt s × (load s.users id ≡ some old))
            (save_user id user)
            (λ _ s. Within E dt s × (load s.users id ≡ some user))
    unfolding save_user
    Leads-resave_user id old user link extra =
        Leads-saves (λ s. record s { users = save s.users id user })
          λ s (h, found).
            let link' : IsLink id (load s.users id) user = rw found link in
            (
              record {
                counted = h.counted;
                conserved = h.conserved;
                states_keyed = h.states_keyed;
                stakes_keyed = h.stakes_keyed;
                linked = AreLinked-save s.users id user h.linked link';
                owned = AreOwned-save_user s.users s.protocol_token_stakes id user h.owned link';
                extra = extra s.users s.protocol_token_stakes h.extra;
                current = h.current;
              },
              load-save_same s.users id user,
            )

    found_or_new :
        (id : ℕ) (o : Option User)
        → ((users : Dict ℕ User) (stakes : Dict ℕ StakeEntity)
            → load users id ≡ none
            → E users stakes
            → E (save users id new_user) stakes)
        → Leads
            (λ s. Within E dt s × (load s.users id ≡ o))
            (or_create (save_user id new_user >> pure new_user) o)
            (λ user s. Within E dt s × (load s.users id ≡ some user))
    unfolding save_user
    found_or_new id (some user) extra = Leads-pure user λ s h. h
    found_or_new id none extra =
        Leads-bind {R = λ _ s. Within E dt s × (load s.users id ≡ some new_user)}
          (save_user id new_user) (λ _. pure new_user)
          (Leads-saves (λ s. record s { users = save s.users id new_user })
            λ s (h, missing).
              let link : IsLink id (load s.users id) new_user = rw missing refl in
              (
                record {
                  counted = h.counted;
                  conserved = h.conserved;
                  states_keyed = h.states_keyed;
                  stakes_keyed = h.stakes_keyed;
                  linked = AreLinked-save s.users id new_user h.linked link;
                  owned =
                      AreOwned-save_user s.users s.protocol_token_stakes id new_user h.owned link;
                  extra = extra s.users s.protocol_token_stakes missing h.extra;
                  current = h.current;
                },
                load-save_same s.users id new_user,
              ))
          λ _. Leads-pure new_user λ s h. h

    pub Leads-get_user :
        (id : ℕ)
        → ((users : Dict ℕ User) (stakes : Dict ℕ StakeEntity)
            → load users id ≡ none
            → E users stakes
            → E (save users id new_user) stakes)
        → Leads
            (Within E dt)
            (get_user id)
            (λ user s. Within E dt s × (load s.users id ≡ some user))
    unfolding get_user
    Leads-get_user id extra =
        Leads-bind (reads λ s. load s.users id) _
          (Leads-reads (λ s. load s.users id) λ s h. (h, refl)) λ o. found_or_new id o extra
