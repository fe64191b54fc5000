-- ===== src/Subgraph/WellFormed.antt =====
-- What the handlers keep true of the store of entities.
pub mod Globals
pub mod States
pub mod Users
pub mod Changes
pub mod Records
pub mod Stakes
pub mod Staking
pub mod Troves
pub mod Tokens
pub mod Balances
pub mod Amounts
pub mod Transfers
pub mod Events
use stablecoin_sdk.Base.{◌⊎◌, ℕ, ◌+◌, ◌%◌, ◌≡◌, ◌==◌, Option, none, some, if◌then◌else◌}
use stablecoin_sdk.Subgraph.Numbers.{GraphNumbers}
use stablecoin_sdk.Subgraph.Dict.{AreKeyed, Dict, load, total, amount_or_zero, number_key, pair_key}
use stablecoin_sdk.Subgraph.Entities.{
  EntityStore, Global, SystemState, User, StakeEntity, TokenEntity, TokenBalance,
}
use stablecoin_sdk.Subgraph.Global.{global_or_new}
use stablecoin_sdk.Subgraph.SystemState.{load_current}

module _ ⦃num : GraphNumbers⦄ where
  -- Every trove that was counted has exactly one status; the counters wrap around.
  abbrev pub IsCounted : Global → Type 0
  IsCounted g =
      g.total_number_of_troves
      ≡ (g.number_of_open_troves + g.number_of_liquidated_troves + g.number_of_redeemed_troves
          + g.number_of_troves_closed_by_owner)
        % 4_294_967_296

  abbrev pub supply_of : Dict ℕ TokenEntity → ℕ → num.BigInt
  supply_of tokens address =
      amount_or_zero num.ints (λ e. e.1.total_supply) address (load tokens address)

  abbrev pub balance_of : ℕ → (ℕ × ℕ) × TokenBalance → num.BigInt
  balance_of address ((token, _), balance) =
      if token == address then balance.balance else num.ints.zero_of

  abbrev pub sum_of_balances : Dict (ℕ × ℕ) TokenBalance → ℕ → num.BigInt
  sum_of_balances balances address = total num.ints (balance_of address) balances

  -- The balances of each token add up to its supply and an offset.
  abbrev pub IsConserved :
      (ℕ → num.BigInt) → Dict ℕ TokenEntity → Dict (ℕ × ℕ) TokenBalance → Type 0
  IsConserved offset tokens balances =
      (address : ℕ)
      → sum_of_balances balances address ≡ num.ints.plus (supply_of tokens address) (offset address)

  abbrev pub current_state : Dict ℕ SystemState → Global → Option SystemState
  current_state states g = load_current states g.current_system_state

  -- The current state of the system, once there is one, is in the store.
  abbrev pub HasCurrent : Dict ℕ SystemState → Global → Type 0
  HasCurrent states g =
      (g.current_system_state ≡ none)
      ⊎ ((state : SystemState) × (current_state states g ≡ some state))

  -- A user is linked to no stake or to the one of the same id, and a stake has a user linked to it.
  abbrev pub AreLinked : Dict ℕ User → Type 0
  AreLinked users =
      (id : ℕ) (user : User)
      → load users id ≡ some user
      → (user.stake ≡ none) ⊎ (user.stake ≡ some id)

  abbrev pub AreOwned : Dict ℕ User → Dict ℕ StakeEntity → Type 0
  AreOwned users stakes =
      (id : ℕ) (stake : StakeEntity)
      → load stakes id ≡ some stake
      → (user : User) × (load users id ≡ some user) × (user.stake ≡ some id)

  -- `extra_of` is what else is known of the users and stakes between two steps of a handler.
  pub record IsWithin (extra_of : Dict ℕ User → Dict ℕ StakeEntity → Type 0)
      (tokens_offset : ℕ → num.BigInt) (g : Global) (states : Dict ℕ SystemState)
      (users : Dict ℕ User) (stakes : Dict ℕ StakeEntity) (tokens : Dict ℕ TokenEntity)
      (balances : Dict (ℕ × ℕ) TokenBalance) : Type 0 where
    pub counted : IsCounted g
    pub conserved : IsConserved tokens_offset tokens balances
    pub states_keyed : AreKeyed (λ state. state.sequence_number) states
    pub stakes_keyed : AreKeyed (λ stake. stake.owner) stakes
    pub linked : AreLinked users
    pub owned : AreOwned users stakes
    pub extra : extra_of users stakes
    pub current : HasCurrent states g

  -- Between two saves of a handler the balances may differ by what is still to be saved.
  abbrev pub Within :
      (Dict ℕ User → Dict ℕ StakeEntity → Type 0) → (ℕ → num.BigInt) → EntityStore → Type 0
  Within extra_of tokens_offset s =
      IsWithin extra_of tokens_offset (global_or_new s.global) s.system_states s.users
        s.protocol_token_stakes s.tokens s.token_balances

  pub with_extra :
      {E E' : Dict ℕ User → Dict ℕ StakeEntity → Type 0} {dt : ℕ → num.BigInt} (s : EntityStore)
      → Within E dt s
      → E' s.users s.protocol_token_stakes
      → Within E' dt s
  with_extra s h e = record {
    counted = h.counted;
    conserved = h.conserved;
    states_keyed = h.states_keyed;
    stakes_keyed = h.stakes_keyed;
    linked = h.linked;
    owned = h.owned;
    extra = e;
    current = h.current;
  }

  abbrev pub IsWellFormed : EntityStore → Type 0
  IsWellFormed = Within (λ _ _. Unit {0}) (λ _. num.ints.zero_of)
