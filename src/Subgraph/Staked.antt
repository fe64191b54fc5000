-- ===== src/Subgraph/Staked.antt =====
-- What `updateStake` of entities/ProtocolTokenStake.ts does to the stakes.
use stablecoin_sdk.Subgraph.Numbers.{GraphNumbers, decimalize}
use stablecoin_sdk.Subgraph.Token.{Erc20}
use stablecoin_sdk.Subgraph.WellFormed.{with_extra, IsWellFormed}
use stablecoin_sdk.Subgraph.Mappings.{stake_changed, handle}
use stablecoin_sdk.Subgraph.Dict.{number_key, Dict, save, load-save, load, load-save_same}
use stablecoin_sdk.Subgraph.Entities.{Event, StakeEntity, EntityStore}
use stablecoin_sdk.Subgraph.WellFormed.Staking.{Leads-update_stake}
use stablecoin_sdk.Base.{ℕ, ◌≡◌, ◌≢◌, ◌∙◌, ◌==◌, sym, ap, refl, some, false, arith}

module _ ⦃num : GraphNumbers⦄ where
  -- The stake of one account is the given one, and that of another is as it was.
  abbrev Sets : ℕ → num.BigDecimal → ℕ → Dict ℕ StakeEntity → Dict ℕ StakeEntity → Type 0
  Sets staker amount other before after =
      (load after staker ≡ some (record { owner = staker; amount = amount }))
      × (load after other ≡ load before other)

  saved_stake :
      (staker other : ℕ) (amount : num.BigDecimal) (before stakes : Dict ℕ StakeEntity)
      (next : StakeEntity)
      → staker ≢ other
      → next.owner ≡ staker
      → next.amount ≡ amount
      → load stakes other ≡ load before other
      → Sets staker amount other before (save stakes next.owner next)
  saved_stake staker other amount before stakes next differ owner held kept =
      let same : next ≡ record { owner = staker; amount = amount } = rw (← owner, ← held) refl in
      let missed : (next.owner == other) ≡ false = ground arith in
      (
        ap (load (save stakes next.owner next)) (sym owner)
            ∙ load-save_same stakes next.owner next
            ∙ ap some same,
        load-save stakes next.owner other next ∙ rw missed kept,
      )

  -- Where the handler of a changed stake does not fail, from a well-formed store, the account's stake is
  -- in the store with its new amount, whether it was there before or is created, and the stake of every
  -- other account is as it was.
  pub stake_changed_sets :
      (erc20 : Erc20) (event : Event) (staker other : ℕ) (new_stake : num.BigInt)
      (s t : EntityStore)
      → IsWellFormed s
      → staker ≢ other
      → handle erc20 event (stake_changed staker new_stake) s ≡ some (tt, t)
      → (load t.protocol_token_stakes staker
          ≡ some (record { owner = staker; amount = decimalize new_stake }))
        × (load t.protocol_token_stakes other ≡ load s.protocol_token_stakes other)
  unfolding handle
  stake_changed_sets erc20 event staker other new_stake s t h differ done =
      ((Leads-update_stake {F = λ stakes. load stakes other ≡ load s.protocol_token_stakes other}
          {F' = Sets staker (decimalize new_stake) other s.protocol_token_stakes} event staker
          new_stake
          λ next stakes owner held kept.
            saved_stake staker other (decimalize new_stake) s.protocol_token_stakes stakes next
              differ owner held kept).at
        s tt t done (with_extra s h refl)).extra
