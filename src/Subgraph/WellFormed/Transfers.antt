-- ===== src/Subgraph/WellFormed/Transfers.antt =====
-- Transfers and approvals, `updateBalance` and `updateAllowance`.
use stablecoin_sdk.Subgraph.WellFormed.Balances.{
  zero-plus, minted_offset, Keeps-supply_save_balance, received_offset, Leads-get_token_balance,
  nothing_offset, Keeps-supply_balance, halfway, Leads-get_token,
}
use stablecoin_sdk.Subgraph.WellFormed.Changes.{Keeps-or_create}
use stablecoin_sdk.Subgraph.WellFormed.{Within}
use stablecoin_sdk.Subgraph.Dict.{pair_key, number_key}
use stablecoin_sdk.Subgraph.Token.{
  update_allowance, get_token_allowance, increase_balance, save_token_allowance, update_balance,
  decrease_balance, decrease_supply, create_token_allowance, increase_supply, get_token_balance,
  Erc20,
}
use stablecoin_sdk.Subgraph.Entities.{Event, TokenEntity}
use stablecoin_sdk.Subgraph.Numbers.{GraphNumbers}
use stablecoin_sdk.Subgraph.Handler.{
  Leads-to, Leads-and, Leads-if, Leads-from, Keeps, Leads-bind, Leads-pure, Keeps-bind, Keeps-reads,
  Leads, Keeps-pure, Keeps-saves,
}
use stablecoin_sdk.Subgraph.WellFormed.Records.{Keeps-get_user, AnyUsers}
use stablecoin_sdk.Subgraph.WellFormed.Tokens.{
  minus_lem, Leads-save_balance, HasSupply, Leads-save_token, negated,
}
use stablecoin_sdk.Base.{ℕ, ◌==◌, refl}

module _ ⦃num : GraphNumbers⦄ where
  Leads-decrease_balance :
      (token sender : ℕ) (amount value : num.BigInt)
      → Leads
          (λ s. Within AnyUsers nothing_offset s × HasSupply token amount s)
          (decrease_balance token sender value)
          (λ _ s. Within AnyUsers (halfway token value) s × HasSupply token amount s)
  unfolding decrease_balance
  Leads-decrease_balance token sender amount value =
      Leads-bind (get_token_balance token sender) _
        (Leads-and (Leads-get_token_balance token sender)
          (Keeps-supply_balance token amount token sender))
        λ balance.
          Leads-to (λ _ s h. (h.0.0, h.1))
            (Leads-and
              (Leads-save_balance token sender balance.balance
                (record balance { balance = num.ints.minus balance.balance value }) (negated value)
                (minus_lem balance.balance value) λ other. zero-plus (halfway token value other))
              (Keeps-supply_save_balance token amount _ _))

  Leads-increase_balance :
      (token recipient : ℕ) (value : num.BigInt)
      → Leads
          (Within AnyUsers (halfway token value))
          (increase_balance token recipient value)
          (λ _. Within AnyUsers nothing_offset)
  unfolding increase_balance
  Leads-increase_balance token recipient value =
      Leads-bind (get_token_balance token recipient) _ (Leads-get_token_balance token recipient)
        λ balance.
          Leads-to (λ _ s h. h.0)
            (Leads-save_balance token recipient balance.balance
              (record balance { balance = num.ints.plus balance.balance value }) value refl
              λ other. received_offset (token == other) value)

  Leads-increase_supply :
      (address : ℕ) (token : TokenEntity) (value : num.BigInt)
      → Leads
          (λ s. Within AnyUsers nothing_offset s × HasSupply address token.total_supply s)
          (increase_supply address token value)
          (λ token' s.
            Within AnyUsers (halfway address value) s × HasSupply address token'.total_supply s)
  unfolding increase_supply
  Leads-increase_supply address token value =
      Leads-bind _ _
        (Leads-save_token address token.total_supply
          (record token { total_supply = num.ints.plus token.total_supply value }) value refl
          λ other. minted_offset (address == other) value)
        λ _. Leads-pure _ λ s h. h

  Leads-decrease_supply :
      (address : ℕ) (token : TokenEntity) (value : num.BigInt)
      → Leads
          (λ s. Within AnyUsers (halfway address value) s × HasSupply address token.total_supply s)
          (decrease_supply address token value)
          (λ _. Within AnyUsers nothing_offset)
  unfolding decrease_supply
  Leads-decrease_supply address token value =
      Leads-to (λ _ s h. h.0)
        (Leads-save_token address token.total_supply
          (record token { total_supply = num.ints.minus token.total_supply value }) (negated value)
          (minus_lem token.total_supply value)
          λ other. num.ints.plus-zero (halfway address value other))

  pub Keeps-update_balance :
      (erc20 : Erc20) (event : Event) (sender recipient : ℕ) (value : num.BigInt)
      → Keeps (Within AnyUsers nothing_offset) (update_balance erc20 event sender recipient value)
  unfolding update_balance
  Keeps-update_balance erc20 event sender recipient value =
      Leads-bind _ _ (Leads-get_token erc20 event.address) λ token.
        Leads-bind
          {R = λ token' s.
            Within AnyUsers (halfway event.address value) s
            × HasSupply event.address token'.total_supply s}
          _ _
          (Leads-if _ _ _ (Leads-increase_supply event.address token value) (
            Leads-bind _ _ (Leads-decrease_balance event.address sender token.total_supply value)
              λ _. Leads-pure token λ s h. h))
          λ token'.
            Leads-if _ _ _ (Leads-decrease_supply event.address token' value)
              (Leads-from (λ s h. h.0) (Leads-increase_balance event.address recipient value))

  pub Keeps-update_allowance :
      {dt : ℕ → num.BigInt} (event : Event) (owner spender : ℕ) (value : num.BigInt)
      → Keeps (Within AnyUsers dt) (update_allowance event owner spender value)
  unfolding update_allowance get_token_allowance create_token_allowance save_token_allowance
  Keeps-update_allowance event owner spender value =
      Keeps-bind _ _
        (Keeps-bind _ _ (Keeps-get_user owner) λ u. Keeps-bind _ _ (Keeps-get_user spender) λ v.
          Keeps-bind _ _ (Keeps-reads _)
            λ o. Keeps-or_create _ o (Keeps-bind _ _ (Keeps-saves _ λ s h. h) λ _. Keeps-pure _))
        λ allowance. Keeps-saves _ λ s h. h
