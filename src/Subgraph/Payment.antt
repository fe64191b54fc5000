-- ===== src/Subgraph/Payment.antt =====
-- What a payment does to the two balances, `updateBalance` of entities/TokenBalance.ts.
use stablecoin_sdk.Subgraph.WellFormed.Amounts.{
  Leads-amount_save_balance, Leads-amount_get_balance, Keeps-amount_get_balance,
  Keeps-amount_get_token, Keeps-amount_save_balance,
}
use stablecoin_sdk.Subgraph.Mappings.{transfer, handle}
use stablecoin_sdk.Subgraph.Totality.{IsNameless, transfer-cases}
use stablecoin_sdk.Subgraph.Entities.{Event, EntityStore, TokenBalance}
use stablecoin_sdk.Subgraph.Handler.{Leads-else, Keeps, Leads-bind, Keeps-bind, Leads-pure, Leads}
use stablecoin_sdk.Subgraph.Numbers.{GraphNumbers}
use stablecoin_sdk.Subgraph.WellFormed.Tokens.{amount_at, HasAmount}
use stablecoin_sdk.Subgraph.Token.{
  update_balance, zero_address, increase_balance, decrease_balance, Erc20,
}
use stablecoin_sdk.Subgraph.Dict.{pair_key, number_key}
use stablecoin_sdk.Base.{inl, inr, ◌==◌, ℕ, ◌≡◌, ◌≢◌, ◌∙◌, refl, sym, ap, false, some, arith}

module _ ⦃num : GraphNumbers⦄ where
  Leads-amount_decrease :
      (token sender : ℕ) (amount value : num.BigInt)
      → Leads
          (HasAmount token sender amount)
          (decrease_balance token sender value)
          (λ _. HasAmount token sender (num.ints.minus amount value))
  unfolding decrease_balance
  Leads-amount_decrease token sender amount value =
      Leads-bind _ _ (Leads-amount_get_balance token sender amount) λ balance.
        let next : TokenBalance = record balance {
          balance = num.ints.minus balance.balance value;
        } in
        record {
          at = λ s a t e h.
              (Leads-amount_save_balance {P = λ _. balance.balance ≡ amount} token sender next).at s
                a t e h
              ∙ ap (λ x. num.ints.minus x value) h;
        }

  Keeps-amount_decrease :
      (token sender other : ℕ) (amount value : num.BigInt)
      → sender ≢ other
      → Keeps (HasAmount token other amount) (decrease_balance token sender value)
  unfolding decrease_balance
  Keeps-amount_decrease token sender other amount value differ =
      Keeps-bind _ _ (Keeps-amount_get_balance token sender other amount)
        λ balance. Keeps-amount_save_balance token sender other amount _ differ

  Leads-amount_increase :
      (token recipient : ℕ) (amount value : num.BigInt)
      → Leads
          (HasAmount token recipient amount)
          (increase_balance token recipient value)
          (λ _. HasAmount token recipient (num.ints.plus amount value))
  unfolding increase_balance
  Leads-amount_increase token recipient amount value =
      Leads-bind _ _ (Leads-amount_get_balance token recipient amount) λ balance.
        let next : TokenBalance = record balance {
          balance = num.ints.plus balance.balance value;
        } in
        record {
          at = λ s a t e h.
              (Leads-amount_save_balance {P = λ _. balance.balance ≡ amount} token recipient
                  next).at
                s a t e h
              ∙ ap (λ x. num.ints.plus x value) h;
        }

  Keeps-amount_increase :
      (token recipient other : ℕ) (amount value : num.BigInt)
      → recipient ≢ other
      → Keeps (HasAmount token other amount) (increase_balance token recipient value)
  unfolding increase_balance
  Keeps-amount_increase token recipient other amount value differ =
      Keeps-bind _ _ (Keeps-amount_get_balance token recipient other amount)
        λ balance. Keeps-amount_save_balance token recipient other amount _ differ

  -- What holds of one account before and after a payment.
  Leads-payment :
      (erc20 : Erc20) (event : Event) (sender recipient account : ℕ) (value : num.BigInt)
      (before between after : num.BigInt)
      → (sender == zero_address) ≡ false
      → (recipient == zero_address) ≡ false
      → Leads
          (HasAmount event.address account before)
          (decrease_balance event.address sender value)
          (λ _. HasAmount event.address account between)
      → Leads
          (HasAmount event.address account between)
          (increase_balance event.address recipient value)
          (λ _. HasAmount event.address account after)
      → Leads
          (HasAmount event.address account before)
          (update_balance erc20 event sender recipient value)
          (λ _. HasAmount event.address account after)
  unfolding update_balance
  Leads-payment erc20 event sender recipient account value before between after paid received first
        second =
      Leads-bind _ _ (Keeps-amount_get_token erc20 event.address account before event.address)
        λ token.
          Leads-bind {R = λ _. HasAmount event.address account between} _ _
            (Leads-else _ _ _ paid (Leads-bind _ _ first λ _. Leads-pure token λ s h. h))
            λ token'. Leads-else _ _ _ received second

  named_transfer :
      (erc20 : Erc20) (event : Event) (sender recipient : ℕ) (value : num.BigInt) (s : EntityStore)
      → ¬ IsNameless erc20 event.address s
      → (t : EntityStore) × (handle erc20 event (transfer sender recipient value) s ≡ some (tt, t))
  named_transfer erc20 event sender recipient value s named =
      elim (transfer-cases erc20 event sender recipient value s) [
        | inl (failed, nameless) ↦ absurd (named nameless)
        | inr ((_, t, done), _) ↦ (t, done)
      ]

  abbrev pub held_by : EntityStore → ℕ → ℕ → num.BigInt
  held_by s token owner = amount_at s.token_balances (token, owner)

  -- A payment between two different accounts, neither of them the zero address, succeeds if the token is
  -- in the store or the contract answers the calls of `name` and `symbol`. It takes the value from the sender's balance and adds it to the recipient's, where an account without a
  -- balance counts as one of zero, and it leaves every other account's balance of the token.
  pub payment_moves :
      (erc20 : Erc20) (event : Event) (sender recipient other : ℕ) (value : num.BigInt)
      (s : EntityStore)
      → ¬ IsNameless erc20 event.address s
      → sender ≢ zero_address
      → recipient ≢ zero_address
      → sender ≢ recipient
      → sender ≢ other
      → recipient ≢ other
      → (t : EntityStore) × (handle erc20 event (transfer sender recipient value) s ≡ some (tt, t))
        × (held_by t event.address sender ≡ num.ints.minus (held_by s event.address sender) value)
        × (held_by t event.address recipient
            ≡ num.ints.plus (held_by s event.address recipient) value)
        × (held_by t event.address other ≡ held_by s event.address other)
  unfolding handle
  payment_moves erc20 event sender recipient other value s named from to apart apart1 apart2 =
      let paid : (sender == zero_address) ≡ false = ground arith in
      let received : (recipient == zero_address) ≡ false = ground arith in
      let token = event.address in
      let (t, done) = named_transfer erc20 event sender recipient value s named in
      (
        t,
        done,
        (Leads-payment erc20 event sender recipient sender value _ _ _ paid received
              (Leads-amount_decrease token sender (held_by s token sender) value)
              (Keeps-amount_increase token recipient sender _ value λ e. apart (sym e))).at
            s tt t done refl,
        (Leads-payment erc20 event sender recipient recipient value _ _ _ paid received
              (Keeps-amount_decrease token sender recipient (held_by s token recipient) value apart)
              (Leads-amount_increase token recipient _ value)).at
            s tt t done refl,
        (Leads-payment erc20 event sender recipient other value _ _ _ paid received
              (Keeps-amount_decrease token sender other (held_by s token other) value apart1)
              (Keeps-amount_increase token recipient other _ value apart2)).at
            s tt t done refl,
      )
