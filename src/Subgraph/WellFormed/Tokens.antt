-- ===== src/Subgraph/WellFormed/Tokens.antt =====
-- The tokens and the balances, entities/Token.ts, TokenBalance.ts and TokenAllowance.ts.
use stablecoin_sdk.Subgraph.Handler.{Leads-saves, Leads}
use stablecoin_sdk.Subgraph.WellFormed.Records.{AnyUsers}
use stablecoin_sdk.Subgraph.Token.{save_token_balance, save_token}
use stablecoin_sdk.Subgraph.Numbers.{GraphNumbers, plus-cancel_right}
use stablecoin_sdk.Subgraph.Dict.{
  pair_key, load-save_same, number_key, amount_or_zero, Dict, load, save, total-save, load-save,
}
use stablecoin_sdk.Subgraph.Entities.{EntityStore, TokenBalance, TokenEntity}
use stablecoin_sdk.Subgraph.WellFormed.{Within, balance_of, supply_of, sum_of_balances}
use stablecoin_sdk.Base.{
  ℕ, ◌≡◌, ◌∙◌, ◌==◌, sym, ap, Bool, true, false, Option, none, some, Bool-cases, inl, inr,
  if◌then◌else◌, arith,
}

module _ ⦃num : GraphNumbers⦄ where
  unfoldable pub negated : num.BigInt → num.BigInt
  negated v = num.ints.minus num.ints.zero_of v

  -- An amount for one token, and nothing for the others.
  abbrev pub only_for : ℕ → num.BigInt → ℕ → num.BigInt
  only_for token amount address = if token == address then amount else num.ints.zero_of

  pub minus_lem : (a v : num.BigInt) → num.ints.minus a v ≡ num.ints.plus a (negated v)
  unfolding negated
  minus_lem a v = plus-cancel_right num.ints (num.ints.minus a v) (num.ints.plus a (negated v)) v (
      num.ints.minus-plus a v
      ∙ sym (num.ints.plus-zero a)
      ∙ ap (num.ints.plus a) (sym (num.ints.minus-plus num.ints.zero_of v))
      ∙ sym (num.ints.plus_assoc a (negated v) v))

  pub plus-negated : (a v : num.BigInt) → num.ints.plus (num.ints.plus a v) (negated v) ≡ a
  plus-negated a v = sym (minus_lem (num.ints.plus a v) v) ∙ num.ints.plus-minus a v

  pub negated-plus : (a v : num.BigInt) → num.ints.plus (num.ints.plus a (negated v)) v ≡ a
  negated-plus a v = ap (λ x. num.ints.plus x v) (sym (minus_lem a v)) ∙ num.ints.minus-plus a v

  supply-save :
      (tokens : Dict ℕ TokenEntity) (id : ℕ) (token : TokenEntity) (d : num.BigInt)
      → token.total_supply ≡ num.ints.plus (supply_of tokens id) d
      → (address : ℕ)
      → supply_of (save tokens id token) address
        ≡ num.ints.plus (supply_of tokens address) (only_for id d address)
  supply-save tokens id token d e address = elim (Bool-cases (id == address)) [
    | inl equal ↦
        let id≡ : id ≡ address = ground arith in
        rw (load-save tokens id address token, equal, ← id≡) e
    | inr differ ↦
        rw (load-save tokens id address token, differ)
          (sym (num.ints.plus-zero (supply_of tokens address)))
  ]

  unfoldable pub amount_at : Dict (ℕ × ℕ) TokenBalance → ℕ × ℕ → num.BigInt
  amount_at balances id =
      amount_or_zero num.ints (λ (e : (ℕ × ℕ) × TokenBalance). e.1.balance) id (load balances id)

  balance-save :
      (balances : Dict (ℕ × ℕ) TokenBalance) (token owner : ℕ) (balance : TokenBalance)
      (d : num.BigInt)
      → balance.balance ≡ num.ints.plus (amount_at balances (token, owner)) d
      → (address : ℕ)
      → sum_of_balances (save balances (token, owner) balance) address
        ≡ num.ints.plus (sum_of_balances balances address) (only_for token d address)
  unfolding amount_at
  balance-save balances token owner balance d e address =
      plus-cancel_right num.ints (sum_of_balances (save balances (token, owner) balance) address)
        (num.ints.plus (sum_of_balances balances address) (only_for token d address))
        (amount_or_zero num.ints (balance_of address) (token, owner) (load balances (token, owner)))
        (total-save num.ints (balance_of address) balances (token, owner) balance
          ∙ ap (num.ints.plus (sum_of_balances balances address))
              (go (load balances (token, owner)) e (token == address))
          ∙ sym (
              num.ints.plus_assoc (sum_of_balances balances address) (only_for token d address) (
                amount_or_zero num.ints (balance_of address) (token, owner)
                  (load balances (token, owner)))))
    where
      if_hit : Bool → num.BigInt → num.BigInt
      if_hit hit n = if hit then n else num.ints.zero_of

      go :
          (o : Option TokenBalance)
          → balance.balance
            ≡ num.ints.plus
                (amount_or_zero num.ints
                  (λ (e : (ℕ × ℕ) × TokenBalance). e.1.balance)
                  (token, owner)
                  o)
                d
          → (hit : Bool)
          → if_hit hit balance.balance
            ≡ num.ints.plus (if_hit hit d) (
                amount_or_zero num.ints
                  (λ (e : (ℕ × ℕ) × TokenBalance). if_hit hit e.1.balance)
                  (token, owner)
                  o)
      go none e true = e ∙ num.ints.plus_comm num.ints.zero_of d
      go (some old) e true = e ∙ num.ints.plus_comm old.balance d
      go none e false = sym (num.ints.plus-zero num.ints.zero_of)
      go (some old) e false = sym (num.ints.plus-zero num.ints.zero_of)

  abbrev pub HasSupply : ℕ → num.BigInt → EntityStore → Type 0
  HasSupply id amount s = supply_of s.tokens id ≡ amount

  abbrev pub HasAmount : ℕ → ℕ → num.BigInt → EntityStore → Type 0
  HasAmount token owner amount s = amount_at s.token_balances (token, owner) ≡ amount

  -- A change of the supply, and one of a balance, with the offset that they leave.
  pub Leads-save_token :
      {dt dt' : ℕ → num.BigInt} (id : ℕ) (old : num.BigInt) (token : TokenEntity) (d : num.BigInt)
      → token.total_supply ≡ num.ints.plus old d
      → ((address : ℕ) → num.ints.plus (only_for id d address) (dt' address) ≡ dt address)
      → Leads
          (λ s. Within AnyUsers dt s × HasSupply id old s)
          (save_token id token)
          (λ _ s. Within AnyUsers dt' s × HasSupply id token.total_supply s)
  unfolding save_token
  Leads-save_token {dt} {dt'} id old token d e offset = Leads-saves _ λ s (h, found). (
    record {
      counted = h.counted;
      conserved = λ address.
          h.conserved address
          ∙ ap (num.ints.plus (supply_of s.tokens address)) (sym (offset address))
          ∙ sym (
              num.ints.plus_assoc (supply_of s.tokens address) (only_for id d address)
                (dt' address))
          ∙ ap (λ x. num.ints.plus x (dt' address))
              (sym (supply-save s.tokens id token d (rw found e) address));
      states_keyed = h.states_keyed;
      stakes_keyed = h.stakes_keyed;
      linked = h.linked;
      owned = h.owned;
      extra = h.extra;
      current = h.current;
    },
    ap (amount_or_zero num.ints (λ (e : ℕ × TokenEntity). e.1.total_supply) id)
        (load-save_same s.tokens id token),
  )

  pub Leads-save_balance :
      {dt dt' : ℕ → num.BigInt} (token owner : ℕ) (old : num.BigInt) (balance : TokenBalance)
      (d : num.BigInt)
      → balance.balance ≡ num.ints.plus old d
      → ((address : ℕ) → num.ints.plus (dt address) (only_for token d address) ≡ dt' address)
      → Leads
          (λ s. Within AnyUsers dt s × HasAmount token owner old s)
          (save_token_balance (token, owner) balance)
          (λ _ s. Within AnyUsers dt' s × HasAmount token owner balance.balance s)
  unfolding save_token_balance amount_at
  Leads-save_balance {dt} {dt'} token owner old balance d e offset = Leads-saves _ λ s (h, found). (
    record {
      counted = h.counted;
      conserved = λ address.
          balance-save s.token_balances token owner balance d (rw found e) address
          ∙ ap (λ x. num.ints.plus x (only_for token d address)) (h.conserved address)
          ∙ num.ints.plus_assoc (supply_of s.tokens address) (dt address) (only_for token d address)
          ∙ ap (num.ints.plus (supply_of s.tokens address)) (offset address);
      states_keyed = h.states_keyed;
      stakes_keyed = h.stakes_keyed;
      linked = h.linked;
      owned = h.owned;
      extra = h.extra;
      current = h.current;
    },
    ap (amount_or_zero num.ints (λ (e : (ℕ × ℕ) × TokenBalance). e.1.balance) (token, owner))
        (load-save_same s.token_balances (token, owner) balance),
  )
