-- ===== src/Subgraph/WellFormed/Amounts.antt =====
-- The amount of one balance while handlers read and save others.
use stablecoin_sdk.Subgraph.User.{save_user, get_user, new_user}
use stablecoin_sdk.Subgraph.Entities.{TokenEntity, User, EntityStore, TokenBalance}
use stablecoin_sdk.Subgraph.Handler.{
  Keeps-value_or_fail, ◌>>◌, Leads-reads, Leads-saves, reads, Keeps-reads, Keeps, Keeps-saves, pure,
  Keeps-pure, Leads-bind, Keeps-bind, Leads-pure, Leads,
}
use stablecoin_sdk.Subgraph.Numbers.{GraphNumbers, bigint_zero}
use stablecoin_sdk.Subgraph.WellFormed.Tokens.{amount_at, HasAmount}
use stablecoin_sdk.Subgraph.SystemState.{or_create}
use stablecoin_sdk.Subgraph.Token.{
  create_token_of_contract, get_token_balance, save_token, create_token, Erc20, get_token,
  save_token_balance, create_token_balance,
}
use stablecoin_sdk.Subgraph.Dict.{
  pair_same_iff, pair_key, number_key, pair_same, Dict, save, load-save, load,
}
use stablecoin_sdk.Base.{
  ℕ, ◌≡◌, ◌≢◌, ◌∙◌, refl, sym, ap, Bool, true, false, Option, none, some, Bool-cases, inl, inr,
  if◌then◌else◌, arith,
}

module _ ⦃num : GraphNumbers⦄ where
  amount-save :
      (balances : Dict (ℕ × ℕ) TokenBalance) (id other : ℕ × ℕ) (balance : TokenBalance)
      → amount_at (save balances id balance) other
        ≡ (if pair_same id other then balance.balance else amount_at balances other)
  unfolding amount_at
  amount-save balances id other balance = elim (Bool-cases (pair_same id other)) [
    | inl equal ↦ rw (load-save balances id other balance, equal) refl
    | inr differ ↦ rw (load-save balances id other balance, differ) refl
  ]

  -- A balance that is missing counts as zero, and is created as zero.
  Keeps-created_balance :
      (token owner other : ℕ) (amount : num.BigInt)
      → Leads
          (λ s. HasAmount token other amount s × (load s.token_balances (token, owner) ≡ none))
          (create_token_balance token owner)
          (λ balance s. HasAmount token other amount s)
  unfolding create_token_balance save_token_balance bigint_zero amount_at
  Keeps-created_balance token owner other amount =
      Leads-bind {R = λ _. HasAmount token other amount} _ _
        (Leads-saves _ λ s (h, missing).
          amount-save s.token_balances (token, owner) (token, other) _
          ∙ go s h missing (pair_same (token, owner) (token, other)) refl)
        λ _. Leads-pure _ λ s h. h
    where
      go :
          (s : EntityStore)
          → HasAmount token other amount s
          → load s.token_balances (token, owner) ≡ none
          → (hit : Bool) → pair_same (token, owner) (token, other) ≡ hit
          → (if hit then num.int_from_i32 0 else amount_at s.token_balances (token, other)) ≡ amount
      go s h missing false e = h
      go s h missing true e =
          let same : (token, owner) ≡ (token, other) =
            (pair_same_iff (token, owner) (token, other)).0 e in
          let nothing : load s.token_balances (token, other) ≡ none =
            ap (load s.token_balances) (sym same) ∙ missing in
          let held : num.ints.zero_of ≡ amount = rw nothing at h in num.zero_int_lem ∙ held

  Keeps-amount_get_user :
      (token other : ℕ) (amount : num.BigInt) (user : ℕ)
      → Keeps (HasAmount token other amount) (get_user user)
  unfolding get_user save_user
  Keeps-amount_get_user token other amount user = Keeps-bind _ _ (Keeps-reads _) go
    where
      go :
          (o : Option User)
          → Keeps
              (HasAmount token other amount)
              (or_create (save_user user new_user >> pure new_user) o)
      go none = Keeps-bind _ _ (Keeps-saves _ λ s h. h) λ _. Keeps-pure _
      go (some found) = Keeps-pure found

  pub Keeps-amount_get_token :
      (erc20 : Erc20) (token other : ℕ) (amount : num.BigInt) (address : ℕ)
      → Keeps (HasAmount token other amount) (get_token erc20 address)
  unfolding get_token create_token_of_contract create_token save_token
  Keeps-amount_get_token erc20 token other amount address = Keeps-bind _ _ (Keeps-reads _) go
    where
      go :
          (o : Option TokenEntity)
          → Keeps
              (HasAmount token other amount)
              (or_create (create_token_of_contract erc20 address) o)
      go none = Keeps-bind _ _ (Keeps-value_or_fail _) λ name.
          Keeps-bind _ _ (Keeps-value_or_fail _)
            λ symbol. Keeps-bind _ _ (Keeps-saves _ λ s h. h) λ _. Keeps-pure _
      go (some found) = Keeps-pure found

  pub Keeps-amount_get_balance :
      (token owner other : ℕ) (amount : num.BigInt)
      → Keeps (HasAmount token other amount) (get_token_balance token owner)
  unfolding get_token_balance
  Keeps-amount_get_balance token owner other amount =
      Keeps-bind _ _ (Keeps-amount_get_user token other amount owner) λ u.
        Leads-bind
          {R = λ o s. HasAmount token other amount s × (load s.token_balances (token, owner) ≡ o)}
          (reads λ s. load s.token_balances (token, owner)) _ (Leads-reads _ λ s h. (h, refl)) go
    where
      go :
          (o : Option TokenBalance)
          → Leads
              (λ s. HasAmount token other amount s × (load s.token_balances (token, owner) ≡ o))
              (or_create (create_token_balance token owner) o)
              (λ balance. HasAmount token other amount)
      go none = Keeps-created_balance token owner other amount
      go (some balance) = Leads-pure balance λ s h. h.0

  pub Leads-amount_get_balance :
      (token owner : ℕ) (amount : num.BigInt)
      → Leads
          (HasAmount token owner amount)
          (get_token_balance token owner)
          (λ balance s. balance.balance ≡ amount)
  unfolding get_token_balance create_token_balance save_token_balance bigint_zero amount_at
  Leads-amount_get_balance token owner amount =
      Leads-bind _ _ (Keeps-amount_get_user token owner amount owner) λ u.
        Leads-bind
          {R = λ o s. HasAmount token owner amount s × (load s.token_balances (token, owner) ≡ o)}
          (reads λ s. load s.token_balances (token, owner)) _ (Leads-reads _ λ s h. (h, refl)) go
    where
      go :
          (o : Option TokenBalance)
          → Leads
              (λ s. HasAmount token owner amount s × (load s.token_balances (token, owner) ≡ o))
              (or_create (create_token_balance token owner) o)
              (λ balance s. balance.balance ≡ amount)
      go none =
          Leads-bind {R = λ _ s. num.ints.zero_of ≡ amount} _ _
            (Leads-saves _ λ s (h, missing). rw missing at h)
            λ _. Leads-pure _ λ s h. num.zero_int_lem ∙ h
      go (some balance) = Leads-pure balance λ s (h, found). rw found at h

  pub Keeps-amount_save_balance :
      (token owner other : ℕ) (amount : num.BigInt) (balance : TokenBalance)
      → owner ≢ other
      → Keeps (HasAmount token other amount) (save_token_balance (token, owner) balance)
  unfolding save_token_balance
  Keeps-amount_save_balance token owner other amount balance differ = Keeps-saves _ λ s h.
      let missed : pair_same (token, owner) (token, other) ≡ false = ground arith in
      amount-save s.token_balances (token, owner) (token, other) balance ∙ rw missed h

  pub Leads-amount_save_balance :
      {P : EntityStore → Type 0} (token owner : ℕ) (balance : TokenBalance)
      → Leads P
          (save_token_balance (token, owner) balance)
          (λ _. HasAmount token owner balance.balance)
  unfolding save_token_balance
  Leads-amount_save_balance token owner balance = Leads-saves _ λ s h.
      let found : pair_same (token, owner) (token, owner) ≡ true = ground arith in
      amount-save s.token_balances (token, owner) (token, owner) balance ∙ rw found refl
