-- ===== src/Subgraph/WellFormed/Balances.antt =====
-- Reading a token and a balance, and what a half of a transfer leaves to the other.
use stablecoin_sdk.Subgraph.WellFormed.{Within}
use stablecoin_sdk.Subgraph.Dict.{pair_key, number_key, load}
use stablecoin_sdk.Subgraph.Token.{
  create_token_of_contract, get_token, save_token_balance, get_token_balance, Erc20, create_token,
  create_token_balance,
}
use stablecoin_sdk.Subgraph.User.{get_user, new_user, save_user}
use stablecoin_sdk.Subgraph.SystemState.{or_create}
use stablecoin_sdk.Subgraph.Entities.{TokenBalance, TokenEntity, User}
use stablecoin_sdk.Subgraph.Numbers.{GraphNumbers, bigint_zero}
use stablecoin_sdk.Subgraph.Handler.{
  Leads-value_or_fail, ◌>>◌, Leads-reads, Leads-from, Keeps, pure, Leads-bind, reads, Leads-pure,
  Keeps-bind, Keeps-reads, Leads, Keeps-pure, Keeps-saves,
}
use stablecoin_sdk.Subgraph.WellFormed.Records.{Keeps-get_user, AnyUsers}
use stablecoin_sdk.Subgraph.WellFormed.Tokens.{
  HasAmount, Leads-save_balance, plus-negated, HasSupply, amount_at, Leads-save_token, only_for,
  negated,
}
use stablecoin_sdk.Base.{
  ℕ, ◌≡◌, ◌∙◌, ◌==◌, refl, sym, ap, Bool, true, false, Option, none, some, if◌then◌else◌,
}

module _ ⦃num : GraphNumbers⦄ where
  abbrev pub nothing_offset : ℕ → num.BigInt
  nothing_offset address = num.ints.zero_of

  -- What the first half of a transfer leaves to the second.
  abbrev pub halfway : ℕ → num.BigInt → ℕ → num.BigInt
  halfway token value = only_for token (negated value)

  pub minted_offset :
      (hit : Bool) (v : num.BigInt)
      → num.ints.plus
          (if hit then v else num.ints.zero_of)
          (if hit then negated v else num.ints.zero_of)
        ≡ num.ints.zero_of
  minted_offset true v =
      ap (λ x. num.ints.plus x (negated v))
        (sym (num.ints.plus-zero v) ∙ num.ints.plus_comm v num.ints.zero_of)
      ∙ plus-negated num.ints.zero_of v
  minted_offset false v = num.ints.plus-zero num.ints.zero_of

  pub received_offset :
      (hit : Bool) (v : num.BigInt)
      → num.ints.plus
          (if hit then negated v else num.ints.zero_of)
          (if hit then v else num.ints.zero_of)
        ≡ num.ints.zero_of
  received_offset hit v =
      num.ints.plus_comm (if hit then negated v else num.ints.zero_of)
        (if hit then v else num.ints.zero_of)
      ∙ minted_offset hit v

  pub zero-plus : (a : num.BigInt) → num.ints.plus num.ints.zero_of a ≡ a
  zero-plus a = num.ints.plus_comm num.ints.zero_of a ∙ num.ints.plus-zero a

  -- Changing a balance leaves the supply.
  Keeps-supply_get_user :
      (id : ℕ) (amount : num.BigInt) (user : ℕ) → Keeps (HasSupply id amount) (get_user user)
  unfolding get_user save_user
  Keeps-supply_get_user id amount user = Keeps-bind _ _ (Keeps-reads _) go
    where
      go :
          (o : Option User)
          → Keeps (HasSupply id amount) (or_create (save_user user new_user >> pure new_user) o)
      go none = Keeps-bind _ _ (Keeps-saves _ λ s h. h) λ _. Keeps-pure _
      go (some found) = Keeps-pure found

  pub Keeps-supply_balance :
      (id : ℕ) (amount : num.BigInt) (token owner : ℕ)
      → Keeps (HasSupply id amount) (get_token_balance token owner)
  unfolding get_token_balance create_token_balance save_token_balance
  Keeps-supply_balance id amount token owner =
      Keeps-bind _ _ (Keeps-supply_get_user id amount owner)
        λ user. Keeps-bind _ _ (Keeps-reads _) go
    where
      go :
          (o : Option TokenBalance)
          → Keeps (HasSupply id amount) (or_create (create_token_balance token owner) o)
      go none = Keeps-bind _ _ (Keeps-saves _ λ s h. h) λ _. Keeps-pure _
      go (some found) = Keeps-pure found

  pub Keeps-supply_save_balance :
      (id : ℕ) (amount : num.BigInt) (key : ℕ × ℕ) (balance : TokenBalance)
      → Keeps (HasSupply id amount) (save_token_balance key balance)
  unfolding save_token_balance
  Keeps-supply_save_balance id amount key balance = Keeps-saves _ λ s h. h

  pub Leads-get_token :
      {dt : ℕ → num.BigInt} (erc20 : Erc20) (address : ℕ)
      → Leads
          (Within AnyUsers dt)
          (get_token erc20 address)
          (λ token s. Within AnyUsers dt s × HasSupply address token.total_supply s)
  unfolding get_token create_token_of_contract create_token bigint_zero
  Leads-get_token {dt} erc20 address =
      Leads-bind {R = λ o s. Within AnyUsers dt s × (load s.tokens address ≡ o)}
        (reads λ s. load s.tokens address) _ (Leads-reads _ λ s h. (h, refl)) go
    where
      zero_lem : num.int_from_i32 0 ≡ num.ints.plus num.ints.zero_of num.ints.zero_of
      zero_lem = num.zero_int_lem ∙ sym (num.ints.plus-zero num.ints.zero_of)

      none_offset :
          (hit : Bool) (n : num.BigInt)
          → num.ints.plus (if hit then num.ints.zero_of else num.ints.zero_of) n ≡ n
      none_offset true n = zero-plus n
      none_offset false n = zero-plus n

      go :
          (o : Option TokenEntity)
          → Leads
              (λ s. Within AnyUsers dt s × (load s.tokens address ≡ o))
              (or_create (create_token_of_contract erc20 address) o)
              (λ token s. Within AnyUsers dt s × HasSupply address token.total_supply s)
      go (some token) = Leads-pure token λ s (h, found). (h, rw found refl)
      go none = Leads-bind _ _ (Leads-value_or_fail _ λ name e s h. h) λ name.
          Leads-bind _ _ (Leads-value_or_fail _ λ symbol e s h. h) λ symbol.
            Leads-from (λ s (h, missing). (h, rw missing refl))
              (Leads-bind _ _
                (Leads-save_token address num.ints.zero_of _ num.ints.zero_of zero_lem
                  λ other. none_offset (address == other) (dt other))
                λ _. Leads-pure _ λ s h. h)

  pub Leads-get_token_balance :
      {dt : ℕ → num.BigInt} (token owner : ℕ)
      → Leads
          (Within AnyUsers dt)
          (get_token_balance token owner)
          (λ balance s. Within AnyUsers dt s × HasAmount token owner balance.balance s)
  unfolding get_token_balance create_token_balance bigint_zero amount_at
  Leads-get_token_balance {dt} token owner =
      Leads-bind (get_user owner) _ (Keeps-get_user owner) λ user.
        Leads-bind {R = λ o s. Within AnyUsers dt s × (load s.token_balances (token, owner) ≡ o)}
          (reads λ s. load s.token_balances (token, owner)) _ (Leads-reads _ λ s h. (h, refl)) go
    where
      zero_lem : num.int_from_i32 0 ≡ num.ints.plus num.ints.zero_of num.ints.zero_of
      zero_lem = num.zero_int_lem ∙ sym (num.ints.plus-zero num.ints.zero_of)

      none_offset :
          (hit : Bool) (n : num.BigInt)
          → num.ints.plus n (if hit then num.ints.zero_of else num.ints.zero_of) ≡ n
      none_offset true n = num.ints.plus-zero n
      none_offset false n = num.ints.plus-zero n

      go :
          (o : Option TokenBalance)
          → Leads
              (λ s. Within AnyUsers dt s × (load s.token_balances (token, owner) ≡ o))
              (or_create (create_token_balance token owner) o)
              (λ balance s. Within AnyUsers dt s × HasAmount token owner balance.balance s)
      go (some balance) = Leads-pure balance λ s (h, found). (h, rw found refl)
      go none =
          Leads-from (λ s (h, missing). (h, rw missing refl))
            (Leads-bind _ _
              (Leads-save_balance token owner num.ints.zero_of _ num.ints.zero_of zero_lem
                λ other. none_offset (token == other) (dt other))
              λ _. Leads-pure _ λ s h. h)
