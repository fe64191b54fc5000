-- ===== src/Subgraph/Token.antt =====
-- packages/subgraph/src/entities/Token.ts, TokenBalance.ts and TokenAllowance.ts, and the handlers of
-- packages/subgraph/src/mappings/Token.ts. The contract's name and symbol are parameters.
use Prim.Native.String.{String}
use stablecoin_sdk.Base.{Option, ℕ, ◌==◌, if◌then◌else◌}
use stablecoin_sdk.Subgraph.Numbers.{GraphNumbers, bigint_zero}
use stablecoin_sdk.Subgraph.Dict.{load, save, number_key, pair_key, triple_key}
use stablecoin_sdk.Subgraph.Entities.{Event, TokenEntity, TokenBalance, TokenAllowance}
use stablecoin_sdk.Subgraph.Handler.{value_or_fail, Handler, pure, ◌>>=◌, ◌>>◌, reads, saves}
use stablecoin_sdk.Subgraph.SystemState.{or_create}
use stablecoin_sdk.Subgraph.User.{get_user}

-- What the calls of the contract that `ERC20.bind` gives at an address return. A call that reverts, as
-- where the contract lacks the function, returns nothing.
pub record Erc20 : Type 0 where
  pub name : ℕ → Option String
  pub symbol : ℕ → Option String

abbrev pub zero_address : ℕ
zero_address = 0

module _ ⦃num : GraphNumbers⦄ where
  unfoldable pub save_token : ℕ → TokenEntity → Handler (Unit {0})
  save_token id token = saves λ s. record s { tokens = save s.tokens id token }

  unfoldable pub create_token : ℕ → String → String → Handler TokenEntity
  create_token address name symbol = do
    let token : TokenEntity = record { name = name; symbol = symbol; total_supply = bigint_zero }
    save_token address token
    pure token

  -- A call that reverts traps.
  unfoldable pub create_token_of_contract : Erc20 → ℕ → Handler TokenEntity
  create_token_of_contract erc20 address = do
    name ← value_or_fail (erc20.name address)
    symbol ← value_or_fail (erc20.symbol address)
    create_token address name symbol

  unfoldable pub get_token : Erc20 → ℕ → Handler TokenEntity
  get_token erc20 address = do
    token ← reads λ s. load s.tokens address
    or_create (create_token_of_contract erc20 address) token

  unfoldable pub save_token_balance : ℕ × ℕ → TokenBalance → Handler (Unit {0})
  save_token_balance id balance =
      saves λ s. record s { token_balances = save s.token_balances id balance }

  unfoldable pub create_token_balance : ℕ → ℕ → Handler TokenBalance
  create_token_balance token owner = do
    let balance : TokenBalance = record { token = token; owner = owner; balance = bigint_zero }
    save_token_balance (token, owner) balance
    pure balance

  unfoldable pub get_token_balance : ℕ → ℕ → Handler TokenBalance
  get_token_balance token owner = do
    get_user owner
    balance ← reads λ s. load s.token_balances (token, owner)
    or_create (create_token_balance token owner) balance

  unfoldable pub increase_supply : ℕ → TokenEntity → num.BigInt → Handler TokenEntity
  increase_supply address token value = do
    let minted : TokenEntity = record token {
      total_supply = num.ints.plus token.total_supply value;
    }
    save_token address minted
    pure minted

  unfoldable pub decrease_supply : ℕ → TokenEntity → num.BigInt → Handler (Unit {0})
  decrease_supply address token value =
      save_token address (record token { total_supply = num.ints.minus token.total_supply value })

  unfoldable pub decrease_balance : ℕ → ℕ → num.BigInt → Handler (Unit {0})
  decrease_balance address sender value = do
    balance ← get_token_balance address sender
    save_token_balance (address, sender)
        (record balance { balance = num.ints.minus balance.balance value })

  unfoldable pub increase_balance : ℕ → ℕ → num.BigInt → Handler (Unit {0})
  increase_balance address recipient value = do
    balance ← get_token_balance address recipient
    save_token_balance (address, recipient)
        (record balance { balance = num.ints.plus balance.balance value })

  -- The token's object is shared by both halves: after a mint it has the new supply.
  unfoldable pub update_balance : Erc20 → Event → ℕ → ℕ → num.BigInt → Handler (Unit {0})
  update_balance erc20 event sender recipient value = do
    token ← get_token erc20 event.address
    token' ←
        (if sender == zero_address
          then increase_supply event.address token value
          else (do decrease_balance event.address sender value; pure token))
    if recipient == zero_address
        then decrease_supply event.address token' value
        else increase_balance event.address recipient value

  unfoldable pub save_token_allowance : ℕ × ℕ × ℕ → TokenAllowance → Handler (Unit {0})
  save_token_allowance id allowance =
      saves λ s. record s { token_allowances = save s.token_allowances id allowance }

  unfoldable pub create_token_allowance : ℕ → ℕ → ℕ → Handler TokenAllowance
  create_token_allowance token owner spender = do
    let allowance : TokenAllowance = record {
      token = token;
      owner = owner;
      spender = spender;
      value = bigint_zero;
    }
    save_token_allowance (token, owner, spender) allowance
    pure allowance

  unfoldable pub get_token_allowance : ℕ → ℕ → ℕ → Handler TokenAllowance
  get_token_allowance token owner spender = do
    get_user owner
    get_user spender
    allowance ← reads λ s. load s.token_allowances (token, owner, spender)
    or_create (create_token_allowance token owner spender) allowance

  unfoldable pub update_allowance : Event → ℕ → ℕ → num.BigInt → Handler (Unit {0})
  update_allowance event owner spender value = do
    allowance ← get_token_allowance event.address owner spender
    save_token_allowance (event.address, owner, spender) (record allowance { value = value })
