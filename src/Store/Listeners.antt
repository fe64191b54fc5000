-- ===== src/Store/Listeners.antt =====
-- Which listeners a notification calls, whatever the listeners do to the set of listeners meanwhile.
use mathlib.Core.List.{append_assoc, append-nil}
use stablecoin_sdk.Base.{
  ℕ, ◌<◌, ◌≡◌, ◌≢◌, ◌∙◌, inl, inr, refl, sym, ap, true, false, List, [], ◌∷◌, ◌++◌, map, ◌==◌,
  arith, Bool-cases,
}
use stablecoin_sdk.Store.{
  Snapshot, Call, notified, log_call, Store, without, has, Command, subscribe_new, unsubscribe_id,
  subscribe, unsubscribe, run_commands, notify_each, notify,
}

-- The first list is the second one with some elements left out.
pub data IsSubsequence : List ℕ → List ℕ → Type 0 where
  done : IsSubsequence [] []
  keep : {x : ℕ} {xs ys : List ℕ} → IsSubsequence xs ys → IsSubsequence (x ∷ xs) (x ∷ ys)
  skip : {y : ℕ} {xs ys : List ℕ} → IsSubsequence xs ys → IsSubsequence xs (y ∷ ys)

has-append_one : (xs : List ℕ) (y k : ℕ) → has xs k ≡ false → y ≢ k → has (xs ++ y ∷ []) k ≡ false
unfolding has
has-append_one [] y k h ne = ground arith
has-append_one (x ∷ xs) y k h ne = ground (arith, has-append_one xs y k)

has-without : (id k : ℕ) (xs : List ℕ) → has xs k ≡ false → has (without id xs) k ≡ false
unfolding has without
has-without id k [] h = refl
has-without id k (x ∷ xs) h = ground (arith, has-without id k xs)

-- Every element of the first list is in the second.
abbrev AllIn : List ℕ → List ℕ → Type 0
AllIn [] xs = Unit
AllIn (l ∷ ls) xs = (has xs l ≡ true) × AllIn ls xs

AllIn-cons : (ls xs : List ℕ) (x : ℕ) → AllIn ls xs → AllIn ls (x ∷ xs)
unfolding has
AllIn-cons [] xs x h = tt
AllIn-cons (l ∷ ls) xs x (h, hs) = (ground arith, AllIn-cons ls xs x hs)

AllIn-self : (xs : List ℕ) → AllIn xs xs
unfolding has
AllIn-self [] = tt
AllIn-self (x ∷ xs) = (ground arith, AllIn-cons xs xs x (AllIn-self xs))

module _ {T : Type 0} where
  -- A listener that was subscribed once and is not subscribed now.
  abbrev pub IsGone : ℕ → Store T → Type 0
  IsGone k s = (has s.listeners k ≡ false) × (k < s.next_listener)

  run_commands-IsGone :
      (cs : List Command) (k : ℕ) (s : Store T) → IsGone k s → IsGone k (run_commands cs s)
  unfolding run_commands subscribe unsubscribe
  run_commands-IsGone [] k s gone = gone
  run_commands-IsGone (subscribe_new ∷ cs) k s (absent, old) =
      run_commands-IsGone cs k (subscribe s)
        (has-append_one s.listeners s.next_listener k absent (omega arith), omega arith)
  run_commands-IsGone (unsubscribe_id id ∷ cs) k s (absent, old) =
      run_commands-IsGone cs k (unsubscribe id s) (has-without id k s.listeners absent, old)

  run_commands-calls : (cs : List Command) (s : Store T) → (run_commands cs s).calls ≡ s.calls
  unfolding run_commands subscribe unsubscribe
  run_commands-calls [] s = refl
  run_commands-calls (subscribe_new ∷ cs) s = run_commands-calls cs (subscribe s)
  run_commands-calls (unsubscribe_id id ∷ cs) s = run_commands-calls cs (unsubscribe id s)

  module _ (react : ℕ → List Command) (new old : Snapshot T) where
    abbrev call_of : ℕ → Call T
    call_of l = notified l new old

    -- What the loop over the copy `ls` calls from the state `s`.
    abbrev pub IsCalled : List ℕ → Store T → List ℕ → Type 0
    IsCalled ls s called =
        ((notify_each react ls new old s).calls ≡ s.calls ++ map call_of called)
        × IsSubsequence called ls
        × ((k : ℕ) → IsGone k s → has called k ≡ false)

    not_gone : (s : Store T) (l k : ℕ) → has s.listeners l ≡ true → IsGone k s → (l == k) ≡ false
    not_gone s l k listens gone = elim (Bool-cases (l == k)) [
      | inl same ↦ let e : l ≡ k = ground arith in absurd (cc (sym (rw e at listens) ∙ gone.0))
      | inr other ↦ other
    ]

    notify_each-first :
        (l : ℕ) (ls : List ℕ) (s : Store T)
        → s.listeners ≡ l ∷ ls
        → notify_each react (l ∷ ls) new old s
          ≡ notify_each react ls new old (run_commands (react l) (log_call (call_of l) s))
    unfolding notify_each has
    notify_each-first l ls s e =
        let listens : has s.listeners l ≡ true =
          ap (λ (xs : List ℕ). has xs l) e ∙ (AllIn-self (l ∷ ls)).0 in
        rw listens refl

    notify_each-all :
        (ls : List ℕ) (s : Store T)
        → ((l : ℕ) → react l ≡ [])
        → AllIn ls s.listeners
        → (notify_each react ls new old s).calls ≡ s.calls ++ map call_of ls
    unfolding notify_each run_commands
    notify_each-all [] s quiet present = sym (append-nil s.calls)
    notify_each-all (l ∷ ls) s quiet (here, present) =
        rw (here, notify_each, quiet l)
          (notify_each-all ls (log_call (call_of l) s) quiet present
            ∙ append_assoc s.calls (call_of l ∷ []) (map call_of ls))

    notify_each-calls : (ls : List ℕ) (s : Store T) → (called : List ℕ) × IsCalled ls s called
    unfolding notify_each has
    notify_each-calls [] s = ([], (sym (append-nil s.calls), done, λ k gone. refl))
    notify_each-calls (l ∷ ls) s = elim (Bool-cases (has s.listeners l)) [
      | inl listens ↦
          let s1 = log_call (call_of l) s in
          let (called, (logged, chosen, spared)) =
            notify_each-calls ls (run_commands (react l) s1) in
          (
            l ∷ called,
            (
              rw (listens, notify_each)
                  (logged
                    ∙ ap (λ (cs : List (Call T)). cs ++ map call_of called)
                        (run_commands-calls (react l) s1)
                    ∙ append_assoc s.calls (call_of l ∷ []) (map call_of called)),
              keep chosen,
              λ k gone.
                  let rest = spared k (run_commands-IsGone (react l) k s1 gone) in
                  let other : (l == k) ≡ false = not_gone s l k listens gone in
                  rw (other, has) rest,
            ),
          )
      | inr gone ↦
          let (called, (logged, chosen, spared)) = notify_each-calls ls s in
          (called, (rw (gone, notify_each) logged, skip chosen, spared))
    ]

    -- Where the first listener, when it is called, leaves the listener `k` unsubscribed, `k` is not called
    -- any more. Of the others, a notification calls some that were subscribed when it began, in the order
    -- of the set, whatever the listeners subscribe and unsubscribe meanwhile.
    pub notify_calls :
        (l k : ℕ) (ls : List ℕ) (s : Store T)
        → s.listeners ≡ l ∷ ls
        → IsGone k (run_commands (react l) (log_call (call_of l) s))
        → (called : List ℕ) × ((notify react new old s).calls
            ≡ s.calls ++ call_of l ∷ map call_of called)
          × IsSubsequence called ls
          × (has called k ≡ false)
    unfolding notify
    notify_calls l k ls s e gone =
        let s1 = log_call (call_of l) s in
        let (called, (logged, chosen, spared)) = notify_each-calls ls (run_commands (react l) s1) in
        let opened : notify_each react s.listeners new old s
            ≡ notify_each react (l ∷ ls) new old s =
          ap (λ (xs : List ℕ). notify_each react xs new old s) e in
        let first = notify_each-first l ls s e in
        (
          called,
          ap (λ (t : Store T). t.calls) (opened ∙ first)
              ∙ logged
              ∙ ap (λ (cs : List (Call T)). cs ++ map call_of called)
                  (run_commands-calls (react l) s1)
              ∙ append_assoc s.calls (call_of l ∷ []) (map call_of called),
          chosen,
          spared k gone,
        )

    -- Listeners that subscribe and unsubscribe nothing are all called, once each and in order.
    pub notify_all :
        (s : Store T)
        → ((l : ℕ) → react l ≡ [])
        → (notify react new old s).calls ≡ s.calls ++ map call_of s.listeners
    unfolding notify
    notify_all s quiet = notify_each-all s.listeners s quiet (AllIn-self s.listeners)
