-- ===== src/RiskEngine/Handlers/Halted.antt =====
-- A halted account, and what a plan that is sent tells.
use alpha_runtime_v.Base.{
  ℕ, ◌≡◌, refl, sym, subst, ap, Bool, true, false, some, List, [], ◌∷◌, ◌++◌, arith, Option-cases,
  Bool-cases, inl, inr, ◌∙◌,
}
use alpha_runtime_v.Base.Int.{ltb_ℤ}
use alpha_runtime_v.Base.Lists.{All}
use alpha_runtime_v.Base.Dict.{nat_eq, lookup, insert, lookup-insert}
use alpha_runtime_v.Execution.Enums.{OrderSide}
use alpha_runtime_v.Execution.Models.{Decimal}
use alpha_runtime_v.RiskEngine.Model.{AccountContext, Setup, TradePlan, current_pnl}
use alpha_runtime_v.RiskEngine.Book.{apply_fill, open_fill, close_fill, add_fill}
use alpha_runtime_v.RiskEngine.Plans.{Verdict, evaluate}
use alpha_runtime_v.RiskEngine.Plans.Laws.{IsSound, evaluate-IsSound}
use alpha_runtime_v.RiskEngine.Handlers.{
  OpenOrder, Command, check_kill_switch, raise_high, check_halt, count_realized, fill_account,
  SyncAnswer, sync_pnl, sync_account, with_pnl, RiskEngine, get_setup, conclude, handle_setup,
}
use alpha_runtime_v.RiskEngine.Accounts.{is_account_halted, at_account}
use alpha_runtime_v.RiskEngine.Handlers.Armed.{
  AccountEvent, filled, synced, pnl_came, summary_came, day_began, step,
}

abbrev pub SameDay : AccountEvent → Type 0
SameDay (day_began today) = ⊥
SameDay _ = Unit

check_halt-halted :
    (ctx : AccountContext) (now : ℕ) (orders : List OpenOrder)
    → ctx.state.is_halted ≡ true
    → check_halt ctx now orders ≡ (ctx, [])
unfolding check_halt
check_halt-halted ctx now orders h = elim (Option-cases (check_kill_switch ctx)) [
  | inl e ↦ rw (e, check_halt) refl
  | inr (reason, e) ↦ simp (e, h, check_halt)
]

raise_high-halted : (ctx : AccountContext) → (raise_high ctx).state.is_halted ≡ ctx.state.is_halted
unfolding raise_high
raise_high-halted ctx =
    elim (Bool-cases (ltb_ℤ ctx.state.session_high_pnl (current_pnl ctx.state))) [
      | inl t ↦ rw (t, raise_high) refl
      | inr t ↦ rw (t, raise_high) refl
    ]

filled-halted :
    (quotient : Decimal → ℕ → Decimal) (symbol : ℕ) (side : OrderSide) (qty : ℕ) (price : Decimal)
    (ctx : AccountContext) (r : AccountContext × Decimal)
    → apply_fill quotient ctx symbol side qty price ≡ some r
    → (count_realized r.1 r.0).state.is_halted ≡ ctx.state.is_halted
unfolding apply_fill open_fill close_fill add_fill count_realized
filled-halted quotient symbol side qty price ctx (c, d) h =
    elim (Option-cases (lookup symbol ctx.positions)) [
      | inl e ↦ ground (arith, h, e)
      | inr (p, e) ↦ ground (arith, h, e)
    ]

step-halted :
    (quotient : Decimal → ℕ → Decimal) (e : AccountEvent) (ctx : AccountContext)
    → SameDay e
    → ctx.state.is_halted ≡ true
    → ((step quotient e ctx).0.state.is_halted ≡ true) × ((step quotient e ctx).1 ≡ [])
unfolding step fill_account sync_account sync_pnl
step-halted quotient (filled symbol side qty price now orders) ctx f h =
    elim (Option-cases (apply_fill quotient ctx symbol side qty price)) [
      | inl e ↦ rw (e, step) (h, refl)
      | inr (r, e) ↦
          let still : (raise_high (count_realized r.1 r.0)).state.is_halted ≡ true =
            raise_high-halted (count_realized r.1 r.0)
            ∙ filled-halted quotient symbol side qty price ctx r e
            ∙ h in
          rw (e, check_halt-halted (raise_high (count_realized r.1 r.0)) now orders still, step)
            (still, refl)
    ]
step-halted quotient (synced SyncAnswer.no_pnl now orders) ctx f h = (h, refl)
step-halted quotient (synced (SyncAnswer.no_summary r u) now orders) ctx f h =
    (raise_high-halted (with_pnl r u ctx) ∙ h, refl)
step-halted quotient (synced (SyncAnswer.complete r u) now orders) ctx f h =
    let still : (raise_high (with_pnl r u ctx)).state.is_halted ≡ true =
      raise_high-halted (with_pnl r u ctx) ∙ h in
    rw (check_halt-halted (raise_high (with_pnl r u ctx)) now orders still) (still, refl)
step-halted quotient (pnl_came r u) ctx f h = (raise_high-halted (with_pnl r u ctx) ∙ h, refl)
step-halted quotient (summary_came now orders) ctx f h =
    rw (check_halt-halted ctx now orders h) (h, refl)
step-halted quotient (day_began today) ctx f h = absurd f

handle_setup-halted :
    (account_id setup_id plan_id : ℕ) (setups : List Setup) (e : RiskEngine) (ctx : AccountContext)
    → lookup account_id e.accounts ≡ some ctx
    → ctx.state.is_halted ≡ true
    → ((handle_setup account_id setup_id setups plan_id e).0.accounts ≡ e.accounts)
      × ((handle_setup account_id setup_id setups plan_id e).1 ≡ [])
unfolding handle_setup
handle_setup-halted account_id setup_id plan_id setups e ctx n h =
    elim (Option-cases (get_setup setup_id setups)) [
      | inl m ↦ rw (m, handle_setup) (refl, refl)
      | inr (s, m) ↦ simp (m, n, h, handle_setup) (refl, refl)
    ]

at_account-found :
    (id : ℕ) (f : AccountContext → AccountContext × List Command) (e : RiskEngine)
    (ctx : AccountContext)
    → lookup id e.accounts ≡ some ctx
    → at_account id f e ≡ (record e { accounts = insert id (f ctx).0 e.accounts }, (f ctx).1)
at_account-found id f e ctx n = rw (n, at_account)

is_account_halted-found :
    (id : ℕ) (e : RiskEngine) (ctx : AccountContext)
    → lookup id e.accounts ≡ some ctx
    → ctx.state.is_halted ≡ true
    → is_account_halted id e ≡ true
unfolding is_account_halted
is_account_halted-found id e ctx n h = ground (arith, n, h)

-- What can happen to the default account: a fill, a sync or a part of one, a new day, and a setup that is triggered.
pub data EngineEvent : Type 0 where
  account : AccountEvent → EngineEvent
  setup : List Setup → ℕ → ℕ → EngineEvent

abbrev pub WithinDay : EngineEvent → Type 0
WithinDay (EngineEvent.account e) = SameDay e
WithinDay (EngineEvent.setup setups setup_id plan_id) = Unit

module _ (quotient : Decimal → ℕ → Decimal) (account_id : ℕ) where
  -- The engine after an event of the account, and what it sends.
  unfoldable pub engine_step : EngineEvent → RiskEngine → RiskEngine × List Command
  engine_step (EngineEvent.account event) e = at_account account_id (step quotient event) e
  engine_step (EngineEvent.setup setups setup_id plan_id) e =
      let r : RiskEngine × List Command × Bool =
        handle_setup account_id setup_id setups plan_id e in
      (r.0, r.1)

  unfoldable pub engine_run : List EngineEvent → RiskEngine → RiskEngine × List Command
  engine_run [] e = (e, [])
  engine_run (event ∷ events) e =
      let first : RiskEngine × List Command = engine_step event e in
      let rest : RiskEngine × List Command = engine_run events first.0 in
      (rest.0, first.1 ++ rest.1)

  engine_step-halted :
      (event : EngineEvent) (e : RiskEngine) (ctx : AccountContext)
      → WithinDay event
      → lookup account_id e.accounts ≡ some ctx
      → ctx.state.is_halted ≡ true
      → (is_account_halted account_id (engine_step event e).0 ≡ true)
        × ((engine_step event e).1 ≡ [])
  unfolding engine_step is_account_halted
  engine_step-halted (EngineEvent.account event) e ctx d n h =
      let kept : _ = step-halted quotient event ctx d h in
      subst (λ r. (is_account_halted account_id r.0 ≡ true) × (r.1 ≡ []))
        (sym (at_account-found account_id (step quotient event) e ctx n))
        (
          ground (
            arith,
            lookup-insert account_id account_id (step quotient event ctx).0 e.accounts,
            kept.0,
          ),
          kept.1,
        )
  engine_step-halted (EngineEvent.setup setups setup_id plan_id) e ctx d n h =
      let kept : _ = handle_setup-halted account_id setup_id plan_id setups e ctx n h in
      (
        is_account_halted-found account_id (handle_setup account_id setup_id setups plan_id e).0 ctx
            (ap (λ a. lookup account_id a) kept.0 ∙ n) h,
        kept.1,
      )

  halted_context :
      (e : RiskEngine)
      → is_account_halted account_id e ≡ true
      → (ctx : AccountContext) × (lookup account_id e.accounts ≡ some ctx)
        × (ctx.state.is_halted ≡ true)
  unfolding is_account_halted
  halted_context e h = elim (Option-cases (lookup account_id e.accounts)) [
    | inl n ↦ absurd (ground (arith, h, n))
    | inr (ctx, n) ↦ (ctx, n, ground (arith, h, n))
  ]

  -- Until the next day a halted default account stays halted, and nothing is sent for it, neither a plan nor
  -- an order of a flatten, whatever fills, syncs, interrupted or not, and triggered setups come.
  pub halted_until_rollover :
      (events : List EngineEvent) (e : RiskEngine)
      → All WithinDay events
      → is_account_halted account_id e ≡ true
      → (is_account_halted account_id (engine_run events e).0 ≡ true)
        × ((engine_run events e).1 ≡ [])
  unfolding engine_run
  halted_until_rollover [] e d h = (h, refl)
  halted_until_rollover (event ∷ events) e d h =
      let (ctx, n, halted) = halted_context e h in
      let first : _ = engine_step-halted event e ctx d.0 n halted in
      let rest : _ = halted_until_rollover events (engine_step event e).0 d.1 first.0 in
      (rest.0, rw (first.1, rest.1) refl)

concluded :
    (v : Verdict) (e : RiskEngine) (p : TradePlan)
    → (conclude v e).1 ≡ Command.submit_plan p ∷ []
    → v ≡ Verdict.planned p
unfolding conclude
concluded v e p h = ground (arith, h)

-- A plan is sent only for an account that is there and not halted, and keeps its limits.
pub handle_setup-IsSound :
    (account_id setup_id plan_id : ℕ) (setups : List Setup) (e : RiskEngine) (p : TradePlan)
    → (handle_setup account_id setup_id setups plan_id e).1 ≡ Command.submit_plan p ∷ []
    → (ctx : AccountContext) × (s : Setup) × (lookup account_id e.accounts ≡ some ctx)
      × (ctx.state.is_halted ≡ false)
      × IsSound ctx s p
unfolding handle_setup
handle_setup-IsSound account_id setup_id plan_id setups e p h =
    elim (Option-cases (get_setup setup_id setups)) [
      | inl n ↦ absurd (ground (arith, h, n))
      | inr (s, n) ↦ elim (Option-cases (lookup account_id e.accounts)) [
        | inl a ↦ absurd (ground (arith, h, n, a))
        | inr (ctx, a) ↦ elim (Bool-cases ctx.state.is_halted) [
          | inl b ↦ absurd (ground (arith, h, n, a, b))
          | inr b ↦ (
            ctx,
            s,
            a,
            b,
            evaluate-IsSound plan_id s ctx p
                (concluded (evaluate plan_id s ctx) e p (ground (arith, h, n, a, b))),
          )
        ]
      ]
    ]

conclude-accounts : (v : Verdict) (e : RiskEngine) → (conclude v e).0.accounts ≡ e.accounts
unfolding conclude
conclude-accounts v e = ground arith

conclude-commands : (v : Verdict) (e f : RiskEngine) → (conclude v e).1 ≡ (conclude v f).1
unfolding conclude
conclude-commands v e f = ground arith

handle_setup-accounts :
    (account_id setup_id plan_id : ℕ) (setups : List Setup) (e : RiskEngine)
    → (handle_setup account_id setup_id setups plan_id e).0.accounts ≡ e.accounts
unfolding handle_setup
handle_setup-accounts account_id setup_id plan_id setups e =
    elim (Option-cases (get_setup setup_id setups)) [
      | inl n ↦ rw (n, handle_setup) refl
      | inr (s, n) ↦ elim (Option-cases (lookup account_id e.accounts)) [
        | inl a ↦ rw (n, a, handle_setup) refl
        | inr (ctx, a) ↦ ground (arith, n, a, conclude-accounts (evaluate plan_id s ctx) e)
      ]
    ]

-- What is sent depends on the accounts alone.
handle_setup-commands :
    (account_id setup_id plan_id : ℕ) (setups : List Setup) (e f : RiskEngine)
    → f.accounts ≡ e.accounts
    → (handle_setup account_id setup_id setups plan_id f).1
      ≡ (handle_setup account_id setup_id setups plan_id e).1
unfolding handle_setup
handle_setup-commands account_id setup_id plan_id setups e f h =
    elim (Option-cases (get_setup setup_id setups)) [
      | inl n ↦ ground (arith, n)
      | inr (s, n) ↦ elim (Option-cases (lookup account_id e.accounts)) [
        | inl a ↦ ground (arith, n, a, h)
        | inr (ctx, a) ↦ ground (arith, n, a, h, conclude-commands (evaluate plan_id s ctx) e f)
      ]
    ]

-- A setup changes no account: a plan that was sent takes up neither risk nor a position before its order
-- is filled, and the same setup is planned again.
pub repeated_plan :
    (account_id setup_id plan_id : ℕ) (setups : List Setup) (e : RiskEngine) (p : TradePlan)
    → (handle_setup account_id setup_id setups plan_id e).1 ≡ Command.submit_plan p ∷ []
    → (handle_setup account_id setup_id setups plan_id
        (handle_setup account_id setup_id setups plan_id e).0).1
      ≡ Command.submit_plan p ∷ []
repeated_plan account_id setup_id plan_id setups e p h =
    handle_setup-commands account_id setup_id plan_id setups e
      (handle_setup account_id setup_id setups plan_id e).0
      (handle_setup-accounts account_id setup_id plan_id setups e)
    ∙ h
