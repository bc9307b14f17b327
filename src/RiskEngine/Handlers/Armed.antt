-- ===== src/RiskEngine/Handlers/Armed.antt =====
-- The kill switch of an account over any fills, syncs and rollovers.
use alpha_runtime_v.Base.{
  ℕ, ◌==◌, ◌≡◌, refl, true, false, none, some, List, [], ◌∷◌, ◌++◌, arith, Option-cases, Bool-cases,
  inl, inr, ◌⊎◌, ◌∙◌,
}
use alpha_runtime_v.Base.Lists.{All}
use alpha_runtime_v.Base.Int.{pos, ◌≤ℤ◌, ◌<ℤ◌, neg, ltb_ℤ, int_laws, +ℤ_parts, neg_parts}
use alpha_runtime_v.Base.Dict.{nat_eq, lookup}
use alpha_runtime_v.Execution.Enums.{OrderSide, KillSwitchReason}
use alpha_runtime_v.Execution.Models.{Decimal}
use alpha_runtime_v.RiskEngine.Model.{AccountConfig, AccountContext, current_pnl, share}
use alpha_runtime_v.RiskEngine.Book.{apply_fill, open_fill, close_fill, add_fill}
use alpha_runtime_v.RiskEngine.Handlers.{
  OpenOrder, Command, check_kill_switch, trigger_halt, raise_high, check_halt, count_realized,
  fill_account, SyncAnswer, sync_pnl, sync_account, with_pnl, roll_account, new_account,
}

-- `synced` is a sync with no other event while it waits; one with others in between is `pnl_came`, those events, and
-- `summary_came`, if the summary comes.
pub data AccountEvent : Type 0 where
  filled : ℕ → OrderSide → ℕ → Decimal → ℕ → List OpenOrder → AccountEvent
  synced : SyncAnswer → ℕ → List OpenOrder → AccountEvent
  pnl_came : Decimal → Decimal → AccountEvent
  summary_came : ℕ → List OpenOrder → AccountEvent
  day_began : ℕ → AccountEvent

module _ (quotient : Decimal → ℕ → Decimal) where
  -- What an event does to an account; a fill that raises leaves it as it is.
  unfoldable pub step : AccountEvent → AccountContext → AccountContext × List Command
  step (filled symbol side qty price now orders) ctx =
      elim (fill_account quotient symbol side qty price now orders ctx) [
        | none ↦ (ctx, [])
        | some r ↦ r
      ]
  step (synced answer now orders) ctx = sync_account answer now orders ctx
  step (pnl_came realized unrealized) ctx = (sync_pnl realized unrealized ctx, [])
  step (summary_came now orders) ctx = check_halt ctx now orders
  step (day_began today) ctx = (roll_account today ctx, [])

  unfoldable pub run : List AccountEvent → AccountContext → AccountContext × List Command
  run [] ctx = (ctx, [])
  run (e ∷ events) ctx =
      let first : AccountContext × List Command = step e ctx in
      let rest : AccountContext × List Command = run events first.0 in (rest.0, first.1 ++ rest.1)

-- A daily loss limit and an activation that are above 0.
pub record IsConfigured (cfg : AccountConfig) : Type 0 where
  pub limited : pos 0 <ℤ share cfg.account_size cfg.max_daily_loss_pct
  pub activated : pos 0 <ℤ cfg.profit_protect_activation

-- The P&L is at most its high-water mark, which is not negative, and no trigger is met unless the
-- account is halted.
pub record IsArmed (cfg : AccountConfig) (ctx : AccountContext) : Type 0 where
  pub configured : ctx.config ≡ cfg
  pub marked : current_pnl ctx.state ≤ℤ ctx.state.session_high_pnl
  pub nonneg : pos 0 ≤ℤ ctx.state.session_high_pnl
  pub watched : (ctx.state.is_halted ≡ true) ⊎ (check_kill_switch ctx ≡ none)

check_halt-IsArmed :
    (cfg : AccountConfig) (ctx : AccountContext) (now : ℕ) (orders : List OpenOrder)
    → ctx.config ≡ cfg
    → current_pnl ctx.state ≤ℤ ctx.state.session_high_pnl
    → pos 0 ≤ℤ ctx.state.session_high_pnl
    → IsArmed cfg (check_halt ctx now orders).0
unfolding check_halt trigger_halt current_pnl
check_halt-IsArmed cfg ctx now orders c m n = elim (Option-cases (check_kill_switch ctx)) [
  | inl e ↦ rw (e, check_halt) (record { configured = c; marked = m; nonneg = n; watched = inr e })
  | inr (reason, e) ↦ elim (Bool-cases ctx.state.is_halted) [
    | inl h ↦
        simp (e, h, check_halt) (record { configured = c; marked = m; nonneg = n; watched = inl h })
    | inr h ↦
        simp (e, h, check_halt)
          (record { configured = c; marked = m; nonneg = n; watched = inl refl })
  ]
]

raise_high-marked :
    (ctx : AccountContext)
    → pos 0 ≤ℤ ctx.state.session_high_pnl
    → ((raise_high ctx).config ≡ ctx.config)
      × (current_pnl (raise_high ctx).state ≤ℤ (raise_high ctx).state.session_high_pnl)
      × (pos 0 ≤ℤ (raise_high ctx).state.session_high_pnl)
unfolding raise_high current_pnl
raise_high-marked ctx h =
    elim (Bool-cases (ltb_ℤ ctx.state.session_high_pnl (current_pnl ctx.state))) [
      | inl t ↦ rw (t, raise_high) (refl, omega arith, ground (arith, h, t))
      | inr t ↦ rw (t, raise_high) (refl, ground (arith, t), h)
    ]

-- A fill changes neither the account's configuration nor its high-water mark.
filled_same :
    (quotient : Decimal → ℕ → Decimal) (symbol : ℕ) (side : OrderSide) (qty : ℕ) (price : Decimal)
    (ctx : AccountContext) (r : AccountContext × Decimal)
    → apply_fill quotient ctx symbol side qty price ≡ some r
    → ((count_realized r.1 r.0).config ≡ ctx.config)
      × ((count_realized r.1 r.0).state.session_high_pnl ≡ ctx.state.session_high_pnl)
unfolding apply_fill open_fill close_fill add_fill count_realized
filled_same quotient symbol side qty price ctx (c, d) h =
    elim (Option-cases (lookup symbol ctx.positions)) [
      | inl e ↦ ground (arith, h, e)
      | inr (p, e) ↦ ground (arith, h, e)
    ]

fill-IsArmed :
    (quotient : Decimal → ℕ → Decimal) (cfg : AccountConfig) (symbol : ℕ) (side : OrderSide)
    (qty : ℕ) (price : Decimal) (now : ℕ) (orders : List OpenOrder) (ctx : AccountContext)
    → IsArmed cfg ctx
    → IsArmed cfg (step quotient (filled symbol side qty price now orders) ctx).0
unfolding step fill_account
fill-IsArmed quotient cfg symbol side qty price now orders ctx h =
    elim (Option-cases (apply_fill quotient ctx symbol side qty price)) [
      | inl e ↦ rw (e, step) h
      | inr (r, e) ↦
          let same : _ = filled_same quotient symbol side qty price ctx r e in
          let marked : _ = raise_high-marked (count_realized r.1 r.0) (rw same.1 h.nonneg) in
          rw (e, step)
            (check_halt-IsArmed cfg (raise_high (count_realized r.1 r.0)) now orders
              (marked.0 ∙ same.0 ∙ h.configured) marked.1 marked.2)
    ]

-- A sync that is not interrupted, and gives a summary whenever it gives a P&L.
abbrev pub Summarised : AccountEvent → Type 0
Summarised (synced (SyncAnswer.no_summary r u) now orders) = ⊥
Summarised (pnl_came r u) = ⊥
Summarised _ = Unit

sync-IsArmed :
    (cfg : AccountConfig) (answer : SyncAnswer) (now : ℕ) (orders : List OpenOrder)
    (ctx : AccountContext)
    → Summarised (synced answer now orders)
    → IsArmed cfg ctx
    → IsArmed cfg (sync_account answer now orders ctx).0
unfolding sync_account sync_pnl
sync-IsArmed cfg SyncAnswer.no_pnl now orders ctx f h = h
sync-IsArmed cfg (SyncAnswer.no_summary r u) now orders ctx f h = absurd f
sync-IsArmed cfg (SyncAnswer.complete r u) now orders ctx f h =
    let marked : _ = raise_high-marked (with_pnl r u ctx) h.nonneg in
    check_halt-IsArmed cfg (raise_high (with_pnl r u ctx)) now orders (marked.0 ∙ h.configured)
      marked.1 marked.2

-- An account at the start of a day.
fresh-IsArmed :
    (cfg : AccountConfig) (today : ℕ) → IsConfigured cfg → IsArmed cfg (new_account today cfg)
unfolding new_account check_kill_switch current_pnl
fresh-IsArmed cfg today h = record {
  configured = refl;
  marked = omega int_laws;
  nonneg = omega arith;
  watched = inr (
      ground (
        arith,
        h.limited,
        h.activated,
        neg_parts (share cfg.account_size cfg.max_daily_loss_pct),
        +ℤ_parts (pos 0) (pos 0),
      ));
}

roll-IsArmed :
    (cfg : AccountConfig) (today : ℕ) (ctx : AccountContext)
    → IsConfigured cfg
    → IsArmed cfg ctx
    → IsArmed cfg (roll_account today ctx)
unfolding roll_account new_account
roll-IsArmed cfg today ctx c h = elim (Bool-cases (ctx.state.date == today)) [
  | inl e ↦ rw (e, roll_account) h
  | inr e ↦ rw (e, roll_account) (rw h.configured (fresh-IsArmed cfg today c))
]

run_from :
    (quotient : Decimal → ℕ → Decimal) (cfg : AccountConfig) (events : List AccountEvent)
    (ctx : AccountContext)
    → IsConfigured cfg
    → All Summarised events
    → IsArmed cfg ctx
    → IsArmed cfg (run quotient events ctx).0
unfolding run step
run_from quotient cfg [] ctx c f h = h
run_from quotient cfg (filled symbol side qty price now orders ∷ events) ctx c f h =
    run_from quotient cfg events _ c f.1
      (fill-IsArmed quotient cfg symbol side qty price now orders ctx h)
run_from quotient cfg (synced answer now orders ∷ events) ctx c f h =
    run_from quotient cfg events _ c f.1 (sync-IsArmed cfg answer now orders ctx f.0 h)
run_from quotient cfg (pnl_came r u ∷ events) ctx c f h = absurd f.0
run_from quotient cfg (summary_came now orders ∷ events) ctx c f h =
    run_from quotient cfg events _ c f.1
      (check_halt-IsArmed cfg ctx now orders h.configured h.marked h.nonneg)
run_from quotient cfg (day_began today ∷ events) ctx c f h =
    run_from quotient cfg events _ c f.1 (roll-IsArmed cfg today ctx c h)

-- Over any fills, rollovers and syncs that are answered with a summary and not interrupted, from the start of a day
-- with a positive loss limit and activation: the P&L is at most its high-water mark, and an account that is not
-- halted meets neither trigger of the kill switch.
pub run-IsArmed :
    (quotient : Decimal → ℕ → Decimal) (cfg : AccountConfig) (today : ℕ)
    (events : List AccountEvent)
    → IsConfigured cfg
    → All Summarised events
    → IsArmed cfg (run quotient events (new_account today cfg)).0
run-IsArmed quotient cfg today events c f =
    run_from quotient cfg events (new_account today cfg) c f (fresh-IsArmed cfg today c)

-- So the P&L of an account that is not halted is above the loss floor.
pub not_halted_above_floor :
    (quotient : Decimal → ℕ → Decimal) (cfg : AccountConfig) (today : ℕ)
    (events : List AccountEvent)
    → IsConfigured cfg
    → All Summarised events
    → (run quotient events (new_account today cfg)).0.state.is_halted ≡ false
    → neg (run quotient events (new_account today cfg)).0.state.daily_loss_limit
      <ℤ current_pnl (run quotient events (new_account today cfg)).0.state
unfolding check_kill_switch
not_halted_above_floor quotient cfg today events c f n =
    ground (arith, (run-IsArmed quotient cfg today events c f).watched, n)

-- A sync whose summary fails sets the P&L and checks no trigger: the account stays as it was, not
-- halted, however low its P&L is.
pub unsummarised_sync :
    (r u : Decimal) (now : ℕ) (orders : List OpenOrder) (ctx : AccountContext)
    → current_pnl (with_pnl r u ctx).state ≤ℤ neg ctx.state.daily_loss_limit
    → ctx.state.is_halted ≡ false
    → ((sync_account (SyncAnswer.no_summary r u) now orders ctx).0.state.is_halted ≡ false)
      × (check_kill_switch (sync_account (SyncAnswer.no_summary r u) now orders ctx).0
          ≡ some KillSwitchReason.daily_loss_limit)
unfolding sync_account sync_pnl raise_high check_kill_switch current_pnl
unsummarised_sync r u now orders ctx h n =
    elim (Bool-cases (ltb_ℤ ctx.state.session_high_pnl (current_pnl (with_pnl r u ctx).state))) [
      | inl t ↦ rw (t, raise_high) (n, ground (arith, h))
      | inr t ↦ rw (t, raise_high) (n, ground (arith, h))
    ]
