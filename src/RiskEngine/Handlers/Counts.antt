-- ===== src/RiskEngine/Handlers/Counts.antt =====
-- The count of open positions over any events of an account.
use alpha_runtime_v.Base.{ℕ, refl, List, [], ◌∷◌, Option-cases, Bool-cases, inl, inr, ◌==◌}
use alpha_runtime_v.Base.Int.{ltb_ℤ, eqb_ℤ, pos}
use alpha_runtime_v.Execution.Models.{Decimal}
use alpha_runtime_v.RiskEngine.Model.{AccountConfig, AccountContext, current_pnl}
use alpha_runtime_v.RiskEngine.Book.{apply_fill}
use alpha_runtime_v.RiskEngine.Book.Laws.{IsCounted, apply_fill-IsCounted}
use alpha_runtime_v.RiskEngine.Handlers.{
  OpenOrder, check_kill_switch, trigger_halt, raise_high, check_halt, count_realized, fill_account,
  SyncAnswer, sync_pnl, sync_account, with_pnl, roll_account, new_account,
}
use alpha_runtime_v.RiskEngine.Handlers.Armed.{
  AccountEvent, filled, synced, pnl_came, summary_came, day_began, step, run,
}

-- The handlers change the P&L and the kill switch without a change of the book.
raise_high-IsCounted : (ctx : AccountContext) → IsCounted ctx → IsCounted (raise_high ctx)
unfolding raise_high
raise_high-IsCounted ctx h =
    elim (Bool-cases (ltb_ℤ ctx.state.session_high_pnl (current_pnl ctx.state))) [
      | inl t ↦ rw (t, raise_high) (record { unique = h.unique; counted = h.counted })
      | inr t ↦ rw (t, raise_high) h
    ]

count_realized-IsCounted :
    (d : Decimal) (ctx : AccountContext) → IsCounted ctx → IsCounted (count_realized d ctx)
unfolding count_realized
count_realized-IsCounted d ctx h = elim (Bool-cases (eqb_ℤ d (pos 0))) [
  | inl t ↦ rw (t, count_realized) h
  | inr t ↦ rw (t, count_realized) (record { unique = h.unique; counted = h.counted })
]

check_halt-IsCounted :
    (ctx : AccountContext) (now : ℕ) (orders : List OpenOrder)
    → IsCounted ctx
    → IsCounted (check_halt ctx now orders).0
unfolding check_halt trigger_halt
check_halt-IsCounted ctx now orders h = elim (Option-cases (check_kill_switch ctx)) [
  | inl e ↦ rw (e, check_halt) h
  | inr (reason, e) ↦ elim (Bool-cases ctx.state.is_halted) [
    | inl b ↦ simp (e, b, check_halt) h
    | inr b ↦ simp (e, b, check_halt) (record { unique = h.unique; counted = h.counted })
  ]
]

step-IsCounted :
    (quotient : Decimal → ℕ → Decimal) (e : AccountEvent) (ctx : AccountContext)
    → IsCounted ctx
    → IsCounted (step quotient e ctx).0
unfolding step fill_account sync_account sync_pnl roll_account
step-IsCounted quotient (filled symbol side qty price now orders) ctx h =
    elim (Option-cases (apply_fill quotient ctx symbol side qty price)) [
      | inl e ↦ rw (e, step) h
      | inr (r, e) ↦
          rw (e, step)
            (check_halt-IsCounted _ now orders (
              raise_high-IsCounted _ (
                count_realized-IsCounted r.1 r.0
                  (apply_fill-IsCounted quotient ctx symbol side qty price r h e))))
    ]
step-IsCounted quotient (synced SyncAnswer.no_pnl now orders) ctx h = h
step-IsCounted quotient (synced (SyncAnswer.no_summary r u) now orders) ctx h =
    raise_high-IsCounted (with_pnl r u ctx) (record { unique = h.unique; counted = h.counted })
step-IsCounted quotient (synced (SyncAnswer.complete r u) now orders) ctx h =
    check_halt-IsCounted _ now orders
      (raise_high-IsCounted (with_pnl r u ctx) (record { unique = h.unique; counted = h.counted }))
step-IsCounted quotient (pnl_came r u) ctx h =
    raise_high-IsCounted (with_pnl r u ctx) (record { unique = h.unique; counted = h.counted })
step-IsCounted quotient (summary_came now orders) ctx h = check_halt-IsCounted ctx now orders h
step-IsCounted quotient (day_began today) ctx h = elim (Bool-cases (ctx.state.date == today)) [
  | inl e ↦ rw (e, roll_account) h
  | inr e ↦ rw (e, roll_account) (record { unique = tt; counted = refl })
]

run_from :
    (quotient : Decimal → ℕ → Decimal) (events : List AccountEvent) (ctx : AccountContext)
    → IsCounted ctx
    → IsCounted (run quotient events ctx).0
unfolding run
run_from quotient [] ctx h = h
run_from quotient (e ∷ events) ctx h = run_from quotient events _ (step-IsCounted quotient e ctx h)

-- Over any events from the start of a day, whatever the broker answers and also while a sync waits for it, the open positions that are
-- counted against the limit are those of the book, which holds a symbol once.
pub run-IsCounted :
    (quotient : Decimal → ℕ → Decimal) (cfg : AccountConfig) (today : ℕ)
    (events : List AccountEvent)
    → IsCounted (run quotient events (new_account today cfg)).0
unfolding new_account
run-IsCounted quotient cfg today events =
    run_from quotient events (new_account today cfg) (record { unique = tt; counted = refl })
