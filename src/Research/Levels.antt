-- ===== src/Research/Levels.antt =====
-- What `LevelInteractionEngine` of src/alpha/research/interaction/engine.py reads of an event, and the levels
-- it resolves from a bar's snapshot. The symbol registry, the trading calendar and the disk answer by the
-- record `Env`.
use Prim.Native.String.{String}
use alpha_runtime_v.Base.{
  ℕ, zero, suc, Bool, true, false, ◌&&◌, Option, none, some, List, [], ◌∷◌, ◌++◌,
}
use alpha_runtime_v.Base.Int.{pos, ltb_ℤ}
use alpha_runtime_v.Execution.Models.{Decimal}
use alpha_runtime_v.Research.Texts.{Text, codes, colon, text_eq, session_id_of, level_session_date}
use alpha_runtime_v.Research.Model.{SessionPhase, LevelType, SessionScope, LevelSnapshot}
use alpha_runtime_v.Research.Writer.{Attempt}

pub record Bar : Type 0 where
  pub timestamp : ℕ
  pub open_price : Decimal
  pub high : Decimal
  pub low : Decimal
  pub close : Decimal
  pub volume : ℕ

-- What is read of a `BarSnapshot`.
pub record BarSnapshot : Type 0 where
  pub bar : Option Bar
  pub full_session_vwap : Option Decimal
  pub rth_vwap : Option Decimal
  pub or_established : Bool
  pub or_high : Option Decimal
  pub or_low : Option Decimal
  pub atr_14 : Option Decimal
  pub session_phase : SessionPhase

-- What is read of a `PipelineOutputEvent`; `metadata` is its sequence number and its replay flag.
pub record PipelineOutput : Type 0 where
  pub symbol : Text
  pub timestamp : ℕ
  pub bar_snapshot : Option BarSnapshot
  pub metadata : Option (Option ℕ × Bool)

-- `registered_tick` is none for a symbol that is unknown or has no tick size, or if the registry raises;
-- `calendar_date` is none if the session date cannot be had.
pub record Env : Type 0 where
  pub registered_tick : Text → Option ℕ
  pub calendar_date : Text → ℕ → Option Text
  pub utc_date : ℕ → Text
  pub default_tick : ℕ
  pub disk : ℕ → Attempt

-- `fs_vwap and fs_vwap > 0`
abbrev pub is_positive : Option Decimal → Bool
is_positive none = false
is_positive (some v) = ltb_ℤ (pos 0) v

-- `_RTH_PHASES`
abbrev pub is_rth : SessionPhase → Bool
is_rth SessionPhase.opening_range = true
is_rth SessionPhase.early = true
is_rth SessionPhase.mid = true
is_rth SessionPhase.power_hour = true
is_rth SessionPhase.closing = true
is_rth _ = false

-- f"{symbol}:{name}:{session_date}", where the name holds the type and the scope.
abbrev pub level_id : Text → String → Text → Text
level_id symbol name session_date = symbol ++ colon ∷ codes name ++ colon ∷ session_date

-- The levels that a condition admits, if their value is there.
abbrev pub admit : Bool → Option Decimal → (Decimal → LevelSnapshot) → List LevelSnapshot
admit false v f = []
admit true none f = []
admit true (some v) f = f v ∷ []

module _ (env : Env) where
  -- `_build_session_id`
  unfoldable pub build_session_id : Text → ℕ → Text
  build_session_id symbol ts =
      session_id_of symbol
        (elim (env.calendar_date symbol ts) [ none ↦ env.utc_date ts | some date ↦ date ])

  -- `_get_tick_size`: a tick size of 0 is passed over, as a symbol without one.
  unfoldable pub get_tick_size : Text → ℕ
  get_tick_size symbol = elim (env.registered_tick symbol) [
    | none ↦ env.default_tick
    | some zero ↦ env.default_tick
    | some (suc n) ↦ suc n
  ]

  abbrev pub level_of :
      Text → Text → String → LevelType → Decimal → Bool → SessionScope → LevelSnapshot
  level_of symbol session_id name type value dynamic scope = record {
    level_id = level_id symbol name (level_session_date session_id);
    symbol = symbol;
    session_id = session_id;
    level_type = type;
    level_value = value;
    tick_size = get_tick_size symbol;
    is_dynamic = dynamic;
    session_scope = scope;
  }

  -- Full-session VWAP; the VWAP of the cash session, in its phases; and once the opening range is
  -- frozen its high and its low.
  unfoldable pub full_session_vwap_level : Text → Text → BarSnapshot → List LevelSnapshot
  full_session_vwap_level symbol sid snap =
      admit (is_positive snap.full_session_vwap) snap.full_session_vwap (λ v.
        level_of symbol sid "vwap:full_session" LevelType.vwap v true SessionScope.full_session)

  unfoldable pub rth_vwap_level : Text → Text → BarSnapshot → List LevelSnapshot
  rth_vwap_level symbol sid snap =
      admit (is_positive snap.rth_vwap && is_rth snap.session_phase) snap.rth_vwap
        (λ v. level_of symbol sid "vwap:rth" LevelType.vwap v true SessionScope.rth)

  unfoldable pub orh_level : Text → Text → BarSnapshot → List LevelSnapshot
  orh_level symbol sid snap =
      admit snap.or_established snap.or_high
        (λ v. level_of symbol sid "orh:rth" LevelType.orh v false SessionScope.rth)

  unfoldable pub orl_level : Text → Text → BarSnapshot → List LevelSnapshot
  orl_level symbol sid snap =
      admit snap.or_established snap.or_low
        (λ v. level_of symbol sid "orl:rth" LevelType.orl v false SessionScope.rth)

  -- `_resolve_levels`
  unfoldable pub resolve_levels : Text → Text → BarSnapshot → List LevelSnapshot
  resolve_levels symbol sid snap =
      full_session_vwap_level symbol sid snap
      ++ (rth_vwap_level symbol sid snap
          ++ (orh_level symbol sid snap ++ orl_level symbol sid snap))
