-- ===== src/Research/Texts.antt =====
-- Texts as lists of code points, where the program joins and splits them, and the session ids of
-- src/alpha/research/interaction.
use Prim.Native.Char.{code}
use Prim.Native.String.{String}
use alpha_runtime_v.Base.{
  ℕ, ◌==◌, ◌≡◌, ◌↔◌, Bool, true, false, ◌&&◌, ◌||◌, List, [], ◌∷◌, ◌++◌, arith, if◌then◌else◌,
}
use alpha_runtime_v.Base.Dict.{Eq, nat_eq, ==_iff}

abbrev pub Text : Type 0
Text = List ℕ

abbrev pub codes : String → Text
codes String.[] = []
codes (String.◌∷◌ c s) = code c ∷ codes s

unfoldable pub eq_text : Text → Text → Bool
eq_text [] [] = true
eq_text (a ∷ s) (b ∷ t) = a == b && eq_text s t
eq_text _ _ = false

pub eq_text_iff : (s t : Text) → (eq_text s t ≡ true) ↔ (s ≡ t)
unfolding eq_text
eq_text_iff [] [] = ground arith
eq_text_iff [] (b ∷ t) = ground arith
eq_text_iff (a ∷ s) [] = ground arith
eq_text_iff (a ∷ s) (b ∷ t) = ground (arith, ==_iff a b, eq_text_iff s t)

instance abbrev pub text_eq : Eq Text
text_eq = record { beq = eq_text; beq_iff = eq_text_iff }

abbrev pub colon : ℕ
colon = 58

-- `f"{symbol}:{session_date}"`
unfoldable pub session_id_of : Text → Text → Text
session_id_of symbol session_date = symbol ++ colon ∷ session_date

-- `":" in s`
unfoldable pub has_colon : Text → Bool
has_colon [] = false
has_colon (c ∷ s) = c == colon || has_colon s

-- `s.split(":", 1)[1]` of a text with a colon.
unfoldable pub after_first : Text → Text
after_first [] = []
after_first (c ∷ s) = if c == colon then s else after_first s

-- `session_date` in `_resolve_levels`.
unfoldable pub level_session_date : Text → Text
level_session_date s = if has_colon s then after_first s else s

-- `_session_date_from_id`: the last part of `session_id.split(":")`.
unfoldable pub session_date_from_id : Text → Text
session_date_from_id [] = []
session_date_from_id (c ∷ s) =
    if has_colon s then session_date_from_id s else if c == colon then s else c ∷ s

has_colon-session_id_of : (sym date : Text) → has_colon (session_id_of sym date) ≡ true
unfolding has_colon session_id_of
has_colon-session_id_of [] date = ground arith
has_colon-session_id_of (c ∷ sym) date = ground (arith, has_colon-session_id_of sym date)

-- The date that an episode reads off a session id is the date that the id was built from, when that
-- has no colon, whatever the symbol.
pub session_date_from_id-session_id_of :
    (sym date : Text)
    → has_colon date ≡ false
    → session_date_from_id (session_id_of sym date) ≡ date
unfolding session_date_from_id session_id_of
session_date_from_id-session_id_of [] date h = ground (arith, h)
session_date_from_id-session_id_of (c ∷ sym) date h =
    ground (arith, has_colon-session_id_of sym date, session_date_from_id-session_id_of sym date h)

after_first-session_id_of :
    (sym date : Text) → has_colon sym ≡ false → after_first (session_id_of sym date) ≡ date
unfolding after_first session_id_of has_colon
after_first-session_id_of [] date h = ground arith
after_first-session_id_of (c ∷ sym) date h = ground (arith, after_first-session_id_of sym date)

-- The date in a level's id is the same one, when the symbol has no colon.
pub level_session_date-session_id_of :
    (sym date : Text) → has_colon sym ≡ false → level_session_date (session_id_of sym date) ≡ date
unfolding level_session_date
level_session_date-session_id_of sym date h =
    rw (has_colon-session_id_of sym date) (after_first-session_id_of sym date h)
