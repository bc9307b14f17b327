-- ===== src/Research/Writer.antt =====
-- `EpisodeWriter` of src/alpha/research/interaction/writer.py. A row is the record it is made from. A
-- write to disk is the n-th attempt, and `disk n` says how it ends.
pub mod Laws
pub mod Parts
pub mod Failures
use alpha_runtime_v.Base.{
  ℕ, suc, ◌+◌, ◌==◌, ◌≡◌, ◌↔◌, Bool, true, false, ◌&&◌, Option, none, some, List, [], ◌∷◌, ◌++◌,
  arith, if◌then◌else◌,
}
use alpha_runtime_v.Base.Lists.{length}
use alpha_runtime_v.Base.Dict.{Dict, Eq, keys, lookup, insert, erase}
use alpha_runtime_v.Research.Texts.{Text, eq_text, eq_text_iff}
use alpha_runtime_v.Research.Model.{EpisodeSummary, EpisodeBarRecord}

-- The keys of the buffers, (symbol, session_date).
pub record Bucket : Type 0 where
  pub symbol : Text
  pub session_date : Text

unfoldable pub eq_bucket : Bucket → Bucket → Bool
eq_bucket a b = eq_text a.symbol b.symbol && eq_text a.session_date b.session_date

pub eq_bucket_iff : (a b : Bucket) → (eq_bucket a b ≡ true) ↔ (a ≡ b)
unfolding eq_bucket
eq_bucket_iff a b =
    ground (arith, eq_text_iff a.symbol b.symbol, eq_text_iff a.session_date b.session_date)

instance abbrev pub bucket_eq : Eq Bucket
bucket_eq = record { beq = eq_bucket; beq_iff = eq_bucket_iff }

-- A file `part-{run_id}-{seq}.parquet` of a bucket.
pub record Part {ℓ} (Row : Type ℓ) : Type ℓ where
  pub bucket : Bucket
  pub seq : ℕ
  pub rows : List Row

-- `os.replace`: the part takes the place of one with its path, if there is one.
unfoldable pub replace_part {ℓ} : {Row : Type ℓ} → Part Row → List (Part Row) → List (Part Row)
replace_part p [] = p ∷ []
replace_part p (q ∷ parts) =
    let rest = replace_part p parts in
    if eq_bucket q.bucket p.bucket && q.seq == p.seq then p ∷ parts else q ∷ rest

-- A write fails at its folder or later, at its file, or stores the file.
pub data Attempt : Type 0 where
  no_folder no_file stored : Attempt

-- Of each table the buffer, the numbers of its parts (`_seq`) and the parts on disk.
pub record EpisodeWriter : Type 0 where
  pub ep_buf : Dict Bucket (List EpisodeSummary)
  pub bar_buf : Dict Bucket (List EpisodeBarRecord)
  pub ep_seq : Dict Bucket ℕ
  pub bar_seq : Dict Bucket ℕ
  pub ep_parts : List (Part EpisodeSummary)
  pub bar_parts : List (Part EpisodeBarRecord)
  pub episodes_written : ℕ
  pub bars_written : ℕ
  pub attempts : ℕ

-- A `defaultdict(list)` and a `defaultdict(int)`.
abbrev pub rows_of {ℓ} : {A : Type ℓ} → Bucket → Dict Bucket (List A) → List A
rows_of k d = elim (lookup k d) [ none ↦ [] | some rows ↦ rows ]

abbrev pub seq_of : Bucket → Dict Bucket ℕ → ℕ
seq_of k d = elim (lookup k d) [ none ↦ 0 | some n ↦ n ]

unfoldable pub extend {ℓ} :
    {A : Type ℓ} → Bucket → List A → Dict Bucket (List A) → Dict Bucket (List A)
extend k rows d = insert k (rows_of k d ++ rows) d

abbrev pub bucket_of : EpisodeSummary → Bucket
bucket_of s = record { symbol = s.symbol; session_date = s.session_date }

-- `for bar in bars: self._bar_buf[bk].append(...)`: no bars leave the buffer as it is.
unfoldable pub append_bars :
    Bucket
    → List EpisodeBarRecord
    → Dict Bucket (List EpisodeBarRecord)
    → Dict Bucket (List EpisodeBarRecord)
append_bars k [] d = d
append_bars k (b ∷ bars) d = append_bars k bars (extend k (b ∷ []) d)

unfoldable pub write : EpisodeSummary → List EpisodeBarRecord → EpisodeWriter → EpisodeWriter
write s bars w = record w {
  ep_buf = extend (bucket_of s) (s ∷ []) w.ep_buf;
  bar_buf = append_bars (bucket_of s) bars w.bar_buf;
}

module _ (disk : ℕ → Attempt) where
  -- `_write_table` of the episodes: false if it raises.
  unfoldable pub write_episodes :
      Bucket → List EpisodeSummary → EpisodeWriter → EpisodeWriter × Bool
  write_episodes k rows w =
      let n : ℕ = suc (seq_of k w.ep_seq) in
      let tried : EpisodeWriter = record w {
        ep_seq = insert k n w.ep_seq;
        attempts = suc w.attempts;
      } in
      elim (disk w.attempts) [
        | Attempt.no_folder ↦ (record w { attempts = suc w.attempts }, false)
        | Attempt.no_file ↦ (tried, false)
        | Attempt.stored ↦ (
          record tried {
            ep_parts = replace_part (record { bucket = k; seq = n; rows = rows }) w.ep_parts;
          },
          true,
        )
      ]

  -- `_write_table` of the bars.
  unfoldable pub write_bars : Bucket → List EpisodeBarRecord → EpisodeWriter → EpisodeWriter × Bool
  write_bars k rows w =
      let n : ℕ = suc (seq_of k w.bar_seq) in
      let tried : EpisodeWriter = record w {
        bar_seq = insert k n w.bar_seq;
        attempts = suc w.attempts;
      } in
      elim (disk w.attempts) [
        | Attempt.no_folder ↦ (record w { attempts = suc w.attempts }, false)
        | Attempt.no_file ↦ (tried, false)
        | Attempt.stored ↦ (
          record tried {
            bar_parts = replace_part (record { bucket = k; seq = n; rows = rows }) w.bar_parts;
          },
          true,
        )
      ]

  abbrev pub requeue :
      Bucket → List EpisodeSummary → List EpisodeBarRecord → EpisodeWriter → EpisodeWriter
  requeue k eps bars w = record w {
    ep_buf = extend k eps w.ep_buf;
    bar_buf = extend k bars w.bar_buf;
  }

  -- The body of `flush` once both buffers are popped.
  unfoldable pub flush_rows :
      Bucket → List EpisodeSummary → List EpisodeBarRecord → EpisodeWriter → EpisodeWriter
  flush_rows k [] bars w = w
  flush_rows k (e ∷ eps) bars w =
      let first : EpisodeWriter × Bool = write_episodes k (e ∷ eps) w in
      let second : EpisodeWriter × Bool = write_bars k bars first.0 in
      if first.1
      then if second.1
        then record second.0 {
          episodes_written = second.0.episodes_written + length (e ∷ eps);
          bars_written = second.0.bars_written + length bars;
        }
        else requeue k (e ∷ eps) bars second.0
      else requeue k (e ∷ eps) bars first.0

  unfoldable pub flush_bucket : Bucket → EpisodeWriter → EpisodeWriter
  flush_bucket k w =
      flush_rows k (rows_of k w.ep_buf) (rows_of k w.bar_buf)
        (record w { ep_buf = erase k w.ep_buf; bar_buf = erase k w.bar_buf })

  unfoldable pub flush_buckets : List Bucket → EpisodeWriter → EpisodeWriter
  flush_buckets [] w = w
  flush_buckets (k ∷ ks) w = flush_buckets ks (flush_bucket k w)

  -- `flush`
  unfoldable pub flush_writer : EpisodeWriter → EpisodeWriter
  flush_writer w = flush_buckets (keys w.ep_buf) w

-- `EpisodeWriter.__init__`
unfoldable pub new_writer : EpisodeWriter
new_writer = record {
  ep_buf = [];
  bar_buf = [];
  ep_seq = [];
  bar_seq = [];
  ep_parts = [];
  bar_parts = [];
  episodes_written = 0;
  bars_written = 0;
  attempts = 0;
}

-- Writes and flushes in any order, with the episodes that were handed over.
pub data WriterRun : List EpisodeSummary → EpisodeWriter → Type 0 where
  created : WriterRun [] new_writer
  wrote :
      {given : List EpisodeSummary} {w : EpisodeWriter} (s : EpisodeSummary)
      (bars : List EpisodeBarRecord)
      → WriterRun given w
      → WriterRun (s ∷ given) (write s bars w)
  flushed :
      {given : List EpisodeSummary} {w : EpisodeWriter} (disk : ℕ → Attempt)
      → WriterRun given w
      → WriterRun given (flush_writer disk w)
