-- ===== src/Research/Writer/Failures.antt =====
-- What a half failed flush leaves.
use alpha_runtime_v.Base.{ℕ, suc, ◌≡◌, ◌≢◌, List, [], ◌∷◌, ◌++◌, arith}
use mathlib.Core.List.{append_assoc}
use alpha_runtime_v.Base.Dict.{insert, erase}
use alpha_runtime_v.Research.Model.{EpisodeSummary, EpisodeBarRecord}
use alpha_runtime_v.Research.Writer.{
  Bucket, bucket_eq, eq_bucket_iff, Part, EpisodeWriter, Attempt, rows_of, seq_of, extend,
  write_episodes, write_bars, flush_rows, flush_bucket,
}
use alpha_runtime_v.Research.Writer.Laws.{rows_of-insert, rows_of-erase}
use alpha_runtime_v.Research.Writer.Parts.{
  seq_of-insert, IsStored, IsTable-next, flush_bucket-IsStored,
}

module _ (disk : ℕ → Attempt) (k : Bucket) (e : EpisodeSummary) (eps : List EpisodeSummary) where
  abbrev part : ℕ → Part EpisodeSummary
  part n = record { bucket = k; seq = n; rows = e ∷ eps }

  -- A flush whose second table fails: the part is there and the rows are back.
  half_done :
      (bars : List EpisodeBarRecord) (w : EpisodeWriter)
      → IsStored w
      → rows_of k w.ep_buf ≡ []
      → disk w.attempts ≡ Attempt.stored
      → disk (suc w.attempts) ≢ Attempt.stored
      → ((flush_rows disk k (e ∷ eps) bars w).ep_parts
          ≡ w.ep_parts ++ part (suc (seq_of k w.ep_seq)) ∷ [])
        × ((flush_rows disk k (e ∷ eps) bars w).ep_seq
            ≡ insert k (suc (seq_of k w.ep_seq)) w.ep_seq)
        × ((flush_rows disk k (e ∷ eps) bars w).attempts ≡ suc (suc w.attempts))
        × ((flush_rows disk k (e ∷ eps) bars w).ep_buf ≡ insert k (e ∷ eps) w.ep_buf)
  unfolding flush_rows write_episodes write_bars extend
  half_done bars w z h a b =
      ground (arith, h, a, b, IsTable-next k (e ∷ eps) w.ep_seq w.ep_parts z.episodes)

  whole_done :
      (bars : List EpisodeBarRecord) (w : EpisodeWriter)
      → IsStored w
      → disk w.attempts ≡ Attempt.stored
      → disk (suc w.attempts) ≡ Attempt.stored
      → (flush_rows disk k (e ∷ eps) bars w).ep_parts
        ≡ w.ep_parts ++ part (suc (seq_of k w.ep_seq)) ∷ []
  unfolding flush_rows write_episodes write_bars
  whole_done bars w z a b =
      ground (arith, a, b, IsTable-next k (e ∷ eps) w.ep_seq w.ep_parts z.episodes)

  half_bucket :
      (w : EpisodeWriter)
      → IsStored w
      → rows_of k w.ep_buf ≡ e ∷ eps
      → disk w.attempts ≡ Attempt.stored
      → disk (suc w.attempts) ≢ Attempt.stored
      → ((flush_bucket disk k w).ep_parts ≡ w.ep_parts ++ part (suc (seq_of k w.ep_seq)) ∷ [])
        × ((flush_bucket disk k w).ep_seq ≡ insert k (suc (seq_of k w.ep_seq)) w.ep_seq)
        × ((flush_bucket disk k w).attempts ≡ suc (suc w.attempts))
        × (rows_of k (flush_bucket disk k w).ep_buf ≡ e ∷ eps)
  unfolding flush_bucket
  half_bucket w z h a b =
      let popped : EpisodeWriter = record w {
        ep_buf = erase k w.ep_buf;
        bar_buf = erase k w.bar_buf;
      } in
      let nothing : rows_of k popped.ep_buf ≡ [] =
        ground (arith, rows_of-erase k k w.ep_buf, eq_bucket_iff k k) in
      let half : _ =
        half_done (rows_of k w.bar_buf) popped (record { episodes = z.episodes; bars = z.bars })
          nothing a b in
      rw h (
        half.0,
        half.1,
        half.2,
        ground (arith, half.3, rows_of-insert k k (e ∷ eps) popped.ep_buf, eq_bucket_iff k k),
      )

  whole_bucket :
      (w : EpisodeWriter)
      → IsStored w
      → rows_of k w.ep_buf ≡ e ∷ eps
      → disk w.attempts ≡ Attempt.stored
      → disk (suc w.attempts) ≡ Attempt.stored
      → (flush_bucket disk k w).ep_parts ≡ w.ep_parts ++ part (suc (seq_of k w.ep_seq)) ∷ []
  unfolding flush_bucket
  whole_bucket w z h a b =
      rw h
        (whole_done (rows_of k w.bar_buf) _ (record { episodes = z.episodes; bars = z.bars }) a b)

-- When the episodes of a bucket reach the disk and its bars do not, the next flush that succeeds stores
-- the same episodes in a second part.
pub half_flush :
    (disk : ℕ → Attempt) (k : Bucket) (e : EpisodeSummary) (eps : List EpisodeSummary)
    (w : EpisodeWriter)
    → IsStored w
    → rows_of k w.ep_buf ≡ e ∷ eps
    → disk w.attempts ≡ Attempt.stored
    → disk (suc w.attempts) ≢ Attempt.stored
    → disk (suc (suc w.attempts)) ≡ Attempt.stored
    → disk (suc (suc (suc w.attempts))) ≡ Attempt.stored
    → (flush_bucket disk k (flush_bucket disk k w)).ep_parts
      ≡ w.ep_parts
        ++ record { bucket = k; seq = suc (seq_of k w.ep_seq); rows = e ∷ eps }
          ∷ record { bucket = k; seq = suc (suc (seq_of k w.ep_seq)); rows = e ∷ eps }
          ∷ []
half_flush disk k e eps w z h a b c d =
    let next : EpisodeWriter = flush_bucket disk k w in
    let half : _ = half_bucket disk k e eps w z h a b in
    let whole : _ =
      whole_bucket disk k e eps next (flush_bucket-IsStored disk k w z) half.3 (rw (half.2) c)
        (rw (half.2) d) in
    let n : ℕ = suc (seq_of k w.ep_seq) in
    let number : seq_of k next.ep_seq ≡ n =
      ground (arith, half.1, seq_of-insert k k n w.ep_seq, eq_bucket_iff k k) in
    cc (
      whole,
      half.0,
      number,
      append_assoc w.ep_parts (part disk k e eps n ∷ []) (part disk k e eps (suc n) ∷ []),
    )
