-- ===== src/Research/Writer/Parts.antt =====
-- The parts of a table on disk.
use alpha_runtime_v.Base.{
  ℕ, suc, ◌≤◌, ◌≡◌, refl, Bool, List, [], ◌∷◌, ◌++◌, arith, if◌then◌else◌, inl, inr, ◌⊎◌,
  Bool-cases,
}
use alpha_runtime_v.Base.Lists.{All, All-append, All-map}
use alpha_runtime_v.Base.Dict.{Dict, keys, insert, lookup-insert}
use alpha_runtime_v.Research.Model.{EpisodeSummary, EpisodeBarRecord}
use alpha_runtime_v.Research.Writer.{
  Bucket, bucket_eq, eq_bucket, eq_bucket_iff, Part, replace_part, EpisodeWriter, Attempt, rows_of,
  seq_of, write, write_episodes, write_bars, flush_rows, flush_bucket, flush_buckets, flush_writer,
  WriterRun, created, wrote, flushed, new_writer,
}

pub seq_of-insert :
    (j k : Bucket) (n : ℕ) (d : Dict Bucket ℕ)
    → seq_of j (insert k n d) ≡ (if eq_bucket j k then n else seq_of j d)
seq_of-insert j k n d = ground (arith, lookup-insert j k n d)

seq_grows :
    (j k : Bucket) (d : Dict Bucket ℕ) → seq_of j d ≤ seq_of j (insert k (suc (seq_of k d)) d)
seq_grows j k d = ground (arith, seq_of-insert j k (suc (seq_of k d)) d, eq_bucket_iff j k)

module _ {Row : Type 0} where
  -- Two parts with one path: one would replace the other.
  abbrev pub SamePath : Part Row → Part Row → Type 0
  SamePath p q = (p.bucket ≡ q.bucket) × (p.seq ≡ q.seq)

  abbrev pub Apart : List (Part Row) → Type 0
  Apart [] = Unit
  Apart (p ∷ ps) = All (λ q. ¬ SamePath p q) ps × Apart ps

  -- The parts have different paths, and none is numbered beyond the last number given out.
  pub record IsTable (seqs : Dict Bucket ℕ) (parts : List (Part Row)) : Type 0 where
    pub apart : Apart parts
    pub numbered : All (λ p. p.seq ≤ seq_of p.bucket seqs) parts

  Apart-snoc :
      (ps : List (Part Row)) (q : Part Row)
      → Apart ps
      → All (λ p. ¬ SamePath p q) ps
      → Apart (ps ++ q ∷ [])
  Apart-snoc [] q h k = (tt, tt)
  Apart-snoc (p ∷ ps) q h k = (All-append _ ps (q ∷ []) h.0 (k.0, tt), Apart-snoc ps q h.1 k.1)

  -- A failed attempt may use up a number.
  IsTable-tried :
      (k : Bucket) (seqs : Dict Bucket ℕ) (parts : List (Part Row))
      → IsTable seqs parts
      → IsTable (insert k (suc (seq_of k seqs)) seqs) parts
  IsTable-tried k seqs parts h = record {
    apart = h.apart;
    numbered = All-map _ _ (λ p l. omega (arith, l, seq_grows p.bucket k seqs)) parts h.numbered;
  }

  -- The next part of a bucket.
  abbrev pub next_part : Bucket → List Row → Dict Bucket ℕ → Part Row
  next_part k rows seqs = record { bucket = k; seq = suc (seq_of k seqs); rows = rows }

  replace_part-new :
      (p : Part Row) (parts : List (Part Row))
      → All (λ q. ¬ SamePath q p) parts
      → replace_part p parts ≡ parts ++ p ∷ []
  unfolding replace_part
  replace_part-new p [] h = refl
  replace_part-new p (q ∷ parts) h =
      ground (arith, eq_bucket_iff q.bucket p.bucket, h.0, replace_part-new p parts h.1)

  IsTable-unused :
      (k : Bucket) (rows : List Row) (seqs : Dict Bucket ℕ) (parts : List (Part Row))
      → IsTable seqs parts
      → All (λ q. ¬ SamePath q (next_part k rows seqs)) parts
  IsTable-unused k rows seqs parts h =
      All-map _ _ (λ q l same. ground (arith, l, same.0, same.1)) parts h.numbered

  -- The next part replaces none.
  pub IsTable-next :
      (k : Bucket) (rows : List Row) (seqs : Dict Bucket ℕ) (parts : List (Part Row))
      → IsTable seqs parts
      → replace_part (next_part k rows seqs) parts ≡ parts ++ next_part k rows seqs ∷ []
  IsTable-next k rows seqs parts h =
      replace_part-new (next_part k rows seqs) parts (IsTable-unused k rows seqs parts h)

  IsTable-stored :
      (k : Bucket) (rows : List Row) (seqs : Dict Bucket ℕ) (parts : List (Part Row))
      → IsTable seqs parts
      → IsTable (insert k (suc (seq_of k seqs)) seqs) (replace_part (next_part k rows seqs) parts)
  IsTable-stored k rows seqs parts h = rw (IsTable-next k rows seqs parts h) (record {
    apart = Apart-snoc parts _ h.apart (IsTable-unused k rows seqs parts h);
    numbered =
        All-append _ parts _ (IsTable-tried k seqs parts h).numbered
          (ground (arith, seq_of-insert k k (suc (seq_of k seqs)) seqs, eq_bucket_iff k k), tt);
  })

pub record IsStored (w : EpisodeWriter) : Type 0 where
  pub episodes : IsTable w.ep_seq w.ep_parts
  pub bars : IsTable w.bar_seq w.bar_parts

append_bars-write :
    (s : EpisodeSummary) (bars : List EpisodeBarRecord) (w : EpisodeWriter)
    → IsStored w
    → IsStored (write s bars w)
unfolding write
append_bars-write s bars w h = record { episodes = h.episodes; bars = h.bars }

Attempt-cases :
    (a : Attempt) → (a ≡ Attempt.no_folder) ⊎ (a ≡ Attempt.no_file) ⊎ (a ≡ Attempt.stored)
Attempt-cases a = ground arith

module _ (disk : ℕ → Attempt) where
  write_episodes-IsStored :
      (k : Bucket) (rows : List EpisodeSummary) (w : EpisodeWriter)
      → IsStored w
      → IsStored (write_episodes disk k rows w).0
  unfolding write_episodes
  write_episodes-IsStored k rows w h = elim (Attempt-cases (disk w.attempts)) [
    | inl e ↦ rw (e, write_episodes) (record { episodes = h.episodes; bars = h.bars })
    | inr (inl e) ↦
        rw (e, write_episodes)
          (record { episodes = IsTable-tried k w.ep_seq w.ep_parts h.episodes; bars = h.bars })
    | inr (inr e) ↦
        rw (e, write_episodes)
          (record {
            episodes = IsTable-stored k rows w.ep_seq w.ep_parts h.episodes;
            bars = h.bars;
          })
  ]

  write_bars-IsStored :
      (k : Bucket) (rows : List EpisodeBarRecord) (w : EpisodeWriter)
      → IsStored w
      → IsStored (write_bars disk k rows w).0
  unfolding write_bars
  write_bars-IsStored k rows w h = elim (Attempt-cases (disk w.attempts)) [
    | inl e ↦ rw (e, write_bars) (record { episodes = h.episodes; bars = h.bars })
    | inr (inl e) ↦
        rw (e, write_bars)
          (record { episodes = h.episodes; bars = IsTable-tried k w.bar_seq w.bar_parts h.bars })
    | inr (inr e) ↦
        rw (e, write_bars)
          (record {
            episodes = h.episodes;
            bars = IsTable-stored k rows w.bar_seq w.bar_parts h.bars;
          })
  ]

  flush_rows-IsStored :
      (k : Bucket) (eps : List EpisodeSummary) (bars : List EpisodeBarRecord) (w : EpisodeWriter)
      → IsStored w
      → IsStored (flush_rows disk k eps bars w)
  unfolding flush_rows
  flush_rows-IsStored k [] bars w h = h
  flush_rows-IsStored k (e ∷ eps) bars w h =
      let first : EpisodeWriter × Bool = write_episodes disk k (e ∷ eps) w in
      let second : EpisodeWriter × Bool = write_bars disk k bars first.0 in
      let one : IsStored first.0 = write_episodes-IsStored k (e ∷ eps) w h in
      let two : IsStored second.0 = write_bars-IsStored k bars first.0 one in
      elim (Bool-cases first.1) [
        | inr a ↦ rw (a, flush_rows) (record { episodes = one.episodes; bars = one.bars })
        | inl a ↦ elim (Bool-cases second.1) [
          | inl b ↦ rw (a, b, flush_rows) (record { episodes = two.episodes; bars = two.bars })
          | inr b ↦ rw (a, b, flush_rows) (record { episodes = two.episodes; bars = two.bars })
        ]
      ]

  pub flush_bucket-IsStored :
      (k : Bucket) (w : EpisodeWriter) → IsStored w → IsStored (flush_bucket disk k w)
  unfolding flush_bucket
  flush_bucket-IsStored k w h =
      flush_rows-IsStored k (rows_of k w.ep_buf) (rows_of k w.bar_buf) _
        (record { episodes = h.episodes; bars = h.bars })

  flush_buckets-IsStored :
      (ks : List Bucket) (w : EpisodeWriter) → IsStored w → IsStored (flush_buckets disk ks w)
  unfolding flush_buckets
  flush_buckets-IsStored [] w h = h
  flush_buckets-IsStored (k ∷ ks) w h = flush_buckets-IsStored ks _ (flush_bucket-IsStored k w h)

-- Over any writes and flushes the parts of each table have different paths, so none is replaced.
pub WriterRun-IsStored :
    {given : List EpisodeSummary} {w : EpisodeWriter} → WriterRun given w → IsStored w
unfolding new_writer flush_writer
WriterRun-IsStored created = record {
  episodes = record { apart = tt; numbered = tt };
  bars = record { apart = tt; numbered = tt };
}
WriterRun-IsStored (wrote {given} {w} s bars r) = append_bars-write s bars w (WriterRun-IsStored r)
WriterRun-IsStored (flushed {given} {w} disk r) =
    flush_buckets-IsStored disk (keys w.ep_buf) w (WriterRun-IsStored r)
