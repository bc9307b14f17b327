-- ===== src/Research/Writer/Laws.antt =====
-- No episode that the writer is given is lost, and no part on disk is replaced.
use alpha_runtime_v.Base.{
  ℕ, suc, ◌≡◌, refl, List, [], ◌∷◌, ◌++◌, arith, if◌then◌else◌, inl, inr, ◌⊎◌, Bool-cases,
}
use alpha_runtime_v.Base.Lists.{All, Any, All-map, Any-append_left, Any-append_right}
use alpha_runtime_v.Base.Dict.{Dict, keys, insert, erase, lookup-insert, lookup-erase}
use alpha_runtime_v.Research.Model.{EpisodeSummary, EpisodeBarRecord}
use alpha_runtime_v.Research.Writer.{
  Bucket, bucket_eq, eq_bucket, eq_bucket_iff, EpisodeWriter, Attempt, rows_of, seq_of, extend,
  bucket_of, write, write_episodes, write_bars, flush_rows, flush_bucket, flush_buckets,
  flush_writer, WriterRun, created, wrote, flushed,
}
use alpha_runtime_v.Research.Writer.Parts.{
  IsStored, IsTable-next, flush_bucket-IsStored, WriterRun-IsStored,
}

-- The episode waits in its buffer or is in a part of its bucket.
abbrev pub Held : EpisodeSummary → EpisodeWriter → Type 0
Held s w =
    Any (λ t. t ≡ s) (rows_of (bucket_of s) w.ep_buf)
    ⊎ Any (λ p. (p.bucket ≡ bucket_of s) × Any (λ t. t ≡ s) p.rows) w.ep_parts

pub rows_of-insert :
    {A : Type 0} (j k : Bucket) (rows : List A) (d : Dict Bucket (List A))
    → rows_of j (insert k rows d) ≡ (if eq_bucket j k then rows else rows_of j d)
rows_of-insert j k rows d = ground (arith, lookup-insert j k rows d)

pub rows_of-erase :
    {A : Type 0} (j k : Bucket) (d : Dict Bucket (List A))
    → rows_of j (erase k d) ≡ (if eq_bucket j k then [] else rows_of j d)
rows_of-erase j k d = ground (arith, lookup-erase j k d)

-- A buffer holds what it held, and what it is extended by.
extend-Any :
    {A : Type 0} (P : A → Type 0) (j k : Bucket) (rows : List A) (d : Dict Bucket (List A))
    → Any P (rows_of j d) ⊎ ((j ≡ k) × Any P rows)
    → Any P (rows_of j (extend k rows d))
unfolding extend
extend-Any P j k rows d h = elim (Bool-cases (eq_bucket j k)) [
  | inl e ↦
      let same : j ≡ k = ground (arith, eq_bucket_iff j k, e) in
      rw (rows_of-insert j k (rows_of k d ++ rows) d, e)
        (elim h [
          | inl a ↦ Any-append_left P (rows_of k d) rows (rw same at a)
          | inr (q, a) ↦ Any-append_right P (rows_of k d) rows a
        ])
  | inr e ↦
      rw (rows_of-insert j k (rows_of k d ++ rows) d, e)
        (elim h [ inl a ↦ a | inr (q, a) ↦ absurd (ground (arith, eq_bucket_iff j k, e, q)) ])
]

write-Held :
    (s t : EpisodeSummary) (bars : List EpisodeBarRecord) (w : EpisodeWriter)
    → Held s w ⊎ (t ≡ s)
    → Held s (write t bars w)
unfolding write
write-Held s t bars w (inl (inl h)) =
    inl (extend-Any (λ u. u ≡ s) (bucket_of s) (bucket_of t) (t ∷ []) w.ep_buf (inl h))
write-Held s t bars w (inl (inr h)) = inr h
write-Held s t bars w (inr e) =
    inl (extend-Any (λ u. u ≡ s) (bucket_of s) (bucket_of t) (t ∷ []) w.ep_buf (inr (cc e, inl e)))

module _ (disk : ℕ → Attempt) where
  -- Rows that are flushed are stored in a new part, or back in the buffer, or both.
  flush_outcome :
      (k : Bucket) (e : EpisodeSummary) (eps : List EpisodeSummary) (bars : List EpisodeBarRecord)
      (w : EpisodeWriter)
      → IsStored w
      → ((flush_rows disk k (e ∷ eps) bars w).ep_buf ≡ w.ep_buf)
          × ((flush_rows disk k (e ∷ eps) bars w).ep_parts
              ≡ w.ep_parts
                ++ record { bucket = k; seq = suc (seq_of k w.ep_seq); rows = e ∷ eps } ∷ [])
        ⊎ (((flush_rows disk k (e ∷ eps) bars w).ep_buf ≡ extend k (e ∷ eps) w.ep_buf)
            × (((flush_rows disk k (e ∷ eps) bars w).ep_parts ≡ w.ep_parts)
                ⊎ ((flush_rows disk k (e ∷ eps) bars w).ep_parts
                    ≡ w.ep_parts
                      ++ record { bucket = k; seq = suc (seq_of k w.ep_seq); rows = e ∷ eps }
                        ∷ [])))
  unfolding flush_rows write_episodes write_bars
  flush_outcome k e eps bars w h =
      ground (arith, IsTable-next k (e ∷ eps) w.ep_seq w.ep_parts h.episodes)

  flush_rows-Held :
      (k : Bucket) (eps : List EpisodeSummary) (bars : List EpisodeBarRecord) (s : EpisodeSummary)
      (w : EpisodeWriter)
      → IsStored w
      → Held s w ⊎ ((bucket_of s ≡ k) × Any (λ t. t ≡ s) eps)
      → Held s (flush_rows disk k eps bars w)
  unfolding flush_rows
  flush_rows-Held k [] bars s w z (inl h) = h
  flush_rows-Held k [] bars s w z (inr (q, h)) = absurd h
  flush_rows-Held k (e ∷ eps) bars s w z h = elim (flush_outcome k e eps bars w z) [
    | inl (same, more) ↦
        rw (same, more)
          (elim h [
            | inl (inl a) ↦ inl a
            | inl (inr a) ↦ inr (Any-append_left _ w.ep_parts _ a)
            | inr (q, a) ↦ inr (Any-append_right _ w.ep_parts _ (inl (cc q, a)))
          ])
    | inr (back, parts) ↦ rw back (elim h [
      | inl (inl a) ↦ inl (extend-Any _ (bucket_of s) k (e ∷ eps) w.ep_buf (inl a))
      | inl (inr a) ↦ inr (elim parts [
        | inl same ↦ rw same a
        | inr more ↦ rw more (Any-append_left _ w.ep_parts _ a)
      ])
      | inr (q, a) ↦ inl (extend-Any _ (bucket_of s) k (e ∷ eps) w.ep_buf (inr (q, a)))
    ])
  ]

  flush_bucket-Held :
      (k : Bucket) (s : EpisodeSummary) (w : EpisodeWriter)
      → IsStored w
      → Held s w
      → Held s (flush_bucket disk k w)
  unfolding flush_bucket
  flush_bucket-Held k s w z h =
      flush_rows-Held k (rows_of k w.ep_buf) (rows_of k w.bar_buf) s _
        (record { episodes = z.episodes; bars = z.bars })
        (elim h [
          | inr a ↦ inl (inr a)
          | inl a ↦ elim (Bool-cases (eq_bucket (bucket_of s) k)) [
            | inl e ↦
                let same : bucket_of s ≡ k = ground (arith, eq_bucket_iff (bucket_of s) k, e) in
                inr (same, rw same at a)
            | inr e ↦ inl (inl (rw (rows_of-erase (bucket_of s) k w.ep_buf, e) a))
          ]
        ])

  flush_buckets-Held :
      (ks : List Bucket) (s : EpisodeSummary) (w : EpisodeWriter)
      → IsStored w
      → Held s w
      → Held s (flush_buckets disk ks w)
  unfolding flush_buckets
  flush_buckets-Held [] s w z h = h
  flush_buckets-Held (k ∷ ks) s w z h =
      flush_buckets-Held ks s (flush_bucket disk k w) (flush_bucket-IsStored disk k w z)
        (flush_bucket-Held k s w z h)

-- However the writes to disk end, every episode that the writer was handed waits in its buffer or is in
-- a part of its symbol and date on disk, where a part is replaced by a later one with its path.
pub WriterRun-Held :
    {given : List EpisodeSummary} {w : EpisodeWriter}
    → WriterRun given w
    → All (λ s. Held s w) given
unfolding flush_writer
WriterRun-Held created = tt
WriterRun-Held (wrote {given} {w} s bars r) = (
  write-Held s s bars w (inr refl),
  All-map _ _ (λ t h. write-Held t s bars w (inl h)) given (WriterRun-Held r),
)
WriterRun-Held (flushed {given} {w} disk r) =
    All-map _ _ (λ t h. flush_buckets-Held disk (keys w.ep_buf) t w (WriterRun-IsStored r) h) given
      (WriterRun-Held r)
