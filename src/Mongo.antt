-- ===== src/Mongo.antt =====
-- MongoDB, which the repositories of internal/data call. It is not part of this repository: a
-- collection is a parameter, with the documented behaviour of its operations as laws. A call may
-- fail at any time (`no_reply`), and then nothing is assumed of what it wrote.
use ai_go.Common.{
  inl, inr, sym, ap, ◌∙◌, ◌⊎◌, ℕ, List, Bool, true, false, ◌≡◌, ◌≢◌, Option, none, some,
}
use ai_go.Common.Result.{ok, err}
use ai_go.Common.Action.{Action}
use ai_go.Common.Text.{text_before}

pub data Reply (A : Type 0) : Type 0 where
  reply : A → Reply A
  no_reply : Reply A

-- A collection whose documents are told apart by a unique index (`K`), which every filter of the
-- source fixes. `matched` and `inserted` are Booleans: a unique key matches one document or none.
pub record Collection (K D : Type 0) : Type 1 where
  pub Store : Type 0
  -- The document under a key.
  pub get : Store → K → Option D
  -- `FindOne` by the key.
  pub find_one : K → Store → Reply (Option D)
  pub find_one_law : (k : K) (s : Store) (o : Option D) → find_one k s ≡ reply o → o ≡ get s k
  -- `InsertOne`: `false` is a duplicate key error.
  pub insert_one : K → D → Store → Reply Bool × Store
  pub insert_one_law :
      (k : K) (d : D) (s s' : Store)
      → insert_one k d s ≡ (reply true, s')
      → (get s k ≡ none) × (get s' k ≡ some d) × ((j : K) → j ≢ k → get s' j ≡ get s j)
  -- `UpdateOne` by the key and a condition: whether `MatchedCount` is 1.
  pub update_one : K → (D → Bool) → (D → D) → Store → Reply Bool × Store
  pub update_one_matched :
      (k : K) (p : D → Bool) (u : D → D) (s s' : Store)
      → update_one k p u s ≡ (reply true, s')
      → (d : D) × (get s k ≡ some d)
        × (p d ≡ true)
        × (get s' k ≡ some (u d))
        × ((j : K) → j ≢ k → get s' j ≡ get s j)
  pub update_one_unmatched :
      (k : K) (p : D → Bool) (u : D → D) (s s' : Store)
      → update_one k p u s ≡ (reply false, s')
      → (s' ≡ s) × ((d : D) → get s k ≡ some d → p d ≡ false)

-- A database that answers every call: what a call finds decides its answer.
pub record Responds {K D : Type 0} (c : Collection K D) : Type 0 where
  pub finds :
      (k : K) (s : Collection.Store c) → Collection.find_one c k s ≡ reply (Collection.get c s k)
  pub inserts :
      (k : K) (d : D) (s : Collection.Store c)
      → Collection.get c s k ≡ none
      → (Collection.insert_one c k d s).0 ≡ reply true
  pub updates :
      (k : K) (p : D → Bool) (u : D → D) (s : Collection.Store c) (d : D)
      → Collection.get c s k ≡ some d
      → (Collection.update_one c k p u s).0 ≡ reply (p d)
  pub misses :
      (k : K) (p : D → Bool) (u : D → D) (s : Collection.Store c)
      → Collection.get c s k ≡ none
      → (Collection.update_one c k p u s).0 ≡ reply false

-- `FindOneAndUpdate` on a collection, with a sort and the document after the update. A sort is by the
-- lexicographic order of a rank, and of the documents that the filter accepts none sorts before the
-- one that is updated.
pub record FindAndUpdate {K D : Type 0} (c : Collection K D) : Type 0 where
  pub find_one_and_update :
      (K → D → Bool)
      → (D → List ℕ)
      → (D → D)
      → Collection.Store c
      → Reply (Option D) × Collection.Store c
  pub find_one_and_update_found :
      (p : K → D → Bool) (rank : D → List ℕ) (u : D → D) (s s' : Collection.Store c) (d' : D)
      → find_one_and_update p rank u s ≡ (reply (some d'), s')
      → (k : K) × (d : D) × (Collection.get c s k ≡ some d)
        × (p k d ≡ true)
        × (d' ≡ u d)
        × (Collection.get c s' k ≡ some d')
        × ((j : K) → j ≢ k → Collection.get c s' j ≡ Collection.get c s j)
        × ((j : K) (e : D)
            → Collection.get c s j ≡ some e
            → p j e ≡ true
            → text_before (rank e) (rank d) ≡ false)
  pub find_one_and_update_none :
      (p : K → D → Bool) (rank : D → List ℕ) (u : D → D) (s s' : Collection.Store c)
      → find_one_and_update p rank u s ≡ (reply none, s')
      → (s' ≡ s) × ((j : K) (e : D) → Collection.get c s j ≡ some e → p j e ≡ false)

-- A driver's transaction (`session.WithTransaction`): what the callback wrote is kept whole, or
-- not at all, and never after the callback returned an error. `lost` is the error of a commit whose
-- result the driver does not know: then what a callback without error wrote may have been kept.
pub record Transaction (S E : Type 0) (lost : E) (A : Type 0) : Type 0 where
  pub run : Action S E A → Action S E A
  pub commits : (op : Action S E A) (s t : S) (a : A) → run op s ≡ (ok a, t) → op s ≡ (ok a, t)
  pub aborts :
      (op : Action S E A) (s t : S) (e : E)
      → run op s ≡ (err e, t)
      → (t ≡ s) ⊎ ((e ≡ lost) × (a : A) × (op s ≡ (ok a, t)))

-- Where a caller retries on some errors, none of which is that of a commit whose result is not known,
-- a transaction that it retries has left the store alone.
pub aborted :
    {S E A : Type 0} {lost : E} (tx : Transaction S E lost A) (test : E → Bool) (op : Action S E A)
    (s t : S) (e : E)
    → tx.run op s ≡ (err e, t)
    → test lost ≡ false
    → test e ≡ true
    → t ≡ s
aborted tx test op s t e h not_lost taken = elim (tx.aborts op s t e h) [
  | inl back ↦ back
  | inr (lost, a, kept) ↦ absurd (apart (sym taken ∙ ap test lost ∙ not_lost))
]
  where
    apart : true ≡ false → ⊥
    apart k = cc

-- `FindOneAndUpdate` by the key with an upsert and the document after it: `u` makes the new document
-- of the one that is there, if any.
pub record Upsert {K D : Type 0} (c : Collection K D) : Type 0 where
  pub find_one_and_upsert : K → (Option D → D) → Collection.Store c → Reply D × Collection.Store c
  pub find_one_and_upsert_law :
      (k : K) (u : Option D → D) (s s' : Collection.Store c) (d : D)
      → find_one_and_upsert k u s ≡ (reply d, s')
      → (d ≡ u (Collection.get c s k))
        × (Collection.get c s' k ≡ some d)
        × ((j : K) → j ≢ k → Collection.get c s' j ≡ Collection.get c s j)

-- A collection with a second unique index. `FindOne` by any filter and sort: of the documents that
-- the filter accepts none sorts before the one that is found.
pub record Indexed {K D : Type 0} (c : Collection K D) : Type 0 where
  pub find_where : (K → D → Bool) → (K → K → Bool) → Collection.Store c → Reply (Option (K × D))
  pub find_where_found :
      (p : K → D → Bool) (sorts_before : K → K → Bool) (s : Collection.Store c) (k : K) (d : D)
      → find_where p sorts_before s ≡ reply (some (k, d))
      → (Collection.get c s k ≡ some d)
        × (p k d ≡ true)
        × ((j : K) (e : D)
            → Collection.get c s j ≡ some e
            → p j e ≡ true
            → sorts_before j k ≡ false)
  pub find_where_none :
      (p : K → D → Bool) (sorts_before : K → K → Bool) (s : Collection.Store c)
      → find_where p sorts_before s ≡ reply none
      → (k : K) (d : D) → Collection.get c s k ≡ some d
      → p k d ≡ false
  -- `UpdateOne` that may violate the index: `none` is a duplicate key error.
  pub update_unique :
      K → (D → Bool) → (D → D) → Collection.Store c → Reply (Option Bool) × Collection.Store c
  pub update_unique_matched :
      (k : K) (p : D → Bool) (u : D → D) (s s' : Collection.Store c)
      → update_unique k p u s ≡ (reply (some true), s')
      → (d : D) × (Collection.get c s k ≡ some d)
        × (p d ≡ true)
        × (Collection.get c s' k ≡ some (u d))
        × ((j : K) → j ≢ k → Collection.get c s' j ≡ Collection.get c s j)
  pub update_unique_unmatched :
      (k : K) (p : D → Bool) (u : D → D) (s s' : Collection.Store c)
      → update_unique k p u s ≡ (reply (some false), s')
      → s' ≡ s
