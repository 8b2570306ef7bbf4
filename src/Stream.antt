-- ===== src/Stream.antt =====
-- `RecordStream` of aerospike_sdk/record_stream.py, as the queries in chunks and the single results
-- make it.
pub mod Limit
pub mod Chunks
pub mod Collect
use aerospike_client_python.Base.{
  ℕ, zero, suc, Bool, true, false, ◌&&◌, not, Option, none, some, List, [], ◌∷◌, ◌++◌, leb, ltb,
  if◌then◌else◌,
}

-- The recordsets of aerospike_native: `items` are what iterating one yields, `none` where it
-- raises; `reexecute` is the query over what a cursor leaves, `none` where it raises, `cursor` is
-- `partition_filter()`, its outer `none` an exception and its inner one Python's `None`.
pub record Server : Type 1 where
  pub Row : Type 0
  pub Recordset : Type 0
  pub PartitionFilter : Type 0
  pub items : Recordset → List (Option Row)
  pub cursor : Recordset → Option (Option PartitionFilter)
  pub is_done : PartitionFilter → Bool
  pub reexecute : PartitionFilter → Option Recordset

-- How `__anext__` ends: with a row, with `StopAsyncIteration`, with another exception.
pub data Next (Row : Type 0) : Type 0 where
  row : Row → Next Row
  stopped raised : Next Row

module _ (S : Server) where
  pub record Stream : Type 0 where
    -- what is left of the current chunk, and the rows counted against the limit
    pub source : List (Option S.Row)
    pub counter : ℕ
    pub closed : Bool
    pub single_result : Option S.Row
    pub closeable : Option S.Recordset
    pub chunked : Bool
    pub chunk_first : Bool
    pub chunk_recordset : Option S.Recordset
    pub chunk_limit : ℕ
    pub chunk_count : ℕ
    -- the recordsets that were closed, the last one first
    pub released : List S.Recordset

  -- `_from_chunked_pnc_recordset`
  unfoldable pub from_chunked : S.Recordset → ℕ → Stream
  from_chunked recordset limit = record {
    source = S.items recordset;
    counter = 0;
    closed = false;
    single_result = none;
    closeable = some recordset;
    chunked = true;
    chunk_first = true;
    chunk_recordset = some recordset;
    chunk_limit = limit;
    chunk_count = 0;
    released = [];
  }

  -- `_from_single` of a row: it never has a source, and so no limit.
  unfoldable pub from_single : S.Row → Stream
  from_single r = record {
    source = [];
    counter = 0;
    closed = false;
    single_result = some r;
    closeable = none;
    chunked = false;
    chunk_first = true;
    chunk_recordset = none;
    chunk_limit = 0;
    chunk_count = 0;
    released = [];
  }

  -- `0 < limit <= counted`
  abbrev pub reached : ℕ → ℕ → Bool
  reached limit counted = ltb 0 limit && leb limit counted

  -- The generator of `_make_chunk_iter`, which fetches an item before it looks at the limit; a
  -- generator that broke off or raised is over.
  abbrev pub pull : Stream → List (Option S.Row) → Next S.Row × Stream
  pull s [] = (stopped, s)
  pull s (none ∷ rest) = (raised, record s { source = [] })
  pull s (some r ∷ rest) =
      if reached s.chunk_limit s.counter
      then (stopped, record s { source = [] })
      else (row r, record s { source = rest; counter = suc s.counter })

  -- `__anext__`, whose single result comes before the source.
  unfoldable pub anext : Stream → Next S.Row × Stream
  anext s = if s.closed then (stopped, s) else elim s.single_result [
    | some r ↦ (row r, record s { single_result = none; closed = true })
    | none ↦ pull s s.source
  ]

  -- `pop`: `none` inside is Python's `None`.
  unfoldable pub pop : Stream → Next S.Row × Stream
  unfolding anext
  pop s = elim s.single_result [
    | some r ↦ (row r, record s { single_result = none; closed = true })
    | none ↦ anext s
  ]

  unfoldable pub close : Stream → Stream
  close s = elim s.closeable [
    | none ↦ record s { closed = true }
    | some c ↦ record s { closed = true; closeable = none; released = c ∷ s.released }
  ]

  -- `first`: the row, and the stream closed behind it.
  unfoldable pub first : Stream → Next S.Row × Stream
  unfolding pop close
  first s = let r = pop s in (r.0, close r.1)

  -- How `has_more_chunks` ends: with its answer, or with an exception.
  pub data More : Type 0 where
    more : Bool → More
    failed : More

  abbrev release : Option S.Recordset → List S.Recordset → List S.Recordset
  release none rs = rs
  release (some r) rs = r ∷ rs

  -- The new chunk adopted. The server never returns the recordset it was asked to go on from.
  abbrev pub adopt : Stream → S.Recordset → Stream
  adopt s recordset = record s {
    source = S.items recordset;
    chunk_recordset = some recordset;
    closeable = some recordset;
    chunk_count = s.counter;
    closed = false;
    released = release s.closeable s.released;
  }

  abbrev pub go_on : Stream → Option (Option S.PartitionFilter) → More × Stream
  go_on s none = (failed, s)
  go_on s (some none) = (more false, s)
  go_on s (some (some pf)) = if S.is_done pf then (more false, s) else elim (S.reexecute pf) [
    | none ↦ (failed, s)
    | some recordset ↦ (more true, adopt s recordset)
  ]

  abbrev pub cursor_of : Option S.Recordset → Option (Option S.PartitionFilter)
  cursor_of none = none
  cursor_of (some r) = S.cursor r

  unfoldable pub has_more_chunks : Stream → More × Stream
  has_more_chunks s =
      if s.chunk_first
      then (more true, record s { chunk_first = false })
      else if not s.chunked
      then (more false, s)
      else if reached s.chunk_limit s.chunk_count
      then (more false, s)
      else go_on s (cursor_of s.chunk_recordset)
