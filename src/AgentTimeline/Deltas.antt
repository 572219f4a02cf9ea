-- ===== src/AgentTimeline/Deltas.antt =====
-- runtime.ts: `partialDeltaChunks`, over the UTF-16 code units of a delta.
pub mod WholePairs
use remote_pi.Base.{
  ℕ, zero, suc, ◌+◌, ◌-◌, min, Bool, false, ◌&&◌, Option, none, some, List, [], ◌∷◌, length, ltb,
  leb, take, drop, if◌then◌else◌,
}

abbrev pub Units : Type 0
Units = List ℕ

abbrev pub max_partial_delta_chars : ℕ
max_partial_delta_chars = 65536

-- `charCodeAt`; `none` is `NaN`, of which every comparison is false.
unfoldable pub char_code_at : Units → ℕ → Option ℕ
char_code_at [] i = none
char_code_at (u ∷ units) zero = some u
char_code_at (u ∷ units) (suc i) = char_code_at units i

-- The halves of a surrogate pair.
abbrev pub is_high : Option ℕ → Bool
is_high none = false
is_high (some u) = leb 55296 u && leb u 56319

abbrev pub is_low : Option ℕ → Bool
is_low none = false
is_low (some u) = leb 56320 u && leb u 57343

-- `end`, counted from `offset`; `rest` is what is left from there, `size` the constant.
unfoldable pub chunk_end : ℕ → Units → ℕ
chunk_end size rest =
    let end = min (length rest) size in
    if ltb end (length rest)
      && is_high (char_code_at rest (end - 1))
      && is_low (char_code_at rest end)
    then end - 1
    else end

-- The fuel is a bound on the rounds.
unfoldable pub chunks_from : ℕ → ℕ → Units → List Units
chunks_from size zero rest = []
chunks_from size (suc fuel) [] = []
chunks_from size (suc fuel) (u ∷ rest) =
    let end = chunk_end size (u ∷ rest) in
    take end (u ∷ rest) ∷ chunks_from size fuel (drop end (u ∷ rest))

-- Each chunk takes a unit at least, so the length of the delta is fuel enough.
unfoldable pub partial_delta_chunks : Units → List Units
partial_delta_chunks delta = chunks_from max_partial_delta_chars (length delta) delta
